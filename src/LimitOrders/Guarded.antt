-- ===== src/LimitOrders/Guarded.antt =====
-- What is checked before a limit order is placed or cancelled.
use coralswap_sdk.Common.{
  [], ◌∷◌, ℕ, suc, ◌*◌, ◌^◌, ◌≤◌, negsuc, pos_part, neg_part, magnitude, ◌/◌, ◌<◌, ◌≡◌, ◌≢◌, ◌⊎◌,
  inl, inr, refl, sym, ap, arith, ◌∙◌, Bool, true, false, not, Option, none, some, or_else, Result,
  ok, err, SdkError, validation, throw_if, ◌>>=◌, Text, has_content, ◌≤ℤ◌, pos, bind-returned,
  guard-passed, ok-injective,
}
use mathlib.Core.Path.{subst}
use coralswap_sdk.Market.{Address}
use coralswap_sdk.LimitOrders.Parse.{
  LimitOrderState, open_order, partial, filled, cancelled, expired, OrderStatus, Cancelled,
  parse_cancel_result,
}
use coralswap_sdk.LimitOrders.ScVal.{ScVal, scval_to_string}
use coralswap_sdk.LimitOrders.Resubmit.{submit_with_idempotent_resubmission, Submitted}
use coralswap_sdk.LimitOrders.Build.{
  Number, finite, infinite, nan, LimitOrderParams, Operation, cancel, create_order, Chain,
  simulated, get_limit_order_status, check_cancellable, is_target_price, is_limit_order_params,
  is_optional_address, is_pair, check_pair, build_cancel_operation, build_place_operation,
  was_cancelled, order_exists,
}
use coralswap_sdk.LimitOrders.Orders.{
  Run, after_build, returning, CancelResult, cancel_result, cancel_limit_order, place_limit_order,
  attempts_of,
}

pub built_before {ℓ κ} :
    {B : Type κ} {A : Type ℓ} (b : Result B) (rest : B → Run A)
    → 0 < (after_build b rest).submissions
    → record { built : B; first : b ≡ ok built; same : after_build b rest ≡ rest built }
built_before (ok built) rest h = record { built = built; first = refl; same = refl }
built_before (err thrown) rest h = elim h [ ]

returned {ℓ} :
    {A : Type ℓ} (t : Submitted) (result : Option ℕ → A) {a : A}
    → (returning t result).outcome ≡ ok a
    → (tx_hash : Option ℕ) × (a ≡ result tx_hash)
returned t result e =
    let b = bind-returned t.outcome _ e in (b.value, sym (ok-injective b.then_rest))

cancellable :
    (s : LimitOrderState) {u : Unit {0}}
    → check_cancellable s ≡ ok u
    → (s ≡ open_order) ⊎ (s ≡ partial)
unfolding check_cancellable
cancellable open_order e = inl refl
cancellable partial e = inr refl
cancellable filled e = cc
cancellable cancelled e = cc
cancellable expired e = cc

-- What a cancellation rests on: the order's status, and the amounts that the simulation gave.
abbrev pub Cancels : Chain → Text → Option Address → Operation → Cancelled → Type 0
Cancels c order_id signer op amounts =
    (op ≡ cancel order_id (or_else signer c.public_key))
    × ((s : OrderStatus) × (get_limit_order_status c.node order_id ≡ ok s)
        × ((s.state ≡ open_order) ⊎ (s.state ≡ partial)))
    × ((simulated c.node op >>= parse_cancel_result) ≡ ok amounts)

build_cancel-Cancels :
    (c : Chain) (order_id : Text) (signer : Option Address) {built : Operation × Cancelled}
    → build_cancel_operation c order_id signer ≡ ok built
    → Cancels c order_id signer built.0 built.1
unfolding build_cancel_operation
build_cancel-Cancels c order_id signer e =
    let op = cancel order_id (or_else signer c.public_key) in
    let (content, e1) = guard-passed (not (has_content order_id)) validation _ e in
    let (address, e2) = guard-passed (not (is_optional_address c signer)) validation _ e1 in
    let status = bind-returned (get_limit_order_status c.node order_id) _ e2 in
    let checked = bind-returned (check_cancellable status.value.state) _ status.then_rest in
    let sim = bind-returned (simulated c.node op) _ checked.then_rest in
    let amounts = bind-returned (parse_cancel_result sim.value) _ sim.then_rest in
    subst (λ (b : Operation × Cancelled). Cancels c order_id signer b.0 b.1)
      (ok-injective amounts.then_rest)
      (
        refl,
        (status.value, status.first, cancellable status.value.state checked.first),
        ap (λ (r : Result _). r >>= parse_cancel_result) sim.first ∙ amounts.first,
      )

abbrev cancelling : Chain → Text → Operation → Submitted
cancelling c order_id op =
    submit_with_idempotent_resubmission (attempts_of c (op ∷ []) (λ n. was_cancelled n order_id))

-- Nothing is submitted to cancel an order unless its status was read and is open or partial, and the cancellation
-- was simulated; the amounts returned are those of the simulation.
pub cancel_limit_order-Cancels :
    (c : Chain) (order_id : Text) (signer : Option Address)
    → 0 < (cancel_limit_order c order_id signer).submissions
    → (op : Operation) × (amounts : Cancelled) × Cancels c order_id signer op amounts
      × ((r : CancelResult)
          → (cancel_limit_order c order_id signer).outcome ≡ ok r
          → (tx_hash : Option ℕ) × (r ≡ cancel_result amounts tx_hash))
unfolding cancel_limit_order
cancel_limit_order-Cancels c order_id signer h =
    let b = built_before (build_cancel_operation c order_id signer) _ h in
    (
      b.built.0,
      b.built.1,
      build_cancel-Cancels c order_id signer b.first,
      λ r e.
          returned (cancelling c order_id b.built.0) (cancel_result b.built.1)
            (ap (λ (t : Run CancelResult). t.outcome) (sym b.same) ∙ e),
    )

-- A number that is positive and not above a million.
abbrev pub IsPrice : Number → Type 0
IsPrice (finite m e) = (pos 1 ≤ℤ m) × (magnitude m * 2 ^ pos_part e ≤ 1_000_000 * 2 ^ neg_part e)
IsPrice infinite = ⊥
IsPrice nan = ⊥

is_target_price-IsPrice : (p : Number) → is_target_price p ≡ true → IsPrice p
unfolding is_target_price
is_target_price-IsPrice (finite (pos m) (pos e)) h = ground arith
is_target_price-IsPrice (finite (pos m) (negsuc e)) h = ground arith
is_target_price-IsPrice (finite (negsuc m) e) h = absurd (ground arith)
is_target_price-IsPrice infinite h = cc
is_target_price-IsPrice nan h = cc

-- What a placement rests on: the parameters that are checked, where the client has `getPairAddress` the pair
-- that it gives for the tokens, and an order id that the simulation gave.
abbrev pub InRange : Chain → LimitOrderParams → Type 0
InRange c params =
    IsPrice params.target_price
    × (pos (suc (c.now_ms / 1000)) ≤ℤ params.expiry)
    × (pos 1 ≤ℤ params.amount_in)
    × (params.token_in ≢ params.token_out)
    × (c.is_valid_address params.token_in ≡ true)
    × (c.is_valid_address params.token_out ≡ true)
    × (c.is_valid_address params.pair_address ≡ true)

abbrev pub Places : Chain → LimitOrderParams → Option Address → Operation → Text → Type 0
Places c params signer op order_id =
    (op ≡ create_order params (or_else signer c.public_key))
    × InRange c params
    × ((f : Address → Address → Result (Option Address))
        → c.get_pair_address ≡ some f
        → f params.token_in params.token_out ≡ ok (some params.pair_address))
    × ((simulated c.node op >>= λ value. scval_to_string (some value)) ≡ ok order_id)

params_checked :
    (c : Chain) (params : LimitOrderParams)
    → not (is_limit_order_params c params) ≡ false
    → (is_target_price params.target_price ≡ true)
      × (pos (suc (c.now_ms / 1000)) ≤ℤ params.expiry)
      × (pos 1 ≤ℤ params.amount_in)
      × (params.token_in ≢ params.token_out)
      × (c.is_valid_address params.token_in ≡ true)
      × (c.is_valid_address params.token_out ≡ true)
      × (c.is_valid_address params.pair_address ≡ true)
unfolding is_limit_order_params
params_checked c params h = ground arith

params-InRange :
    (c : Chain) (params : LimitOrderParams)
    → not (is_limit_order_params c params) ≡ false
    → InRange c params
params-InRange c params h =
    let (price, expiry, amount, tokens, address_in, address_out, pair) =
      params_checked c params h in
    (
      is_target_price-IsPrice params.target_price price,
      expiry,
      amount,
      tokens,
      address_in,
      address_out,
      pair,
    )

found_pair : (a : Option Address) (p : Address) → not (is_pair a p) ≡ false → a ≡ some p
found_pair none p h = cc
found_pair (some a) p h = ground arith

not_thrown : (b : Bool) (thrown : SdkError) {u : Unit {0}} → throw_if b thrown ≡ ok u → b ≡ false
not_thrown true thrown e = cc
not_thrown false thrown e = refl

some-injective {ℓ} : {A : Type ℓ} {a b : A} → some a ≡ some b → a ≡ b
some-injective e = cc

pair_checked :
    (g : Option (Address → Address → Result (Option Address))) (params : LimitOrderParams)
    {u : Unit {0}}
    → check_pair g params ≡ ok u
    → (f : Address → Address → Result (Option Address)) → g ≡ some f
    → f params.token_in params.token_out ≡ ok (some params.pair_address)
pair_checked none params e f same = cc
pair_checked (some g) params e f same =
    let found = bind-returned (g params.token_in params.token_out) _ e in
    let matches =
      not_thrown (not (is_pair found.value params.pair_address)) validation found.then_rest in
    subst
      (λ (k : Address → Address → Result (Option Address)).
        k params.token_in params.token_out ≡ ok (some params.pair_address))
      (some-injective same)
      (found.first ∙ ap ok (found_pair found.value params.pair_address matches))

build_place-Places :
    (c : Chain) (params : LimitOrderParams) (signer : Option Address) {built : Operation × Text}
    → build_place_operation c params signer ≡ ok built
    → Places c params signer built.0 built.1
unfolding build_place_operation
build_place-Places c params signer e =
    let op = create_order params (or_else signer c.public_key) in
    let (valid, e1) = guard-passed (not (is_limit_order_params c params)) validation _ e in
    let (address, e2) = guard-passed (not (is_optional_address c signer)) validation _ e1 in
    let paired = bind-returned (check_pair c.get_pair_address params) _ e2 in
    let sim = bind-returned (simulated c.node op) _ paired.then_rest in
    let id = bind-returned (scval_to_string (some sim.value)) _ sim.then_rest in
    subst (λ (b : Operation × Text). Places c params signer b.0 b.1) (ok-injective id.then_rest)
      (
        refl,
        params-InRange c params valid,
        pair_checked c.get_pair_address params paired.first,
        ap (λ (r : Result ScVal). r >>= λ value. scval_to_string (some value)) sim.first ∙ id.first,
      )

abbrev placing : Chain → Text → Operation → Submitted
placing c order_id op =
    submit_with_idempotent_resubmission (attempts_of c (op ∷ []) (λ n. order_exists n order_id))

-- Nothing is submitted to place an order unless its price is positive and at most a million, its amount is
-- positive, its expiry is in the future, its tokens are distinct, the addresses of its tokens and its pair are
-- valid, and the placement was simulated; a client that has `getPairAddress` must give the order's pair for its
-- tokens. The id returned is the one that the simulation gave.
pub place_limit_order-Places :
    (c : Chain) (params : LimitOrderParams) (signer : Option Address)
    → 0 < (place_limit_order c params signer).submissions
    → (op : Operation) × (order_id : Text) × Places c params signer op order_id
      × ((id : Text) → (place_limit_order c params signer).outcome ≡ ok id → id ≡ order_id)
unfolding place_limit_order
place_limit_order-Places c params signer h =
    let b = built_before (build_place_operation c params signer) _ h in
    (
      b.built.0,
      b.built.1,
      build_place-Places c params signer b.first,
      λ id e.
          (returned (placing c b.built.1 b.built.0) (λ tx_hash. b.built.1)
            (ap (λ (t : Run Text). t.outcome) (sym b.same) ∙ e)).1,
    )
