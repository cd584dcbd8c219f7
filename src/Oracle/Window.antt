-- ===== src/Oracle/Window.antt =====
-- The time-weighted prices that `getTWAP` and `computeTWAP` of src/modules/oracle.ts return.
use mathlib.Core.Path.{subst}
use coralswap_sdk.Common.{
  ℕ, ◌+◌, ◌-◌, ◌*◌, ◌/◌, ◌≤◌, ◌<◌, ◌≡◌, refl, sym, ap, ◌∙◌, arith, Bool, true, false, ◌&&◌, Option,
  none, some, List, [], ◌∷◌, ◌++◌, length, last_of, Result, ok, leb, ltb, ◌==◌, ℤ, pos, quot, ◌-ℤ◌,
  sub_ℕ-eq_pos, guard-passed, ok-injective, validation, or_else,
}
use coralswap_sdk.Common.Division.{le-div, div-le}
use coralswap_sdk.Market.{Address}
use coralswap_sdk.Oracle.{
  TwapObservation, TwapResult, Chain, ObservationCache, set, push, observed, after_observe, observe,
  compute_twap, twap_between, twap_of, get_twap,
}
use coralswap_sdk.Oracle.Pruned.{Ends, Covers, Recent, push-Ends, length-push, push-Covers}

last_of-append :
    (n : TwapObservation) (ns : List TwapObservation) (o : TwapObservation)
    → last_of n (ns ++ o ∷ []) ≡ o
last_of-append n [] o = refl
last_of-append n (x ∷ ns) o = last_of-append x ns o

eqb_refl : (a : ℕ) → a == a ≡ true
eqb_refl a = ground arith

module _ (chain : Chain) (pair : Address) (o : TwapObservation) (tokens : Address × Address) where
  -- What is returned for a window that ends at `o`.
  abbrev pub Full : Result (Option TwapResult) → Type 0
  Full answer =
      (r : TwapResult) × (answer ≡ ok (some r))
      × (r.end_observation ≡ o)
      × (300 ≤ r.time_window)
      × (r.start_observation.block_timestamp_last + r.time_window ≡ o.block_timestamp_last)

  abbrev window : TwapObservation → TwapResult
  window start =
      let elapsed = o.block_timestamp_last - start.block_timestamp_last in
      record {
        pair_address = pair;
        token0 = tokens.0;
        token1 = tokens.1;
        price0_twap = quot (o.price0_cumulative_last -ℤ start.price0_cumulative_last) (pos elapsed);
        price1_twap = quot (o.price1_cumulative_last -ℤ start.price1_cumulative_last) (pos elapsed);
        time_window = elapsed;
        start_observation = start;
        end_observation = o;
      }

  twap_between-Full :
      (start : TwapObservation)
      → chain.market.get_tokens pair ≡ ok tokens
      → start.block_timestamp_last + 300 ≤ o.block_timestamp_last
      → Full (twap_between chain true pair start o)
  unfolding compute_twap
  twap_between-Full start known long =
      rw (later start.block_timestamp_last o.block_timestamp_last long) (
        rw (wide start.block_timestamp_last o.block_timestamp_last long) (
          rw known (
            window start,
            refl,
            refl,
            long_enough start.block_timestamp_last o.block_timestamp_last long,
            meets start.block_timestamp_last o.block_timestamp_last long,
          )))
    where
      later : (a b : ℕ) → a + 300 ≤ b → leb b a ≡ false
      later a b h = ground arith

      long_enough : (a b : ℕ) → a + 300 ≤ b → 300 ≤ b - a
      long_enough a b h = omega arith

      meets : (a b : ℕ) → a + 300 ≤ b → a + (b - a) ≡ b
      meets a b h = omega arith

      wide : (a b : ℕ) → a + 300 ≤ b → ltb (b - a) 300 ≡ false
      wide a b h = ground arith

  twap_of-Full :
      (before : List TwapObservation)
      → chain.market.get_tokens pair ≡ ok tokens
      → Covers o.block_timestamp_last (before ++ o ∷ [])
      → Full (twap_of chain true pair (before ++ o ∷ []))
  twap_of-Full [] known c = absurd (no_window o.block_timestamp_last c)
    where
      no_window : (a : ℕ) → a + 300 ≤ a → ⊥
      no_window a h = omega arith
  twap_of-Full (start ∷ []) known c = twap_between-Full start known c
  twap_of-Full (start ∷ next ∷ others) known c =
      rw (last_of-append next others o) (twap_between-Full start known c)

  twap_of_ended :
      (l : List TwapObservation)
      → chain.market.get_tokens pair ≡ ok tokens
      → Ends o l
      → Covers o.block_timestamp_last l
      → Full (twap_of chain true pair l)
  twap_of_ended l known (before, e) c =
      rw e (twap_of-Full before known (subst (Covers o.block_timestamp_last) e c))

  observe_read :
      (cache : ObservationCache)
      → chain.is_valid_address pair ≡ true
      → chain.get_cumulative_prices pair ≡ ok o
      → observe chain cache pair ≡ (set cache pair (push (cache pair) o), ok o)
  unfolding observe
  observe_read cache valid read = rw valid (ap (observed chain cache pair) read)

  set_same : (cache : ObservationCache) (l : List TwapObservation) → set cache pair l pair ≡ l
  set_same cache l = rw (eqb_refl pair) refl

  get_twap_read :
      (cache : ObservationCache)
      → chain.is_valid_address pair ≡ true
      → chain.get_cumulative_prices pair ≡ ok o
      → get_twap chain none cache pair ≡ (
        set cache pair (push (cache pair) o),
        twap_of chain true pair (set cache pair (push (cache pair) o) pair),
      )
  unfolding get_twap
  get_twap_read cache valid read =
      ap (after_observe chain true pair) (observe_read cache valid read)

  -- `getTWAP` with the window that it enforces by default: a pair whose oldest observation is at least
  -- 300 seconds older than the new one, and which has fewer than 500 of them, gets a result. Its window
  -- ends at the new observation and is at least 300 seconds long. The oldest observation that is kept is
  -- still that old, the second oldest is not, and there are at most 500.
  pub get_twap-Full :
      (cache : ObservationCache)
      → chain.is_valid_address pair ≡ true
      → chain.get_cumulative_prices pair ≡ ok o
      → chain.market.get_tokens pair ≡ ok tokens
      → length (cache pair) < 500
      → Covers o.block_timestamp_last (cache pair)
      → Full (get_twap chain none cache pair).1
        × Covers o.block_timestamp_last ((get_twap chain none cache pair).0 pair)
        × Recent o.block_timestamp_last ((get_twap chain none cache pair).0 pair)
        × (length ((get_twap chain none cache pair).0 pair) ≤ 500)
  get_twap-Full cache valid read known few c =
      let kept = push-Covers (cache pair) o few c in
      rw (get_twap_read cache valid read) (
        rw (set_same cache (push (cache pair) o)) (
          twap_of_ended (push (cache pair) o) known (push-Ends (cache pair) o) kept.0,
          kept.0,
          kept.1,
          length-push (cache pair) o,
        ))

-- A cumulative price that grew by `d`.
growth : (c d : ℕ) → pos (c + d) -ℤ pos c ≡ pos d
growth c d = sub_ℕ-eq_pos (c + d) c (omega arith) ∙ ap pos (rest c d)
  where
    rest : (c d : ℕ) → c + d - c ≡ d
    rest c d = omega arith

module _ (start end : TwapObservation) (enforce : Option Bool) (answer : ℤ × ℤ × ℕ) where
  -- Where the cumulative price grew in each second by no less than `lo` and by no more than `hi`, the
  -- first price that `computeTWAP` returns lies between `lo` and `hi`.
  pub compute_twap-Between :
      (lo hi c d : ℕ)
      → compute_twap start end enforce ≡ ok answer
      → start.price0_cumulative_last ≡ pos c
      → end.price0_cumulative_last ≡ pos (c + d)
      → lo * (end.block_timestamp_last - start.block_timestamp_last) ≤ d
      → d ≤ hi * (end.block_timestamp_last - start.block_timestamp_last)
      → (price : ℕ) × (answer.0 ≡ pos price) × (lo ≤ price) × (price ≤ hi)
  unfolding compute_twap
  compute_twap-Between lo hi c d e from to least most =
      let elapsed = end.block_timestamp_last - start.block_timestamp_last in
      let (after, unguarded) =
        guard-passed (leb end.block_timestamp_last start.block_timestamp_last) validation _ e in
      let (wide, returned) =
        guard-passed (or_else enforce true && ltb elapsed 300) validation _ unguarded in
      let positive = some_time start.block_timestamp_last end.block_timestamp_last after in
      (
        d / elapsed,
        sym (ap (λ (a : ℤ × ℤ × ℕ). a.0) (ok-injective returned))
            ∙ (rw to (rw from (ap (λ (z : ℤ). quot z (pos elapsed)) (growth c d)))),
        le-div lo d elapsed positive least,
        div-le hi d elapsed most positive,
      )
    where
      some_time : (a b : ℕ) → leb b a ≡ false → 0 < b - a
      some_time a b h = ground arith
