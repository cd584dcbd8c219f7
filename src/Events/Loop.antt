-- ===== src/Events/Loop.antt =====
-- The loop of `EventCursor.scan` in src/utils/event-cursor.ts, with a server that gives out a cursor with every
-- page.
use mathlib.Core.Path.{subst}
use mathlib.Core.List.{append_assoc, append-nil}
use coralswap_sdk.Common.{
  ℕ, zero, suc, ◌+◌, ◌-◌, ◌<◌, ◌≡◌, ◌⊎◌, inl, inr, refl, sym, ap, ◌∙◌, arith, Bool, true, false,
  not, ◌||◌, Option, none, some, List, [], ◌∷◌, ◌++◌, length, take, drop, Result, ok, ltb, ◌==◌,
  Bool-cases, take_nil, take-cons, length-drop, drop-plus, take_then_drop, take_short,
}
use coralswap_sdk.Events.Page.{
  Event, Filter, by_ledger, by_cursor, Response, Scan, same_option, request_at, page,
}
use coralswap_sdk.Events.Cursor.{Server, Ended, pages, after_page, after_request}
use coralswap_sdk.Events.Step.{Went, page-Went, page_empty}

after_page_stops :
    (server : Server) (filter : Filter) (limit : ℕ) (rest : Scan → Option Ended) (p : Scan × Bool)
    → p.1 ≡ false
    → after_page server filter limit none rest p ≡ some (p.0, ok tt)
after_page_stops server filter limit rest (s, false) e = refl
after_page_stops server filter limit rest (s, true) e = cc

after_page_goes_on :
    (server : Server) (filter : Filter) (limit : ℕ) (rest : Scan → Option Ended) (p : Scan × Bool)
    → p.1 ≡ true
    → after_page server filter limit none rest p ≡ rest p.0
after_page_goes_on server filter limit rest (s, true) e = refl
after_page_goes_on server filter limit rest (s, false) e = cc

other_cursor : (at c : ℕ) → at < c → same_option (some c) (some at) ≡ false
other_cursor at c h = ground arith

List-cases {ℓ} : {A : Type ℓ} (l : List A) → (l ≡ []) ⊎ ((x : A) × (xs : List A) × (l ≡ x ∷ xs))
List-cases [] = inl refl
List-cases (x ∷ xs) = inr (x, xs, refl)

-- The answer is the page of the log at position `at`, and its cursor is the position after it.
abbrev pub Serves : (limit : ℕ) (log : List Event) → ℕ → Result Response → Type 0
Serves limit log at answer =
    (r : Response) × (answer ≡ ok r)
    × (r.events ≡ take limit (drop at log))
    × (r.cursor ≡ some (at + length r.events))
    × ((latest : ℕ) × (r.latest_ledger ≡ some latest))

-- `server` pages through `log`: `start_of` is where the events of a ledger start.
module _ (server : Server) (filter : Filter) (limit : ℕ) (some_limit : 0 < limit) (log : List Event)
    (start_of : ℕ → ℕ) where
  -- The loop asks for the page at position `at` next.
  abbrev pub At : Scan → ℕ → Type 0
  At s at =
      ((s.current_cursor ≡ none) × (start_of s.start_ledger ≡ at)) ⊎ (s.current_cursor ≡ some at)

  At-new : (s : Scan) (at c : ℕ) → At s at → at < c → same_option (some c) s.current_cursor ≡ false
  At-new s at c (inl (e, start)) h = ap (same_option (some c)) e
  At-new s at c (inr e) h = ap (same_option (some c)) e ∙ other_cursor at c h

  -- What is left of the log is what a scan still adds.
  abbrev pub Completes : ℕ → ℕ → Scan → ℕ → Type 0
  Completes fuel served s at =
      (t : Scan) × (pages server filter limit none fuel served s ≡ some (t, ok tt))
      × (t.all_events ≡ s.all_events ++ drop at log)

  module _
      (first_serves : (i ledger : ℕ)
        → Serves limit log (start_of ledger) (server.get_events i (by_ledger ledger filter limit)))
      (next_serves : (i c : ℕ)
        → Serves limit log c (server.get_events i (by_cursor c filter limit))) where
    At-Serves :
        (i : ℕ) (s : Scan) (at : ℕ)
        → At s at
        → Serves limit log at
            (server.get_events i (request_at filter limit none s.current_cursor s.start_ledger))
    At-Serves i s at (inl (e, start)) =
        subst
          (λ a.
            Serves limit log a
              (server.get_events i (request_at filter limit none s.current_cursor s.start_ledger)))
          start
          (subst
            (λ (k : Option ℕ).
              Serves limit log (start_of s.start_ledger)
                (server.get_events i (request_at filter limit none k s.start_ledger)))
            (sym e) (first_serves i s.start_ledger))
    At-Serves i s at (inr e) =
        subst
          (λ (k : Option ℕ).
            Serves limit log at
              (server.get_events i (request_at filter limit none k s.start_ledger)))
          (sym e) (next_serves i at)

    from_page :
        (fuel served : ℕ) (s : Scan) (r : Response)
        → server.get_events served (request_at filter limit none s.current_cursor s.start_ledger)
          ≡ ok r
        → pages server filter limit none (suc fuel) served s
          ≡ after_page server filter limit none
              (pages server filter limit none fuel (suc served))
              (page filter limit none r s)
    unfolding pages
    from_page fuel served s r answered =
        ap
          (after_request server filter limit none s
            (pages server filter limit none fuel (suc served)))
          answered

    no_events :
        (fuel served : ℕ) (s : Scan) (at : ℕ) (r : Response)
        → server.get_events served (request_at filter limit none s.current_cursor s.start_ledger)
          ≡ ok r
        → r.events ≡ []
        → drop at log ≡ []
        → Completes (suc fuel) served s at
    no_events fuel served s at r answered has left =
        let (same, stop) = page_empty filter limit r s has in
        (
          (page filter limit none r s).0,
          from_page fuel served s r answered
              ∙ after_page_stops server filter limit
                  (pages server filter limit none fuel (suc served)) (page filter limit none r s)
                  stop,
          same
              ∙ sym (append-nil s.all_events)
              ∙ ap (λ (l : List Event). s.all_events ++ l) (sym left),
        )

    -- A page that is not full is the last.
    last_events :
        (fuel served : ℕ) (s : Scan) (at cursor : ℕ) (r : Response)
        → server.get_events served (request_at filter limit none s.current_cursor s.start_ledger)
          ≡ ok r
        → r.events ≡ take limit (drop at log)
        → Went filter limit r s cursor (page filter limit none r s).0 (page filter limit none r s).1
        → (ltb (length r.events) limit || length r.events == 0) ≡ true
        → Completes (suc fuel) served s at
    last_events fuel served s at cursor r answered has w stop =
        let few : (length r.events < limit) = ground (arith, stop, some_limit) in
        let all = take_short limit (drop at log) (subst (λ l. length l < limit) has few) in
        (
          (page filter limit none r s).0,
          from_page fuel served s r answered
              ∙ after_page_stops server filter limit
                  (pages server filter limit none fuel (suc served)) (page filter limit none r s)
                  (w.full ∙ ap not stop),
          w.events ∙ ap (λ (l : List Event). s.all_events ++ l) (has ∙ all),
        )

    joined :
        (at : ℕ) (events : List Event)
        → events ≡ take limit (drop at log)
        → events ++ drop (at + length events) log ≡ drop at log
    joined at events has =
        ap (λ (l : List Event). events ++ l) (drop-plus at (length events) log)
        ∙ ap (λ (l : List Event). l ++ drop (length l) (drop at log)) has
        ∙ take_then_drop limit (drop at log)

    more_events :
        (fuel served : ℕ) (s : Scan) (at : ℕ) (r : Response)
        → server.get_events served (request_at filter limit none s.current_cursor s.start_ledger)
          ≡ ok r
        → r.events ≡ take limit (drop at log)
        → (w : Went filter limit r s
            (at + length r.events)
            (page filter limit none r s).0
            (page filter limit none r s).1)
        → (ltb (length r.events) limit || length r.events == 0) ≡ false
        → Completes fuel (suc served) (page filter limit none r s).0 (at + length r.events)
        → Completes (suc fuel) served s at
    more_events fuel served s at r answered has w more (t, done, events) = (
      t,
      from_page fuel served s r answered
          ∙ after_page_goes_on server filter limit
              (pages server filter limit none fuel (suc served)) (page filter limit none r s)
              (w.full ∙ ap not more)
          ∙ done,
      events
          ∙ ap (λ (l : List Event). l ++ drop (at + length r.events) log) w.events
          ∙ append_assoc s.all_events r.events (drop (at + length r.events) log)
          ∙ ap (λ (l : List Event). s.all_events ++ l) (joined at r.events has),
    )

    pub pages-Completes :
        (fuel served : ℕ) (s : Scan) (at : ℕ)
        → At s at
        → s.carried_keys ≡ none
        → length (drop at log) < fuel
        → Completes fuel served s at
    pages-Completes zero served s at here clean h = elim h [ ]
    pages-Completes (suc fuel) served s at here clean h =
        let (r, answered, has, cursor, (latest, known)) = At-Serves served s at here in
        elim (List-cases (drop at log)) [
          | inl nil ↦
              no_events fuel served s at r answered (has ∙ ap (take limit) nil ∙ take_nil limit) nil
          | inr (e, es, cons) ↦
              let some_events : (r.events ≡ e ∷ take (limit - 1) es) =
                has ∙ ap (take limit) cons ∙ take-cons limit e es some_limit in
              let moved : (at < at + length r.events) = omega (arith, ap length some_events) in
              let w =
                page-Went filter limit r s e (take (limit - 1) es) latest (at + length r.events)
                  some_events known cursor clean (At-new s at (at + length r.events) here moved) in
              elim (Bool-cases (ltb (length r.events) limit || length r.events == 0)) [
                | inl stop ↦
                    last_events fuel served s at (at + length r.events) r answered has w stop
                | inr more ↦ more_events fuel served s at r answered has w more (
                    pages-Completes fuel (suc served) (page filter limit none r s).0
                      (at + length r.events) (inr w.moved) w.fresh
                      (omega (
                        arith,
                        h,
                        moved,
                        length-drop at log,
                        length-drop (at + length r.events) log,
                        ap length cons,
                      )))
              ]
        ]
