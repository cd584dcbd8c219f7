-- ===== src/Events/Step.antt =====
-- What one page does to a scan of `EventCursor` in src/utils/event-cursor.ts.
use mathlib.Core.Path.{subst}
use coralswap_sdk.Common.{
  ℕ, ◌≡◌, refl, sym, ap, ◌∙◌, Bool, false, not, ◌||◌, Option, none, some, List, [], ◌∷◌, ◌++◌,
  length, last_of, ltb, ◌==◌,
}
use coralswap_sdk.Events.Page.{
  Event, Filter, Response, Key, Scan, same_option, or_option, take_page, new_events, page_of, page,
}

or_some : (a : Option ℕ) (l : ℕ) → (k : ℕ) × (or_option a (some l) ≡ some k)
or_some none l = (l, refl)
or_some (some k) l = (k, refl)

module _ (filter : Filter) (limit : ℕ) where
  -- What a page with events does to the loop, where it comes with a new cursor.
  pub record Went (r : Response) (s : Scan) (cursor : ℕ) (next : Scan) (more : Bool) : Type 0 where
    pub events : next.all_events ≡ s.all_events ++ r.events
    pub moved : next.current_cursor ≡ some cursor
    pub fresh : next.carried_keys ≡ none
    pub full : more ≡ not (ltb (length r.events) limit || length r.events == 0)

  all_fresh :
      (s : Scan) (events : List Event)
      → s.carried_keys ≡ none
      → new_events s.carried_keys s.start_ledger events ≡ events
  all_fresh s events clean =
      ap (λ (k : Option (List Key)). new_events k s.start_ledger events) clean

  take_page-Went :
      (r : Response) (s : Scan) (last_event : Event) (last_ledger cursor : ℕ)
      → r.cursor ≡ some cursor
      → s.carried_keys ≡ none
      → same_option (some cursor) s.current_cursor ≡ false
      → let p = take_page filter limit none r last_event (some last_ledger) s in
        Went r s cursor p.0 p.1
  take_page-Went r s last_event last_ledger cursor given clean new =
      let fresh = all_fresh s r.events clean in
      record {
        events = simp (given, new, fresh);
        moved = simp (given, new);
        fresh = simp (given, new);
        full = simp (given, new, fresh);
      }

  pub page-Went :
      (r : Response) (s : Scan) (e : Event) (es : List Event) (latest cursor : ℕ)
      → r.events ≡ e ∷ es
      → r.latest_ledger ≡ some latest
      → r.cursor ≡ some cursor
      → s.carried_keys ≡ none
      → same_option (some cursor) s.current_cursor ≡ false
      → Went r s cursor (page filter limit none r s).0 (page filter limit none r s).1
  unfolding page
  page-Went r s e es latest cursor has at given clean new =
      let last_event = last_of e es in
      let (last_ledger, known) = or_some last_event.ledger latest in
      let taken : (page filter limit none r s
          ≡ take_page filter limit none r last_event (some last_ledger) s) =
        ap (λ (events : List Event). page_of filter limit none events r s) has
        ∙ ap (λ (k : Option ℕ). take_page filter limit none r last_event k s)
            (ap (or_option last_event.ledger) at ∙ known) in
      subst (λ (p : Scan × Bool). Went r s cursor p.0 p.1) (sym taken)
        (take_page-Went r s last_event last_ledger cursor given clean new)

  pub page_empty :
      (r : Response) (s : Scan)
      → r.events ≡ []
      → ((page filter limit none r s).0.all_events ≡ s.all_events)
        × ((page filter limit none r s).1 ≡ false)
  unfolding page
  page_empty r s has =
      let taken = ap (λ (events : List Event). page_of filter limit none events r s) has in
      (ap (λ (p : Scan × Bool). p.0.all_events) taken, ap (λ (p : Scan × Bool). p.1) taken)
