-- ===== src/Events/Complete.antt =====
-- A scan of `EventCursor` in src/utils/event-cursor.ts returns all events of a server that gives out a cursor
-- with every page.
use mathlib.Core.Path.{subst}
use coralswap_sdk.Common.{
  ℕ, ◌<◌, ◌≡◌, ◌⊎◌, inl, inr, refl, ap, ◌∙◌, arith, false, ◌||◌, Option, none, some, List, length,
  drop, ok, length-drop, guard-passed, ok-injective, validation, ltb_ℤ, ℤ, pos, pos_part, or_else,
}
use coralswap_sdk.Events.Page.{Event, by_ledger, by_cursor}
use coralswap_sdk.Events.Cursor.{
  Server, EventCursor, ScanParams, ScanResult, pages, first_page, filter_of, limit_of,
  anchor_if_needed, scan, scan_with, scan_from, scan_anchored, finish, result_of,
}
use coralswap_sdk.Events.Loop.{Serves, pages-Completes}

-- The ledger at which a scan starts: the one given, or else the cursor or the anchor.
abbrev pub Starts : Server → EventCursor → ScanParams → ℕ → Type 0
Starts server c params start =
    (params.from_ledger ≡ some start)
    ⊎ ((params.from_ledger ≡ none) × (anchor_if_needed server c ≡ ok start))

-- A scan that ended with the scan state `t`, whatever was saved before.
started :
    (fuel : ℕ) (server : Server) (c : EventCursor) (params : ScanParams) (start limit : ℕ)
    → limit_of c params.limit ≡ ok limit
    → Starts server c params start
    → (saved : Option ℕ) × (scan fuel c server params
        ≡ finish c limit (
            pages server (filter_of params) limit params.to_ledger fuel 0 (first_page start saved)))
unfolding scan
started fuel server c params start limit checked (inl given) = (
  c.cursor,
  ap (scan_from fuel c server params) given
      ∙ ap (scan_with fuel c server params start c.cursor) checked,
)
started fuel server c params start limit checked (inr (absent, anchored)) = (
  some start,
  ap (scan_from fuel c server params) absent
      ∙ ap (scan_anchored fuel c server params) anchored
      ∙ ap (scan_with fuel c server params start (some start)) checked,
)

positive : (n : ℤ) → (ltb_ℤ n (pos 1) || ltb_ℤ (pos 10000) n) ≡ false → 0 < pos_part n
positive n h = ground arith

limit_positive :
    (c : EventCursor) (given : Option ℤ) {limit : ℕ} → limit_of c given ≡ ok limit → 0 < limit
unfolding limit_of
limit_positive c given e =
    let n = or_else given (pos c.default_limit) in
    let (in_range, same) = guard-passed (ltb_ℤ n (pos 1) || ltb_ℤ (pos 10000) n) validation _ e in
    subst (λ k. 0 < k) (ok-injective same) (positive n in_range)

-- Where the server pages through a log that does not change, with a cursor in every page, a scan with no end
-- ledger ends after at most one page for each event and one more, and returns every event of the log from
-- the start ledger on, once and in order, whatever the limit of a page.
pub scan-Completes :
    (server : Server) (c : EventCursor) (params : ScanParams) (start limit : ℕ) (log : List Event)
    (start_of : ℕ → ℕ)
    → params.to_ledger ≡ none
    → limit_of c params.limit ≡ ok limit
    → Starts server c params start
    → ((i ledger : ℕ)
        → Serves limit log
            (start_of ledger)
            (server.get_events i (by_ledger ledger (filter_of params) limit)))
    → ((i at : ℕ)
        → Serves limit log at (server.get_events i (by_cursor at (filter_of params) limit)))
    → (fuel : ℕ) → length log < fuel
    → (after : EventCursor) × (result : ScanResult) × (scan fuel c server params
        ≡ some (after, ok result))
      × (result.events ≡ drop (start_of start) log)
scan-Completes server c params start limit log start_of no_end checked starts first next fuel h =
    let (saved, from_start) = started fuel server c params start limit checked starts in
    let (t, done, events) =
      pages-Completes server (filter_of params) limit (limit_positive c params.limit checked) log
        start_of first next fuel 0 (first_page start saved) (start_of start) (inl (refl, refl)) refl
        (omega (arith, h, length-drop (start_of start) log)) in
    (
      record c { cursor = t.saved },
      result_of limit t,
      from_start
          ∙ ap
              (λ (k : Option ℕ).
                finish c limit
                  (pages server (filter_of params) limit k fuel 0 (first_page start saved)))
              no_end
          ∙ ap (finish c limit) done,
      events,
    )
