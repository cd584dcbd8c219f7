-- ===== src/Events/Tests.antt =====
-- A log of four events, read two at a time; and an adapter that gives out no cursors.
use coralswap_sdk.Common.{
  ℕ, ◌+◌, ◌≡◌, inl, refl, arith, true, Option, none, some, List, [], ◌∷◌, length, take, drop,
  Result, ok, if◌then◌else◌, leb, ◌==◌, pos, err, validation,
}
use coralswap_sdk.Events.Page.{
  Event, Request, by_ledger, by_cursor, Response, page, unseen, keys_at, event_key,
}
use coralswap_sdk.Events.Cursor.{
  Server, EventCursor, ScanParams, ScanResult, new, limit_of, pages, scan,
}
use coralswap_sdk.Events.Complete.{scan-Completes}

abbrev event : (id ledger : ℕ) → Event
event id ledger = record {
  id = some id;
  ledger = some ledger;
  index_within_ledger = none;
  paging_token = none;
}

abbrev log : List Event
log = event 1 5 ∷ event 2 5 ∷ event 3 6 ∷ event 4 6 ∷ []

abbrev start_of : ℕ → ℕ
start_of ledger = if leb ledger 5 then 0 else (if ledger == 6 then 2 else 4)

abbrev page_at : (position limit : ℕ) → Response
page_at position limit =
    let events = take limit (drop position log) in
    record { events = events; latest_ledger = some 7; cursor = some (position + length events) }

abbrev answer_to : Request → Result Response
answer_to (by_ledger ledger filter limit) = ok (page_at (start_of ledger) limit)
answer_to (by_cursor cursor filter limit) = ok (page_at cursor limit)

abbrev server : Server
server = record { get_latest_ledger = ok 7; get_events = λ served request. answer_to request }

abbrev fresh_cursor : EventCursor
fresh_cursor = record { cursor = none; default_window = 1000; default_limit = 2 }

abbrev everything : ScanParams
everything = record {
  contract_ids = none;
  topics = none;
  from_ledger = some 5;
  to_ledger = none;
  limit = none;
}

made : new (record { default_window = none; default_limit = some 2 }) ≡ fresh_cursor
unfolding new
made = refl

-- The limit divides the number of events: the scan has read them all, and `hasMore` is still set.
read_all :
    scan 5 fresh_cursor server everything
    ≡ some (
      record fresh_cursor { cursor = some 7 },
      ok (record {
        events = log;
        page_info = record {
          start_ledger = 5;
          end_ledger = 6;
          end_index_within_ledger = none;
          has_more = true;
          next_cursor = some 4;
        };
        truncated = true;
      }),
    )
unfolding scan limit_of pages page
read_all = refl

too_many :
    scan 5 fresh_cursor server (record everything { limit = some (pos 10001) })
    ≡ some (fresh_cursor, err validation)
unfolding scan limit_of
too_many = refl

-- With no cursors the ledger of the last event is read again, and what it gave before is skipped.
abbrev adapter : Request → Result Response
adapter (by_ledger ledger filter limit) = ok (record {
  events = take limit (drop (start_of ledger) log);
  latest_ledger = some 7;
  cursor = none;
})
adapter (by_cursor cursor filter limit) = ok (page_at cursor limit)

abbrev events_of : Option (EventCursor × Result ScanResult) → List Event
events_of (some (c, ok r)) = r.events
events_of _ = []

-- A ledger that fills a page hides what comes after it.
stuck :
    events_of (
      scan 5 fresh_cursor
        (record server { get_events = λ served request. adapter request })
        everything)
    ≡ event 1 5 ∷ event 2 5 ∷ []
unfolding scan limit_of pages page unseen keys_at event_key
stuck = refl

wider :
    events_of (
      scan 5 fresh_cursor
        (record server { get_events = λ served request. adapter request })
        (record everything { limit = some (pos 3) }))
    ≡ log
unfolding scan limit_of pages page unseen keys_at event_key
wider = refl

checked : limit_of fresh_cursor everything.limit ≡ ok 2
unfolding limit_of
checked = refl

scan-Completes_example :
    (after : EventCursor) × (result : ScanResult) × (scan 5 fresh_cursor server everything
      ≡ some (after, ok result))
    × (result.events ≡ drop (start_of 5) log)
scan-Completes_example =
    scan-Completes server fresh_cursor everything 5 2 log start_of refl checked (inl refl)
      (λ i ledger. (page_at (start_of ledger) 2, refl, refl, refl, (7, refl)))
      (λ i at. (page_at at 2, refl, refl, refl, (7, refl))) 5 (omega arith)
