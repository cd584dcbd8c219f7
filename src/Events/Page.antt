-- ===== src/Events/Page.antt =====
-- One page of `EventCursor.scan` in src/utils/event-cursor.ts: what is asked of the server, and what is made of
-- the answer.
use coralswap_sdk.Common.{
  ℕ, suc, Bool, true, false, not, ◌&&◌, ◌||◌, Option, none, some, List, [], ◌∷◌, ◌++◌, length,
  last_of, ltb, leb, ◌==◌, if◌then◌else◌,
}
use coralswap_sdk.Market.{Address}

-- An event as the server sends it; an adapter may leave fields out.
pub record Event : Type 0 where
  pub id : Option ℕ
  pub ledger : Option ℕ
  pub index_within_ledger : Option ℕ
  pub paging_token : Option ℕ

pub record Filter : Type 0 where
  pub contract_ids : List Address
  pub topics : List (List ℕ)

-- A request has a start ledger or a cursor, never both.
pub data Request : Type 0 where
  by_ledger : (start_ledger : ℕ) → Filter → (limit : ℕ) → Request
  by_cursor : (cursor : ℕ) → Filter → (limit : ℕ) → Request

pub record Response : Type 0 where
  pub events : List Event
  pub latest_ledger : Option ℕ
  pub cursor : Option ℕ

-- `id:…`, `pos:…` and `page:…`
pub data Key : Type 0 where
  by_id : ℕ → Key
  by_position by_page : (ledger : Option ℕ) (index : ℕ) → Key

abbrev pub same_option : Option ℕ → Option ℕ → Bool
same_option none none = true
same_option (some a) (some b) = a == b
same_option _ _ = false

abbrev pub same_key : Key → Key → Bool
same_key (by_id a) (by_id b) = a == b
same_key (by_position l a) (by_position k b) = same_option l k && a == b
same_key (by_page l a) (by_page k b) = same_option l k && a == b
same_key _ _ = false

abbrev pub has_key : List Key → Key → Bool
has_key [] key = false
has_key (k ∷ keys) key = same_key k key || has_key keys key

abbrev pub key_by_position : Event → (page_index : ℕ) → Option ℕ → Key
key_by_position event page_index none = by_page event.ledger page_index
key_by_position event page_index (some index) = by_position event.ledger index

unfoldable pub event_key : Event → (page_index : ℕ) → Key
event_key event page_index = elim event.id [
  | some id ↦ by_id id
  | none ↦ key_by_position event page_index event.index_within_ledger
]

abbrev pub before : Option ℕ → ℕ → Bool
before none start_ledger = false
before (some ledger) start_ledger = ltb ledger start_ledger

-- The events that the page before did not have.
unfoldable pub unseen : List Key → (start_ledger page_index : ℕ) → List Event → List Event
unfolding event_key
unseen carried start_ledger page_index [] = []
unseen carried start_ledger page_index (event ∷ rest) =
    let others = unseen carried start_ledger (suc page_index) rest in
    if not (before event.ledger start_ledger) && not (has_key carried (event_key event page_index))
    then event ∷ others
    else others

-- The keys of the events in the ledger given.
unfoldable pub keys_at : (ledger page_index : ℕ) → List Event → List Key
unfolding event_key
keys_at ledger page_index [] = []
keys_at ledger page_index (event ∷ rest) =
    let others = keys_at ledger (suc page_index) rest in
    if same_option event.ledger (some ledger) then event_key event page_index ∷ others else others

pub record PageInfo : Type 0 where
  pub start_ledger : ℕ
  pub end_ledger : ℕ
  pub end_index_within_ledger : Option ℕ
  pub has_more : Bool
  pub next_cursor : Option ℕ

-- The variables of the loop, with `this.cursor`.
pub record Scan : Type 0 where
  pub start_ledger : ℕ
  pub current_cursor : Option ℕ
  pub carried_keys : Option (List Key)
  pub all_events : List Event
  pub page_info : PageInfo
  pub saved : Option ℕ

abbrev pub or_option : Option ℕ → Option ℕ → Option ℕ
or_option none other = other
or_option (some a) other = some a

abbrev pub past : Option ℕ → ℕ → Bool
past none last_ledger = false
past (some to_ledger) last_ledger = ltb to_ledger last_ledger

abbrev pub new_events : Option (List Key) → (start_ledger : ℕ) → List Event → List Event
new_events none start_ledger events = events
new_events (some carried) start_ledger events = unseen carried start_ledger 0 events

module _ (filter : Filter) (limit : ℕ) (to_ledger : Option ℕ) where
  abbrev pub request_at : Option ℕ → (start_ledger : ℕ) → Request
  request_at none start_ledger = by_ledger start_ledger filter limit
  request_at (some cursor) start_ledger = by_cursor cursor filter limit

  -- Whether the loop goes on.
  abbrev pub goes_on : (last_ledger : ℕ) → (events fresh : List Event) → Bool
  goes_on last_ledger events fresh =
      not (past to_ledger last_ledger) && not (ltb (length events) limit || length fresh == 0)

  abbrev pub with_cursor :
      (cursor last_ledger : ℕ) → (events fresh : List Event) → Scan → Scan × Bool
  with_cursor cursor last_ledger events fresh s =
      if same_option (some cursor) s.current_cursor then (s, false) else (
        record s { current_cursor = some cursor; saved = some last_ledger; carried_keys = none },
        goes_on last_ledger events fresh,
      )

  abbrev pub without_cursor : (last_ledger : ℕ) → (events fresh : List Event) → Scan → Scan × Bool
  without_cursor last_ledger events fresh s = (
    record s {
      start_ledger = last_ledger;
      saved = some last_ledger;
      carried_keys = some (keys_at last_ledger 0 events);
    },
    goes_on last_ledger events fresh,
  )

  abbrev pub advance :
      (res_cursor : Option ℕ) (last_ledger : ℕ) → (events fresh : List Event) → Scan → Scan × Bool
  advance none last_ledger events fresh s = without_cursor last_ledger events fresh s
  advance (some cursor) last_ledger events fresh s = with_cursor cursor last_ledger events fresh s

  abbrev pub info_of : ℕ → Event → ℕ → List Event → Option ℕ → PageInfo
  info_of start_ledger last_event last_ledger events res_cursor = record {
    start_ledger = start_ledger;
    end_ledger = last_ledger;
    end_index_within_ledger = last_event.index_within_ledger;
    has_more = leb limit (length events);
    next_cursor = res_cursor;
  }

  -- A page that has events, the last of which is `last_event`.
  abbrev pub take_page : Response → (last_event : Event) → Option ℕ → Scan → Scan × Bool
  take_page r last_event none s = (
    record s { all_events = s.all_events ++ new_events s.carried_keys s.start_ledger r.events },
    false,
  )
  take_page r last_event (some last_ledger) s =
      let res_cursor = or_option r.cursor last_event.paging_token in
      let fresh = new_events s.carried_keys s.start_ledger r.events in
      advance res_cursor last_ledger r.events fresh (record s {
        all_events = s.all_events ++ fresh;
        page_info = info_of s.start_ledger last_event last_ledger r.events res_cursor;
      })

  abbrev pub page_of : List Event → Response → Scan → Scan × Bool
  page_of [] r s = (record s { saved = or_option r.latest_ledger s.saved }, false)
  page_of (event ∷ rest) r s =
      let last_event = last_of event rest in
      take_page r last_event (or_option last_event.ledger r.latest_ledger) s

  -- The body of the loop, after the request: the next state, and whether the loop goes on.
  unfoldable pub page : Response → Scan → Scan × Bool
  page r s = page_of r.events r s
