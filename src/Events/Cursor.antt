-- ===== src/Events/Cursor.antt =====
-- `EventCursor` of src/utils/event-cursor.ts: where a scan starts, and the loop over the pages. What the server
-- answers to a request may depend on how many it has answered.
use coralswap_sdk.Common.{
  ℕ, zero, suc, ◌-◌, Bool, true, false, ◌||◌, Option, none, some, or_else, List, [], ◌∷◌, length,
  Result, ok, err, validation, throw_if, ◌>>=◌, ◌>>◌, ltb, leb, if◌then◌else◌, ℤ, pos, pos_part,
  ltb_ℤ,
}
use coralswap_sdk.Market.{Address}
use coralswap_sdk.Events.Page.{Event, Filter, Request, Response, PageInfo, Scan, request_at, page}

pub record Server : Type 0 where
  pub get_latest_ledger : Result ℕ
  pub get_events : (served : ℕ) → Request → Result Response

pub record EventCursor : Type 0 where
  pub cursor : Option ℕ
  pub default_window : ℕ
  pub default_limit : ℕ

pub record EventCursorOptions : Type 0 where
  pub default_window : Option ℕ
  pub default_limit : Option ℕ

unfoldable pub new : EventCursorOptions → EventCursor
new opts = record {
  cursor = none;
  default_window = or_else opts.default_window 1000;
  default_limit = or_else opts.default_limit 200;
}

unfoldable pub reset : EventCursor → EventCursor
reset c = record c { cursor = none }

abbrev pub min_start_ledger : ℕ
min_start_ledger = 1

abbrev pub max_event_limit : ℕ
max_event_limit = 10000

-- `Math.max(MIN_START_LEDGER, seq - this.defaultWindow)`
abbrev pub anchor : (seq window : ℕ) → ℕ
anchor seq window = if ltb (seq - window) min_start_ledger then min_start_ledger else seq - window

-- The cursor where there is one, and the anchor where there is none.
unfoldable pub anchor_if_needed : Server → EventCursor → Result ℕ
anchor_if_needed server c = elim c.cursor [
  | some ledger ↦ ok ledger
  | none ↦ server.get_latest_ledger >>= λ seq. ok (anchor seq c.default_window)
]

-- The topics, as symbols, all in the first position.
abbrev pub encode_topics : Option (List ℕ) → List (List ℕ)
encode_topics none = []
encode_topics (some []) = []
encode_topics (some (topic ∷ rest)) = (topic ∷ rest) ∷ []

pub record ScanParams : Type 0 where
  pub contract_ids : Option (List Address)
  pub topics : Option (List ℕ)
  pub from_ledger : Option ℕ
  pub to_ledger : Option ℕ
  pub limit : Option ℤ

abbrev pub filter_of : ScanParams → Filter
filter_of params = record {
  contract_ids = elim params.contract_ids [ none ↦ [] | some ids ↦ ids ];
  topics = encode_topics params.topics;
}

-- `params.limit ?? this.defaultLimit`, checked.
unfoldable pub limit_of : EventCursor → Option ℤ → Result ℕ
limit_of c given =
    let limit = or_else given (pos c.default_limit) in
    throw_if (ltb_ℤ limit (pos 1) || ltb_ℤ (pos max_event_limit) limit) validation
    >> ok (pos_part limit)

abbrev pub first_page : (start_ledger : ℕ) (saved : Option ℕ) → Scan
first_page start_ledger saved = record {
  start_ledger = start_ledger;
  current_cursor = none;
  carried_keys = none;
  all_events = [];
  page_info = record {
    start_ledger = start_ledger;
    end_ledger = start_ledger;
    end_index_within_ledger = none;
    has_more = false;
    next_cursor = none;
  };
  saved = saved;
}

-- How the loop ended: after its last page, or by what a request threw.
abbrev pub Ended : Type 0
Ended = Scan × Result (Unit {0})

module _ (server : Server) (filter : Filter) (limit : ℕ) (to_ledger : Option ℕ) where
  abbrev pub after_page : (Scan → Option Ended) → Scan × Bool → Option Ended
  after_page rest (next, true) = rest next
  after_page rest (next, false) = some (next, ok tt)

  abbrev pub after_request : Scan → (Scan → Option Ended) → Result Response → Option Ended
  after_request s rest (err thrown) = some (s, err thrown)
  after_request s rest (ok r) = after_page rest (page filter limit to_ledger r s)

  -- `while (true)`, for at most `fuel` pages.
  unfoldable pub pages : (fuel served : ℕ) → Scan → Option Ended
  pages zero served s = none
  pages (suc fuel) served s =
      after_request s (pages fuel (suc served)) (
        server.get_events served
          (request_at filter limit to_ledger s.current_cursor s.start_ledger))

pub record ScanResult : Type 0 where
  pub events : List Event
  pub page_info : PageInfo
  pub truncated : Bool

abbrev pub result_of : ℕ → Scan → ScanResult
result_of limit s = record {
  events = s.all_events;
  page_info = s.page_info;
  truncated = s.page_info.has_more || leb limit (length s.all_events);
}

abbrev pub finish : EventCursor → ℕ → Option Ended → Option (EventCursor × Result ScanResult)
finish c limit none = none
finish c limit (some (s, ended)) =
    some (record c { cursor = s.saved }, ended >>= λ done. ok (result_of limit s))

abbrev pub scan_with :
    ℕ
    → EventCursor
    → Server
    → ScanParams
    → (start : ℕ) (saved : Option ℕ) → Result ℕ
    → Option (EventCursor × Result ScanResult)
scan_with fuel c server params start saved (err thrown) =
    some (record c { cursor = saved }, err thrown)
scan_with fuel c server params start saved (ok limit) =
    finish c limit
      (pages server (filter_of params) limit params.to_ledger fuel 0 (first_page start saved))

abbrev pub scan_anchored :
    ℕ → EventCursor → Server → ScanParams → Result ℕ → Option (EventCursor × Result ScanResult)
scan_anchored fuel c server params (err thrown) = some (c, err thrown)
scan_anchored fuel c server params (ok ledger) =
    scan_with fuel c server params ledger (some ledger) (limit_of c params.limit)

-- The anchor is only looked up where no ledger is given.
abbrev pub scan_from :
    ℕ → EventCursor → Server → ScanParams → Option ℕ → Option (EventCursor × Result ScanResult)
scan_from fuel c server params none = scan_anchored fuel c server params (anchor_if_needed server c)
scan_from fuel c server params (some ledger) =
    scan_with fuel c server params ledger c.cursor (limit_of c params.limit)

unfoldable pub scan :
    (fuel : ℕ) → EventCursor → Server → ScanParams → Option (EventCursor × Result ScanResult)
scan fuel c server params = scan_from fuel c server params params.from_ledger

-- `TypedEventCursor`: one contract and one set of topics, and what the parser makes of an event.
pub record TypedEventCursor {ℓ} (A : Type ℓ) : Type ℓ where
  pub inner : EventCursor
  pub contract_id : Option Address
  pub topic_filters : Option (List ℕ)
  pub from_event_response : Event → Option A

pub record TypedEventScanParams : Type 0 where
  pub from_ledger : Option ℕ
  pub to_ledger : Option ℕ
  pub limit : Option ℤ

pub record TypedScanResult {ℓ} (A : Type ℓ) : Type ℓ where
  pub events : List A
  pub page_info : PageInfo
  pub has_next_page : Bool

module _ {ℓ} {A : Type ℓ} where
  abbrev pub decode : (Event → Option A) → List Event → List A
  decode parse [] = []
  decode parse (event ∷ raw) =
      let decoded = decode parse raw in
      elim (parse event) [ none ↦ decoded | some typed ↦ typed ∷ decoded ]

  abbrev pub typed_params : TypedEventCursor A → TypedEventScanParams → ScanParams
  typed_params c params = record {
    contract_ids = some (elim c.contract_id [ none ↦ [] | some id ↦ id ∷ [] ]);
    topics = c.topic_filters;
    from_ledger = params.from_ledger;
    to_ledger = params.to_ledger;
    limit = params.limit;
  }

  abbrev pub typed_result : TypedEventCursor A → ScanResult → TypedScanResult A
  typed_result c raw = record {
    events = decode c.from_event_response raw.events;
    page_info = raw.page_info;
    has_next_page = raw.page_info.has_more;
  }

  abbrev pub typed_finish :
      TypedEventCursor A
      → Option (EventCursor × Result ScanResult)
      → Option (TypedEventCursor A × Result (TypedScanResult A))
  typed_finish c none = none
  typed_finish c (some (inner, scanned)) =
      some (record c { inner = inner }, scanned >>= λ raw. ok (typed_result c raw))

  unfoldable pub typed_scan :
      (fuel : ℕ)
      → TypedEventCursor A
      → Server
      → TypedEventScanParams
      → Option (TypedEventCursor A × Result (TypedScanResult A))
  typed_scan fuel c server params =
      typed_finish c (scan fuel c.inner server (typed_params c params))
