-- ===== src/Receiver/Listing.antt =====
-- dlqListHandler of internal/http/dlq.go: the pages of the dead letter queue.
use tekton_events_relay.Prelude.{
  ℕ, ◌+◌, ◌-◌, ◌^◌, ◌≤◌, ◌<◌, String, Option, none, some, List, ◌≡◌, arith, ℤ, pos, negsuc, atoi,
  ltb, leb, nat_eq, min, length, take, drop, take_all, drop_all, length-take, length-drop,
  take-drop-take, Option-cases, if◌then◌else◌,
}
use native.Mathlib.Decide.{dec_lt}
use tekton_events_relay.Errors.{Result, ok, err}
use tekton_events_relay.Dlq.{DeadEvent, Queue}
use tekton_events_relay.Dlq.File.{limited}

abbrev dlq_max_list_limit : ℕ
dlq_max_list_limit = 100

-- The query values `limit` and `offset`: what is no number, or out of range, reads as the default.
abbrev limit_of : Option ℤ → ℕ
limit_of (some (pos v)) =
    if nat_eq v 0 then 100 else if ltb dlq_max_list_limit v then dlq_max_list_limit else v
limit_of (some (negsuc v)) = 100
limit_of none = 100

abbrev offset_of : Option ℤ → ℕ
offset_of (some (pos v)) = v
offset_of (some (negsuc v)) = 0
offset_of none = 0

unfoldable pub list_limit : String → ℕ
list_limit raw = limit_of (atoi raw)

unfoldable pub list_offset : String → ℕ
list_offset raw = offset_of (atoi raw)

-- `limit + offset` on int64, and at least 1: a sum that wraps is negative.
unfoldable pub fetch_count : ℕ → ℕ → ℕ
fetch_count limit offset =
    if ltb (limit + offset) (2 ^ 63)
    then (if ltb (limit + offset) 1 then 1 else limit + offset)
    else 1

-- `entries[offset:end]`; none where it passes the entries that List returned. Go would reslice up to
-- the capacity, which matters only where the sum of offset and limit wraps.
abbrev pub slice : List DeadEvent → ℕ → ℕ → Option (List DeadEvent)
slice es offset end =
    if leb end (length es) then some (take (end - offset) (drop offset es)) else none

pub record Page : Type 0 where
  pub events : Option (List DeadEvent)
  pub total : ℕ
  pub offset : ℕ
  pub limit : ℕ

abbrev total_of : List DeadEvent → Result ℕ → ℕ
total_of es (ok n) = n
total_of es (err e) = length es

unfoldable pub page_of : ℕ → ℕ → List DeadEvent → ℕ → Page
page_of limit offset es total =
    let start = if ltb total offset then total else offset in
    let end = if ltb total (start + limit) then total else start + limit in
    record { events = slice es start end; total = total; offset = start; limit = limit }

module _ {Q : Type 0} where
  abbrev page_from : Queue Q → ℕ → ℕ → Result (List DeadEvent) → Q → Option Page × Q
  page_from queue limit offset (err e) q = (none, q)
  page_from queue limit offset (ok es) q =
      let (total, q') = queue.size q in (some (page_of limit offset es (total_of es total)), q')

  -- The answer to a GET; none is the status 500 of a queue that cannot be listed.
  unfoldable pub list_page : Queue Q → String → String → Q → Option Page × Q
  list_page queue raw_limit raw_offset q =
      let limit = list_limit raw_limit in
      let offset = list_offset raw_offset in
      let (es, q') = queue.list (fetch_count limit offset) q in page_from queue limit offset es q'

-- The page of the whole queue, as a reader of the interface expects it.
abbrev pub whole_page : ℕ → ℕ → List DeadEvent → Page
whole_page limit offset es = record {
  events = some (take limit (drop offset es));
  total = length es;
  offset = min offset (length es);
  limit = limit;
}

module _ (limit offset : ℕ) (es : List DeadEvent) (some_limit : 0 < limit) where
  page_inside :
      limit + offset < length es
      → page_of limit offset (take (limit + offset) es) (length es) ≡ whole_page limit offset es
  unfolding page_of
  page_inside h = ground (
    arith,
    length-take (limit + offset) es,
    take-drop-take (limit + offset) limit offset es (omega arith),
  )

  page_last :
      length es ≤ limit + offset
      → offset ≤ length es
      → page_of limit offset es (length es) ≡ whole_page limit offset es
  unfolding page_of
  page_last h k = ground (
    arith,
    take_all limit (drop offset es) (omega (arith, length-drop offset es)),
    take_all (length es - offset) (drop offset es) (omega (arith, length-drop offset es)),
  )

  page_beyond :
      length es < offset → page_of limit offset es (length es) ≡ whole_page limit offset es
  unfolding page_of
  page_beyond h = ground (
    arith,
    drop_all offset es (omega arith),
    drop_all (length es) es (omega arith),
    take_all limit (drop offset es) (omega (arith, length-drop offset es)),
  )

  -- For sums that do not wrap, the page made of the entries that List returns for the fetch count is
  -- the page of the whole queue: no bound of a slice is passed, whatever the offset.
  pub page_of-limited :
      limit + offset < 2 ^ 63
      → page_of limit offset (limited (fetch_count limit offset) es) (length es)
        ≡ whole_page limit offset es
  unfolding fetch_count
  page_of-limited small = elim (dec_lt (limit + offset) (length es)) [
    | yes h ↦ ground (arith, page_inside h)
    | no h ↦ elim (dec_lt (length es) offset) [
      | yes k ↦ ground (arith, page_beyond k)
      | no k ↦ ground (arith, page_last (omega arith) (omega arith))
    ]
  ]

list_limit_bounds : (raw : String) → (0 < list_limit raw) × (list_limit raw ≤ 100)
unfolding list_limit
list_limit_bounds raw = ground (arith, Option-cases (atoi raw))

-- The answer to a GET over a queue that lists and counts the same entries, at an offset whose sum
-- with the limit does not wrap, is the page of the whole queue at the limit and offset read from
-- the query.
pub list_page-whole :
    {Q : Type 0} (queue : Queue Q) (raw_limit raw_offset : String) (q q' : Q) (es : List DeadEvent)
    → queue.list (fetch_count (list_limit raw_limit) (list_offset raw_offset)) q
      ≡ (ok (limited (fetch_count (list_limit raw_limit) (list_offset raw_offset)) es), q')
    → (queue.size q').0 ≡ ok (length es)
    → list_limit raw_limit + list_offset raw_offset < 2 ^ 63
    → (list_page queue raw_limit raw_offset q).0
      ≡ some (whole_page (list_limit raw_limit) (list_offset raw_offset) es)
unfolding list_page
list_page-whole queue raw_limit raw_offset q q' es listed sized small = ground (
  arith,
  listed,
  sized,
  page_of-limited (list_limit raw_limit) (list_offset raw_offset) es (list_limit_bounds raw_limit).0
      small,
)
