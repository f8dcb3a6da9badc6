-- ===== src/Dlq/File.antt =====
-- internal/dlq/file.go: the queue in a file of JSON lines.
pub mod Bounds
pub mod Entries
pub mod View
use tekton_events_relay.Prelude.{
  ℕ, zero, suc, ◌+◌, ◌-◌, ◌*◌, ◌≤◌, ◌<◌, String, Bool, true, false, not, ◌&&◌, Option, none, some,
  List, [], ◌∷◌, map, ◌≡◌, ◌==◌, ltb, leb, nat_eq, length, take, filter, if◌then◌else◌,
}
use tekton_events_relay.Domain.{Time, Envelope}
use tekton_events_relay.Errors.{Err, plain, wrap, Result, ok, err, error_text}
use tekton_events_relay.Dlq.{DeadEvent, Queue}

-- encoding/json at DeadEvent: a line without its newline, and `none` for a corrupt one. That
-- Marshal fails, as it does on a year above 9999, is not modelled.
pub record Codec (Line : Type 0) : Type 0 where
  pub marshal : DeadEvent → Line
  pub unmarshal : Line → Option DeadEvent
  pub size : Line → ℕ
  pub unmarshal-marshal : (e : DeadEvent) → unmarshal (marshal e) ≡ some e
  pub marshal_not_empty : (e : DeadEvent) → 0 < size (marshal e)

-- The system calls of one operation: the error of opening the file to read, and of the calls that
-- write and rename the temporary file. The lines of the queue's file change by the rename alone.
pub record Faults : Type 0 where
  pub read : Option Err
  pub write : Option Err

abbrev pub no_faults : Faults
no_faults = record { read = none; write = none }

-- `lines` is none where the file does not exist; `faults` are those of the operations to come.
pub record Disk (Line : Type 0) : Type 0 where
  pub lines : Option (List Line)
  pub faults : List Faults

pub record FileQueue (Line : Type 0) : Type 0 where
  pub codec : Codec Line
  pub max_bytes : ℕ
  pub retention_days : ℕ

abbrev pub default_max_size_bytes : ℕ
default_max_size_bytes = 10 * 1024 * 1024

-- The longest token of the scanner: a line and its newline must fit in it.
abbrev pub max_line_bytes : ℕ
max_line_bytes = 4 * 1024 * 1024

abbrev pub next_faults : List Faults → Faults
next_faults [] = no_faults
next_faults (f ∷ fs) = f

abbrev pub later_faults : List Faults → List Faults
later_faults [] = []
later_faults (f ∷ fs) = fs

abbrev pub add_entry : Option DeadEvent → Result (List DeadEvent) → Result (List DeadEvent)
add_entry none r = r
add_entry (some e) (ok es) = ok (e ∷ es)
add_entry (some e) (err x) = err x

-- The loop of Enqueue and the append behind it: the entry of the same id is replaced where it
-- stands, and its retry count goes on.
unfoldable pub upsert : DeadEvent → List DeadEvent → List DeadEvent
upsert entry [] = entry ∷ []
upsert entry (e ∷ es) =
    if e.id == entry.id
    then record entry { retry_count = e.retry_count + 1 } ∷ es
    else e ∷ upsert entry es

abbrev pub remove_id : String → List DeadEvent → List DeadEvent
remove_id id = filter (λ e. not (e.id == id))

-- `entries[:limit]`; a limit of 0, or below, is none.
abbrev pub limited : ℕ → List DeadEvent → List DeadEvent
limited limit es = if not (nat_eq limit 0) && ltb limit (length es) then take limit es else es

abbrev pub new_entry : Time → Envelope → Err → DeadEvent
new_entry now env cause = record {
  id = env.cloud_event_id;
  failed_at = now;
  cause = error_text cause;
  retry_count = 0;
  envelope = some env;
}

-- `time.Now().UTC().AddDate(0, 0, -retentionDays)`
abbrev pub cutoff : Time → ℕ → Time
cutoff now days = now - days * (24 * 3600 * 1000000000)

abbrev pub map_ok {ℓ κ} : {A : Type ℓ} {B : Type κ} → (A → B) → Result A → Result B
map_ok f (ok a) = ok (f a)
map_ok f (err e) = err e

module _ {Line : Type 0} where
  -- The bound that NewFileQueue keeps.
  unfoldable pub new_file_queue : Codec Line → ℕ → ℕ → FileQueue Line
  new_file_queue codec max_bytes retention_days = record {
    codec = codec;
    max_bytes = if nat_eq max_bytes 0 then default_max_size_bytes else max_bytes;
    retention_days = retention_days;
  }

  -- An empty line and a corrupt one are skipped.
  abbrev pub decode : Codec Line → Line → Option DeadEvent
  decode codec l = if nat_eq (codec.size l) 0 then none else codec.unmarshal l

  -- The loop over the scanner.
  unfoldable pub read_lines : Codec Line → List Line → Result (List DeadEvent)
  read_lines codec [] = ok []
  read_lines codec (l ∷ ls) =
      let rest = read_lines codec ls in
      if leb max_line_bytes (codec.size l)
      then err (wrap "dlq: read: " (plain "bufio.Scanner: token too long"))
      else add_entry (decode codec l) rest

  abbrev pub read_file : Codec Line → Option (List Line) → Result (List DeadEvent)
  read_file codec none = ok []
  read_file codec (some ls) = read_lines codec ls

  -- readAll
  unfoldable pub read_all : FileQueue Line → Faults → Option (List Line) → Result (List DeadEvent)
  read_all q f lines = elim f.read [
    | none ↦ read_file q.codec lines
    | some e ↦ err (wrap "dlq: open: " e)
  ]

  -- The encoded size: each line and its newline.
  abbrev pub bytes : Codec Line → List Line → ℕ
  bytes codec [] = 0
  bytes codec (l ∷ ls) = codec.size l + 1 + bytes codec ls

  -- The loop that drops the oldest lines.
  unfoldable pub drop_oldest : Codec Line → ℕ → ℕ → List Line → List Line
  drop_oldest codec max_bytes total [] = []
  drop_oldest codec max_bytes total (l ∷ ls) =
      let rest = drop_oldest codec max_bytes (total - (codec.size l + 1)) ls in
      if ltb max_bytes total then rest else l ∷ ls

  unfoldable pub encode : FileQueue Line → List DeadEvent → List Line
  unfolding drop_oldest
  encode q entries =
      let encoded = map q.codec.marshal entries in
      drop_oldest q.codec q.max_bytes (bytes q.codec encoded) encoded

  -- writeAll: the lines afterwards.
  unfoldable pub write_all :
      FileQueue Line
      → Faults
      → List DeadEvent
      → Option (List Line)
      → Option Err × Option (List Line)
  unfolding encode
  write_all q f entries lines = elim f.write [
    | none ↦ (none, some (encode q entries))
    | some e ↦ (some e, lines)
  ]

  -- Read, change, write: the error of reading leaves the file alone.
  abbrev pub rewrite :
      FileQueue Line
      → Faults
      → Option (List Line)
      → (List DeadEvent → List DeadEvent)
      → Result (List DeadEvent)
      → Option Err × Option (List Line)
  rewrite q f lines change (err e) = (some e, lines)
  rewrite q f lines change (ok entries) = write_all q f (change entries) lines

  abbrev pub on_disk : Option Err × Option (List Line) → List Faults → Option Err × Disk Line
  on_disk (e, lines) faults = (e, record { lines = lines; faults = faults })

  abbrev pub read_disk : FileQueue Line → Disk Line → Result (List DeadEvent)
  read_disk q d = read_all q (next_faults d.faults) d.lines

  unfoldable pub change_disk :
      FileQueue Line → (List DeadEvent → List DeadEvent) → Disk Line → Option Err × Disk Line
  unfolding read_all write_all
  change_disk q change d =
      on_disk (rewrite q (next_faults d.faults) d.lines change (read_disk q d))
        (later_faults d.faults)

  -- Enqueue
  unfoldable pub enqueue :
      FileQueue Line → Time → Envelope → Err → Disk Line → Option Err × Disk Line
  unfolding upsert change_disk
  enqueue q now env cause d = change_disk q (upsert (new_entry now env cause)) d

  -- List
  unfoldable pub list : FileQueue Line → ℕ → Disk Line → Result (List DeadEvent) × Disk Line
  unfolding read_all
  list q limit d =
      (map_ok (limited limit) (read_disk q d), record d { faults = later_faults d.faults })

  -- Remove
  unfoldable pub remove : FileQueue Line → String → Disk Line → Option Err × Disk Line
  unfolding change_disk
  remove q id d = change_disk q (remove_id id) d

  -- Size
  unfoldable pub size : FileQueue Line → Disk Line → Result ℕ × Disk Line
  unfolding read_all
  size q d = (map_ok length (read_disk q d), record d { faults = later_faults d.faults })

  -- The loop of Scan, with a callback that never stops it, and `scanner.Err()` as it is: what the
  -- callback is given. Where a line is too long, the callback is still given the entries before it;
  -- both callers discard them.
  unfoldable pub scan_lines : Codec Line → List Line → Result (List DeadEvent)
  scan_lines codec [] = ok []
  scan_lines codec (l ∷ ls) =
      let rest = scan_lines codec ls in
      if leb max_line_bytes (codec.size l)
      then err (plain "bufio.Scanner: token too long")
      else add_entry (decode codec l) rest

  abbrev pub scan_file : Codec Line → Option (List Line) → Result (List DeadEvent)
  scan_file codec none = ok []
  scan_file codec (some ls) = scan_lines codec ls

  -- Scan
  unfoldable pub scan : FileQueue Line → Disk Line → Result (List DeadEvent) × Disk Line
  unfolding scan_lines
  scan q d = (
    elim (next_faults d.faults).read [
      | none ↦ scan_file q.codec d.lines
      | some e ↦ err (wrap "dlq: open: " e)
    ],
    record d { faults = later_faults d.faults },
  )

  -- The body of purgeExpired behind its read: nothing is written where nothing has expired.
  abbrev pub purge_entries :
      FileQueue Line
      → Time
      → Faults
      → Option (List Line)
      → Result (List DeadEvent)
      → Option (List Line)
  purge_entries q now f lines (err e) = lines
  purge_entries q now f lines (ok entries) =
      let kept = filter (λ e. not (ltb e.failed_at (cutoff now q.retention_days))) entries in
      if nat_eq (length entries - length kept) 0 then lines else (write_all q f kept lines).1

  -- purgeExpired
  unfoldable pub purge_expired : FileQueue Line → Time → Disk Line → Disk Line
  unfolding read_all write_all
  purge_expired q now d = record {
    lines = purge_entries q now (next_faults d.faults) d.lines (read_disk q d);
    faults = later_faults d.faults;
  }

  -- The file as a Queue.
  unfoldable pub file_queue : FileQueue Line → Queue (Disk Line)
  unfolding enqueue list remove size scan
  file_queue q = record {
    enqueue = enqueue q;
    list = list q;
    remove = remove q;
    size = size q;
    scan = scan q;
  }
