-- ===== src/Dlq/File/View.antt =====
-- The file as a list of entries: what an operation reads back, and what its errors leave.
use tekton_events_relay.Prelude.{
  ℕ, zero, suc, ◌≤◌, ◌<◌, Bool, true, false, none, some, List, [], ◌∷◌, map, ◌≡◌, refl, arith, All,
  ap, ◌∙◌, is_some, drop, length, length-drop,
}
use tekton_events_relay.Domain.{Time, Envelope}
use tekton_events_relay.Errors.{Err, Result, ok, err}
use tekton_events_relay.Dlq.{DeadEvent}
use tekton_events_relay.Dlq.File.{
  Codec, no_faults, Disk, FileQueue, next_faults, later_faults, read_lines, read_file, read_all,
  bytes, encode, upsert, new_entry, max_line_bytes, change_disk, enqueue, list,
}
use tekton_events_relay.Dlq.File.Bounds.{encode_fits, encode_largest, encode_all}
use tekton_events_relay.Dlq.File.Entries.{bumped, entry_of}

abbrev is_err {ℓ} : {A : Type ℓ} → Result A → Bool
is_err (ok a) = false
is_err (err e) = true

module _ {Line : Type 0} where
  -- The lines of these entries and their newlines fit the scanner.
  abbrev pub AllShort : Codec Line → List DeadEvent → Type 0
  AllShort codec = All (λ e. codec.size (codec.marshal e) < max_line_bytes)

  -- The file holds these entries.
  abbrev pub Holds : FileQueue Line → Disk Line → List DeadEvent → Type 0
  Holds q d es = read_file q.codec d.lines ≡ ok es

  read_lines-marshal :
      (codec : Codec Line) (es : List DeadEvent)
      → AllShort codec es
      → read_lines codec (map codec.marshal es) ≡ ok es
  unfolding read_lines
  read_lines-marshal codec [] h = refl
  read_lines-marshal codec (e ∷ es) h =
      ground
        (arith, read_lines-marshal codec es, codec.unmarshal-marshal e, codec.marshal_not_empty e)

  drop-map :
      (codec : Codec Line) (n : ℕ) (es : List DeadEvent)
      → drop n (map codec.marshal es) ≡ map codec.marshal (drop n es)
  drop-map codec zero es = refl
  drop-map codec (suc n) [] = refl
  drop-map codec (suc n) (e ∷ es) = drop-map codec n es

  AllShort-drop :
      (codec : Codec Line) (n : ℕ) (es : List DeadEvent)
      → AllShort codec es
      → AllShort codec (drop n es)
  AllShort-drop codec zero es h = h
  AllShort-drop codec (suc n) [] h = h
  AllShort-drop codec (suc n) (e ∷ es) h = AllShort-drop codec n es h.1

  change_disk-lines :
      (q : FileQueue Line) (change : List DeadEvent → List DeadEvent) (d : Disk Line)
      (es : List DeadEvent)
      → Holds q d es
      → next_faults d.faults ≡ no_faults
      → change_disk q change d
        ≡ (none, record { lines = some (encode q (change es)); faults = later_faults d.faults })
  unfolding change_disk
  change_disk-lines q change d es h f = ground arith

  enqueue-lines :
      (q : FileQueue Line) (now : Time) (env : Envelope) (cause : Err) (d : Disk Line)
      (es : List DeadEvent)
      → Holds q d es
      → next_faults d.faults ≡ no_faults
      → enqueue q now env cause d ≡ (
        none,
        record {
          lines = some (encode q (upsert (new_entry now env cause) es));
          faults = later_faults d.faults;
        },
      )
  unfolding enqueue
  enqueue-lines q now env cause d es = change_disk-lines q (upsert (new_entry now env cause)) d es

  length-map :
      (codec : Codec Line) (es : List DeadEvent) → length (map codec.marshal es) ≡ length es
  length-map codec [] = refl
  length-map codec (e ∷ es) = ap suc (length-map codec es)

  encode_keeps :
      (q : FileQueue Line) (es : List DeadEvent) (n k : ℕ)
      → encode q es ≡ drop n (map q.codec.marshal es)
      → bytes q.codec (drop k (map q.codec.marshal es)) ≤ q.max_bytes
      → length (drop k es) ≤ length (drop n es)
  encode_keeps q es n k e fits = omega (
    arith,
    encode_largest q es k fits,
    ap length e,
    length-drop k (map q.codec.marshal es),
    length-drop n (map q.codec.marshal es),
    length-drop k es,
    length-drop n es,
    length-map q.codec es,
  )

  -- Enqueue on a file that can be read and written, where every line fits the scanner: it
  -- succeeds, and the file then holds the entries with the new one put in, but for the oldest ones
  -- of them; it keeps at least as many as any row of the newest ones that fits the bound.
  pub enqueue-Holds :
      (q : FileQueue Line) (now : Time) (env : Envelope) (cause : Err) (d : Disk Line)
      (es : List DeadEvent) (k : ℕ)
      → Holds q d es
      → next_faults d.faults ≡ no_faults
      → AllShort q.codec (upsert (new_entry now env cause) es)
      → bytes q.codec (drop k (map q.codec.marshal (upsert (new_entry now env cause) es)))
        ≤ q.max_bytes
      → (n : ℕ) × ((enqueue q now env cause d).0 ≡ none)
        × Holds q (enqueue q now env cause d).1 (drop n (upsert (new_entry now env cause) es))
        × (length (drop k (upsert (new_entry now env cause) es))
            ≤ length (drop n (upsert (new_entry now env cause) es)))
  enqueue-Holds q now env cause d es k h f short fits =
      let es' = upsert (new_entry now env cause) es in
      let (n, e, _) = encode_fits q es' in
      (
        n,
        rw (enqueue-lines q now env cause d es h f) refl,
        rw (enqueue-lines q now env cause d es h f) (
            ap (read_lines q.codec) (e ∙ drop-map q.codec n es')
            ∙ read_lines-marshal q.codec (drop n es') (AllShort-drop q.codec n es' short)),
        encode_keeps q es' n k e fits,
      )

  list-Holds :
      (q : FileQueue Line) (d : Disk Line) (es : List DeadEvent)
      → next_faults d.faults ≡ no_faults
      → Holds q d es
      → (list q 0 d).0 ≡ ok es
  unfolding list read_all
  list-Holds q d es g h = ground arith

  -- Where the file can be read and written, every line fits the scanner and all entries fit the
  -- bound, List after Enqueue returns them all, the new one put in.
  pub list-enqueue :
      (q : FileQueue Line) (now : Time) (env : Envelope) (cause : Err) (d : Disk Line)
      (es : List DeadEvent)
      → Holds q d es
      → next_faults d.faults ≡ no_faults
      → next_faults (later_faults d.faults) ≡ no_faults
      → AllShort q.codec (upsert (new_entry now env cause) es)
      → bytes q.codec (map q.codec.marshal (upsert (new_entry now env cause) es)) ≤ q.max_bytes
      → (list q 0 (enqueue q now env cause d).1).0 ≡ ok (upsert (new_entry now env cause) es)
  list-enqueue q now env cause d es h f g short fits =
      let es' = upsert (new_entry now env cause) es in
      rw (enqueue-lines q now env cause d es h f) (
        list-Holds q _ es' g
          (ap (read_lines q.codec) (encode_all q es' fits) ∙ read_lines-marshal q.codec es' short))

  -- An operation that fails, by a fault of the disk or an overlong line, leaves the file as it
  -- was.
  pub change_disk_atomic :
      (q : FileQueue Line) (change : List DeadEvent → List DeadEvent) (d : Disk Line)
      → is_some (change_disk q change d).0 ≡ true
      → (change_disk q change d).1.lines ≡ d.lines
  unfolding change_disk
  change_disk_atomic q change d h = ground arith

  read_lines_too_long :
      (codec : Codec Line) (es : List DeadEvent) (e : DeadEvent)
      → max_line_bytes ≤ codec.size (codec.marshal (bumped e (entry_of e.id es)))
      → is_err (read_lines codec (map codec.marshal (upsert e es))) ≡ true
  unfolding read_lines upsert
  read_lines_too_long codec [] e h = ground arith
  read_lines_too_long codec (x ∷ es) e h = ground (arith, read_lines_too_long codec es e)

  failed_read :
      (q : FileQueue Line) (now : Time) (env : Envelope) (cause : Err) (d : Disk Line)
      → is_err (read_file q.codec d.lines) ≡ true
      → (is_some (enqueue q now env cause d).0 ≡ true)
        × ((enqueue q now env cause d).1.lines ≡ d.lines)
  unfolding enqueue
  failed_read q now env cause d h = ground arith

  -- An entry whose line is at least as long as the scanner's buffer poisons the queue: its own
  -- Enqueue succeeds, where the file's bound allows it, and the next Enqueue fails and stores
  -- nothing.
  pub enqueue_poisons :
      (q : FileQueue Line) (now : Time) (env : Envelope) (cause : Err) (d : Disk Line)
      (es : List DeadEvent) (now' : Time) (env' : Envelope) (cause' : Err)
      → Holds q d es
      → next_faults d.faults ≡ no_faults
      → bytes q.codec (map q.codec.marshal (upsert (new_entry now env cause) es)) ≤ q.max_bytes
      → max_line_bytes
        ≤ q.codec.size
            (q.codec.marshal (bumped (new_entry now env cause) (entry_of env.cloud_event_id es)))
      → let (first, d') = enqueue q now env cause d in
        let (second, d'') = enqueue q now' env' cause' d' in
        (first ≡ none) × (is_some second ≡ true) × (d''.lines ≡ d'.lines)
  enqueue_poisons q now env cause d es now' env' cause' h f fits long =
      let (stuck, same) =
        failed_read q now' env' cause'
          (record {
            lines = some (encode q (upsert (new_entry now env cause) es));
            faults = later_faults d.faults;
          })
          (ap is_err (ap (read_lines q.codec) (encode_all q _ fits))
            ∙ read_lines_too_long q.codec es (new_entry now env cause) long) in
      rw (enqueue-lines q now env cause d es h f) (refl, stuck, same)
