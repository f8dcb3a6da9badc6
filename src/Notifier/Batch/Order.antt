-- ===== src/Notifier/Batch/Order.antt =====
-- internal/notifier/batch/batch.go: no event that a caller was told is accepted is lost, doubled
-- or moved before it is handed to the provider, and the world outside sees the batches one after
-- another, whatever the order of the steps.
use tekton_events_relay.Prelude.{
  List, [], ◌∷◌, ◌++◌, ◌≡◌, refl, ap, sym, ◌∙◌, arith, append_assoc, append-nil, leb, length,
  Bool-cases, inl, inr,
}
use tekton_events_relay.Notifier.Batch.{
  BufferedEvent, Batcher, size_of, deliver, deliver_last, handle_enter, close_enter,
}
use tekton_events_relay.Notifier.Batch.Steps.{
  Origin, by_loop, by_close, World, start, set_handler, flush_buffer, append_received, flush_full,
  receive, send, send_closed, close_finish, Step, enters, sends, panics, receives, ticks, exits,
  closes, finishes, Reach, here, next,
}

-- The events of the batches, in order.
unfoldable pub flat : List (Origin × List BufferedEvent) → List BufferedEvent
flat [] = []
flat ((o, batch) ∷ rest) = batch ++ flat rest

pub flat-append :
    (xs : List (Origin × List BufferedEvent)) (o : Origin) (batch : List BufferedEvent)
    → flat (xs ++ (o, batch) ∷ []) ≡ flat xs ++ batch
unfolding flat
flat-append [] o batch = append-nil batch
flat-append ((p, first) ∷ xs) o batch =
    ap (λ l. first ++ l) (flat-append xs o batch) ∙ sym (append_assoc first (flat xs) batch)

-- Everything accepted is in the provider's hands, in the buffer or in the channel, in this order.
abbrev pub IsConserved : {S : Type 0} → World S → Type 0
IsConserved w = w.accepted ≡ flat w.handed ++ (w.handler.buffer ++ w.handler.ch)

module _ {S : Type 0} (b : Batcher S) where
  flush_buffer-IsConserved : (w : World S) → IsConserved w → IsConserved (flush_buffer b w)
  unfolding flush_buffer
  flush_buffer-IsConserved w h = ground (
    arith,
    flat-append w.handed by_loop w.handler.buffer,
    append_assoc (flat w.handed) w.handler.buffer w.handler.ch,
  )

  flush_full-IsConserved : (w : World S) → IsConserved w → IsConserved (flush_full b w)
  unfolding flush_full
  flush_full-IsConserved w h = elim (Bool-cases (leb (size_of b) (length w.handler.buffer))) [
    | inl e ↦ rw e (flush_buffer-IsConserved w h)
    | inr e ↦ rw e h
  ]

  append_received-IsConserved :
      (w : World S) (be : BufferedEvent) (rest : List BufferedEvent)
      → w.handler.ch ≡ be ∷ rest
      → IsConserved w
      → IsConserved (append_received be rest w)
  unfolding append_received
  append_received-IsConserved w be rest e h =
      rw (append_assoc w.handler.buffer (be ∷ []) rest) (rw (sym e) h)

  close_finish-IsConserved : (w : World S) → IsConserved w → IsConserved (close_finish b w)
  unfolding close_finish
  close_finish-IsConserved w h = ground (
    arith,
    flat-append w.handed by_close w.handler.buffer,
    append_assoc (flat w.handed) w.handler.buffer w.handler.ch,
  )

  send-IsConserved :
      (w : World S) (be : BufferedEvent) (left : List BufferedEvent)
      → IsConserved w
      → IsConserved (send be left w)
  unfolding send
  send-IsConserved w be left h = rw h (
      append_assoc (flat w.handed) (w.handler.buffer ++ w.handler.ch) (be ∷ [])
      ∙ ap (λ l. flat w.handed ++ l) (append_assoc w.handler.buffer w.handler.ch (be ∷ [])))

  Step-IsConserved : {w v : World S} → Step b w v → IsConserved w → IsConserved v
  unfolding set_handler handle_enter close_enter receive send_closed
  Step-IsConserved (enters be) h = ground arith
  Step-IsConserved (sends xs ys be e open_ room) h = send-IsConserved _ be (xs ++ ys) h
  Step-IsConserved (panics xs ys be e shut) h = h
  Step-IsConserved {w} (receives be rest running e) h =
      flush_full-IsConserved (append_received be rest w) (append_received-IsConserved w be rest e h)
  Step-IsConserved (ticks running) h = flush_buffer-IsConserved _ h
  Step-IsConserved (exits running shut e) h = h
  Step-IsConserved closes h = ground arith
  Step-IsConserved (finishes c d) h = close_finish-IsConserved _ h

  pub Reach-IsConserved : {w v : World S} → Reach b w v → IsConserved w → IsConserved v
  Reach-IsConserved here h = h
  Reach-IsConserved (next r st) h = Step-IsConserved st (Reach-IsConserved r h)

  -- In every state that a batching handler can reach, the events that Handle accepted, in the
  -- order of their sends, are those handed to the provider, then those in the buffer, then those
  -- in the channel: none is lost, doubled or overtaken.
  pub batches_keep_order : (s : S) (w : World S) → Reach b (start s) w → IsConserved w
  unfolding start flat
  batches_keep_order s w r = Reach-IsConserved r refl

  -- What the batches do to the world outside, one after another.
  unfoldable pub play : List (Origin × List BufferedEvent) → S → S
  play [] s = s
  play ((by_loop, batch) ∷ rest) s = play rest (deliver b batch s)
  play ((by_close, batch) ∷ rest) s = play rest ((deliver_last b batch s).1)

  play-append :
      (xs ys : List (Origin × List BufferedEvent)) (s : S) → play (xs ++ ys) s ≡ play ys (play xs s)
  unfolding play
  play-append [] ys s = refl
  play-append ((by_loop, batch) ∷ xs) ys s = play-append xs ys (deliver b batch s)
  play-append ((by_close, batch) ∷ xs) ys s = play-append xs ys ((deliver_last b batch s).1)

  -- The world outside is where the batches handed so far take it from `s`.
  abbrev Played : S → World S → Type 0
  Played s w = w.state ≡ play w.handed s

  flush_buffer-Played : (s : S) (w : World S) → Played s w → Played s (flush_buffer b w)
  unfolding flush_buffer play
  flush_buffer-Played s w h =
      ground (arith, play-append w.handed ((by_loop, w.handler.buffer) ∷ []) s)

  flush_full-Played : (s : S) (w : World S) → Played s w → Played s (flush_full b w)
  unfolding flush_full
  flush_full-Played s w h = elim (Bool-cases (leb (size_of b) (length w.handler.buffer))) [
    | inl e ↦ rw e (flush_buffer-Played s w h)
    | inr e ↦ rw e h
  ]

  close_finish-Played : (s : S) (w : World S) → Played s w → Played s (close_finish b w)
  unfolding close_finish play
  close_finish-Played s w h =
      ground (arith, play-append w.handed ((by_close, w.handler.buffer) ∷ []) s)

  Step-Played : (s : S) {w v : World S} → Step b w v → Played s w → Played s v
  unfolding set_handler receive send send_closed append_received
  Step-Played s (enters be) h = h
  Step-Played s (sends xs ys be e open_ room) h = h
  Step-Played s (panics xs ys be e shut) h = h
  Step-Played s {w} (receives be rest running e) h =
      flush_full-Played s (append_received be rest w) h
  Step-Played s (ticks running) h = flush_buffer-Played s _ h
  Step-Played s (exits running shut e) h = h
  Step-Played s closes h = h
  Step-Played s (finishes c d) h = close_finish-Played s _ h

  Reach-Played : (s : S) {w v : World S} → Reach b w v → Played s w → Played s v
  Reach-Played s here h = h
  Reach-Played s (next r st) h = Step-Played s st (Reach-Played s r h)

  pub batches_play_in_order :
      (s : S) (w : World S) → Reach b (start s) w → w.state ≡ play w.handed s
  unfolding start play
  batches_play_in_order s w r = Reach-Played s r refl
