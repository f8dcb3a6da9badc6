-- ===== src/Notifier/Batch/Sizes.antt =====
-- internal/notifier/batch/batch.go: how full the channel and the buffer get, the size of a batch,
-- and the phases that Close and `run` go through.
use tekton_events_relay.Prelude.{
  ℕ, ◌≤◌, ◌<◌, inl, inr, true, false, List, [], ◌∷◌, ◌++◌, ◌≡◌, refl, ap, arith, is_empty, leb,
  length, length-append, positive_or-pos, Bool-cases,
}
use tekton_events_relay.Notifier.Batch.{
  BufferedEvent, Batcher, size_of, capacity, default_max_size, handle_enter, close_enter,
}
use tekton_events_relay.Notifier.Batch.Steps.{
  Origin, by_loop, by_close, World, start, set_handler, flush_buffer, append_received, flush_full,
  receive, send, send_closed, close_finish, Step, enters, sends, panics, receives, ticks, exits,
  closes, finishes, Reach, here, next,
}

-- A batch has an event, and no more than `n`.
abbrev pub Sized : ℕ → List (Origin × List BufferedEvent) → Type 0
Sized n [] = Unit
Sized n ((o, batch) ∷ rest) = (0 < length batch) × (length batch ≤ n) × Sized n rest

pub record IsBounded {S : Type 0} (b : Batcher S) (w : World S) : Type 0 where
  pub room : length w.handler.ch ≤ capacity b
  pub partial : length w.handler.buffer < size_of b
  pub sized : Sized (size_of b) w.handed

-- The phases: `run` returns only after Close has begun and the channel is empty; Close waits
-- exactly while it has begun and its second half has not run, and then leaves nothing behind;
-- and only a send after Close has begun panics.
pub record IsPhased {S : Type 0} (w : World S) : Type 0 where
  pub done_closed : w.handler.done ≡ true → w.handler.closed ≡ true
  pub done_empty : w.handler.done ≡ true → w.handler.ch ≡ []
  pub closing_closed : w.handler.closing ≡ true → w.handler.closed ≡ true
  pub finished :
      w.handler.closed ≡ true
      → w.handler.closing ≡ false
      → (w.handler.done ≡ true) × (w.handler.buffer ≡ [])
  pub panicked_closed : w.panicked ≡ true → w.handler.closed ≡ true

pub size_of-pos : {S : Type 0} (b : Batcher S) → 0 < size_of b
size_of-pos b = positive_or-pos b.cfg.max_size default_max_size (omega arith)

Sized-append :
    (n : ℕ) (xs : List (Origin × List BufferedEvent)) (o : Origin) (batch : List BufferedEvent)
    → Sized n xs
    → 0 < length batch
    → length batch ≤ n
    → Sized n (xs ++ (o, batch) ∷ [])
Sized-append n [] o batch h p q = (p, q, tt)
Sized-append n ((p0, first) ∷ xs) o batch h p q = (h.0, h.1, Sized-append n xs o batch h.2 p q)

nonempty-length : {A : Type 0} (xs : List A) → is_empty xs ≡ false → 0 < length xs
nonempty-length [] h = absurd (cc)
nonempty-length (x ∷ xs) h = omega arith

empty-nil : {A : Type 0} (xs : List A) → is_empty xs ≡ true → xs ≡ []
empty-nil [] h = refl
empty-nil (x ∷ xs) h = absurd (cc)

module _ {S : Type 0} (b : Batcher S) where
  -- Between the append and the flush the buffer may hold a whole batch.
  abbrev Flushable : World S → Type 0
  Flushable w =
      (length w.handler.ch ≤ capacity b)
      × (length w.handler.buffer ≤ size_of b)
      × Sized (size_of b) w.handed

  flush_buffer-IsBounded : (w : World S) → Flushable w → IsBounded b (flush_buffer b w)
  unfolding flush_buffer
  flush_buffer-IsBounded w h = elim (Bool-cases (is_empty w.handler.buffer)) [
    | inl e ↦ rw e (record {
      room = h.0;
      partial = omega (arith, ap length (empty-nil w.handler.buffer e), size_of-pos b);
      sized = h.2;
    })
    | inr e ↦ rw e (record {
      room = h.0;
      partial = size_of-pos b;
      sized =
          Sized-append (size_of b) w.handed by_loop w.handler.buffer h.2
            (nonempty-length w.handler.buffer e) h.1;
    })
  ]

  flush_full-IsBounded : (w : World S) → Flushable w → IsBounded b (flush_full b w)
  unfolding flush_full
  flush_full-IsBounded w h = elim (Bool-cases (leb (size_of b) (length w.handler.buffer))) [
    | inl e ↦ rw e (flush_buffer-IsBounded w h)
    | inr e ↦ rw e (record { room = h.0; partial = ground arith; sized = h.2 })
  ]

  close_finish-IsBounded : (w : World S) → IsBounded b w → IsBounded b (close_finish b w)
  unfolding close_finish
  close_finish-IsBounded w h = elim (Bool-cases (is_empty w.handler.buffer)) [
    | inl e ↦ rw e (record { room = h.room; partial = h.partial; sized = h.sized })
    | inr e ↦ rw e (record {
      room = h.room;
      partial = size_of-pos b;
      sized =
          Sized-append (size_of b) w.handed by_close w.handler.buffer h.sized
            (nonempty-length w.handler.buffer e) (omega (arith, h.partial));
    })
  ]

  append_received-Flushable :
      (w : World S) (be : BufferedEvent) (rest : List BufferedEvent)
      → w.handler.ch ≡ be ∷ rest
      → IsBounded b w
      → Flushable (append_received be rest w)
  unfolding append_received
  append_received-Flushable w be rest e h = (
    omega (arith, ap length e, h.room),
    omega (arith, length-append w.handler.buffer (be ∷ []), h.partial),
    h.sized,
  )

  Step-IsBounded : {w v : World S} → Step b w v → IsBounded b w → IsBounded b v
  unfolding set_handler handle_enter close_enter receive send send_closed
  Step-IsBounded {w} (enters be) h = elim (Bool-cases w.handler.closed) [
    | inl e ↦ rw e (record { room = h.room; partial = h.partial; sized = h.sized })
    | inr e ↦ rw e (record { room = h.room; partial = h.partial; sized = h.sized })
  ]
  Step-IsBounded {w} (sends xs ys be e open_ room) h = record {
    room = omega (arith, length-append w.handler.ch (be ∷ []));
    partial = h.partial;
    sized = h.sized;
  }
  Step-IsBounded (panics xs ys be e shut) h = record {
    room = h.room;
    partial = h.partial;
    sized = h.sized;
  }
  Step-IsBounded {w} (receives be rest running e) h =
      flush_full-IsBounded (append_received be rest w) (append_received-Flushable w be rest e h)
  Step-IsBounded {w} (ticks running) h =
      flush_buffer-IsBounded w (h.room, omega (arith, h.partial), h.sized)
  Step-IsBounded (exits running shut e) h = record {
    room = h.room;
    partial = h.partial;
    sized = h.sized;
  }
  Step-IsBounded {w} closes h = elim (Bool-cases w.handler.closed) [
    | inl e ↦ rw e (record { room = h.room; partial = h.partial; sized = h.sized })
    | inr e ↦ rw e (record { room = h.room; partial = h.partial; sized = h.sized })
  ]
  Step-IsBounded {w} (finishes c d) h = close_finish-IsBounded w h

  Reach-IsBounded : {w v : World S} → Reach b w v → IsBounded b w → IsBounded b v
  Reach-IsBounded here h = h
  Reach-IsBounded (next r st) h = Step-IsBounded st (Reach-IsBounded r h)

  -- In every state that a batching handler can reach, the channel holds at most twice the size of
  -- a batch, the buffer less than a batch, and each batch that was handed to the provider has at
  -- least one event and at most the size.
  pub batches_keep_bounds : (s : S) (w : World S) → Reach b (start s) w → IsBounded b w
  unfolding start
  batches_keep_bounds s w r =
      Reach-IsBounded r (record { room = omega arith; partial = size_of-pos b; sized = tt })

  Step-IsPhased : {w v : World S} → Step b w v → IsPhased w → IsPhased v
  unfolding set_handler handle_enter close_enter receive send send_closed flush_full flush_buffer
      append_received close_finish
  Step-IsPhased {w} (enters be) h = record {
    done_closed = ground arith;
    done_empty = ground arith;
    closing_closed = ground arith;
    finished = ground arith;
    panicked_closed = ground arith;
  }
  Step-IsPhased {w} (sends xs ys be e open_ room) h = record {
    done_closed = ground arith;
    done_empty = ground arith;
    closing_closed = ground arith;
    finished = ground arith;
    panicked_closed = ground arith;
  }
  Step-IsPhased {w} (panics xs ys be e shut) h = record {
    done_closed = ground arith;
    done_empty = ground arith;
    closing_closed = ground arith;
    finished = ground arith;
    panicked_closed = ground arith;
  }
  Step-IsPhased {w} (receives be rest running e) h = record {
    done_closed = ground arith;
    done_empty = ground arith;
    closing_closed = ground arith;
    finished = ground arith;
    panicked_closed = ground arith;
  }
  Step-IsPhased {w} (ticks running) h = record {
    done_closed = ground arith;
    done_empty = ground arith;
    closing_closed = ground arith;
    finished = ground arith;
    panicked_closed = ground arith;
  }
  Step-IsPhased {w} (exits running shut e) h = record {
    done_closed = ground arith;
    done_empty = ground arith;
    closing_closed = ground arith;
    finished = ground arith;
    panicked_closed = ground arith;
  }
  Step-IsPhased {w} closes h = record {
    done_closed = ground arith;
    done_empty = ground arith;
    closing_closed = ground arith;
    finished = ground arith;
    panicked_closed = ground arith;
  }
  Step-IsPhased {w} (finishes c d) h = record {
    done_closed = ground arith;
    done_empty = ground arith;
    closing_closed = ground arith;
    finished = ground arith;
    panicked_closed = ground arith;
  }

  Reach-IsPhased : {w v : World S} → Reach b w v → IsPhased w → IsPhased v
  Reach-IsPhased here h = h
  Reach-IsPhased (next r st) h = Step-IsPhased st (Reach-IsPhased r h)

  pub batches_keep_phases : (s : S) (w : World S) → Reach b (start s) w → IsPhased w
  unfolding start
  batches_keep_phases s w r = Reach-IsPhased r (record {
    done_closed = λ e. cc;
    done_empty = λ e. refl;
    closing_closed = λ e. cc;
    finished = λ e. cc;
    panicked_closed = λ e. cc;
  })
