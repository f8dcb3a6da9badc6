-- ===== src/Notifier/Batch/Closing.antt =====
-- internal/notifier/batch/batch.go: what Close waits for, what it leaves behind, and what the
-- calls that race with it meet.
use tekton_events_relay.Prelude.{
  ℕ, zero, suc, ◌+◌, ◌≤◌, ◌<◌, inl, inr, Bool, true, false, List, [], ◌∷◌, ◌≡◌, refl, ap, sym, ◌∙◌,
  arith, length, append-nil, Bool-cases,
}
use tekton_events_relay.Notifier.Batch.{BufferedEvent, Batcher, handle_enter, close_enter}
use tekton_events_relay.Notifier.Batch.Steps.{
  World, start, set_handler, flush_buffer, append_received, flush_full, receive, send, send_closed,
  close_finish, Step, enters, sends, panics, receives, ticks, exits, closes, finishes, Reach, here,
  next, Reach-trans,
}
use tekton_events_relay.Notifier.Batch.Order.{flat, IsConserved, batches_keep_order}
use tekton_events_relay.Notifier.Batch.Sizes.{IsPhased, batches_keep_phases}

-- The steps of `run` and of Close that are left once Close has begun.
abbrev pub bit : Bool → ℕ
bit true = 1
bit false = 0

abbrev pub undone : Bool → ℕ
undone true = 0
undone false = 1

abbrev pub rank : {S : Type 0} → World S → ℕ
rank w = length w.handler.ch + undone w.handler.done + bit w.handler.closing

abbrev pub HasReturned : {S : Type 0} → World S → Type 0
HasReturned w = (w.handler.closed ≡ true) × (w.handler.closing ≡ false)

module _ {S : Type 0} (b : Batcher S) where
  -- Whatever else runs meanwhile, the steps left do not become more.
  pub rank_never_grows :
      {w v : World S}
      → Step b w v
      → w.handler.closed ≡ true
      → (rank v ≤ rank w) × (v.handler.closed ≡ true) × (v.accepted ≡ w.accepted)
  unfolding set_handler handle_enter close_enter receive send send_closed flush_full flush_buffer
      append_received close_finish
  rank_never_grows {w} (enters be) h = ground arith
  rank_never_grows {w} (sends xs ys be e open_ room) h = absurd (cc)
  rank_never_grows {w} (panics xs ys be e shut) h = ground arith
  rank_never_grows {w} (receives be rest running e) h = ground (arith, ap length e)
  rank_never_grows {w} (ticks running) h = ground arith
  rank_never_grows {w} (exits running shut e) h = ground arith
  rank_never_grows {w} closes h = ground arith
  rank_never_grows {w} (finishes c d) h = ground arith

  receive-rank :
      (be : BufferedEvent) (rest : List BufferedEvent) (w : World S)
      → w.handler.ch ≡ be ∷ rest
      → rank (receive b be rest w) < rank w
  unfolding receive flush_full flush_buffer append_received
  receive-rank be rest w e = ground (arith, ap length e)

  finish-rank : (w : World S) → w.handler.closing ≡ true → rank (close_finish b w) < rank w
  unfolding close_finish
  finish-rank w e = ground arith

  loop_progress :
      (w : World S) (ch : List BufferedEvent)
      → w.handler.ch ≡ ch
      → w.handler.done ≡ false
      → w.handler.closed ≡ true
      → (v : World S) × Step b w v × (rank v < rank w)
  unfolding set_handler
  loop_progress w [] e d c = (_, exits d c e, omega (arith, ap undone d))
  loop_progress w (be ∷ rest) e d c = (_, receives be rest d e, receive-rank be rest w e)

  -- While Close waits, some step of the loop or of Close itself can be taken, and fewer are left.
  pub waiting_close_progresses :
      (w : World S)
      → w.handler.closed ≡ true
      → w.handler.closing ≡ true
      → (v : World S) × Step b w v × (rank v < rank w)
  waiting_close_progresses w c waits = elim (Bool-cases w.handler.done) [
    | inl d ↦ (_, finishes waits d, finish-rank w waits)
    | inr d ↦ loop_progress w w.handler.ch refl d c
  ]

  drain :
      (n : ℕ) (w : World S)
      → rank w ≤ n
      → w.handler.closed ≡ true
      → w.handler.closing ≡ true
      → (v : World S) × Reach b w v × HasReturned v × (v.accepted ≡ w.accepted)
  drain zero w h c waits = absurd (omega (arith, ap bit waits))
  drain (suc n) w h c waits =
      let (v, st, lt) = waiting_close_progresses w c waits in
      let (_, c', same) = rank_never_grows st c in
      elim (Bool-cases v.handler.closing) [
        | inr e ↦ (v, next here st, (c', e), same)
        | inl e ↦
            let (u, r, returned, same') = drain n v (omega arith) c' e in
            (u, Reach-trans (next here st) r, returned, same' ∙ same)
      ]

  pub returned_handed_all :
      (s : S) (w : World S) → Reach b (start s) w → HasReturned w → flat w.handed ≡ w.accepted
  returned_handed_all s w r (closed, returned) =
      let p : IsPhased w = batches_keep_phases b s w r in
      let (done, empty) = p.finished closed returned in
      let conserved : IsConserved w = batches_keep_order b s w r in
      sym (rw (empty, p.done_empty done, append-nil (flat w.handed)) at conserved)

  -- From any state that a batching handler can reach once Close has been called, whatever ran
  -- before, there are steps to one where Close has returned; no event is accepted on the way, and
  -- all that were accepted have then been handed to the provider, each once and in the order of
  -- their sends.
  pub close_drains :
      (s : S) (w : World S)
      → Reach b (start s) w
      → w.handler.closed ≡ true
      → (v : World S) × Reach b w v
        × HasReturned v
        × (v.accepted ≡ w.accepted)
        × (flat v.handed ≡ w.accepted)
  close_drains s w r c = elim (Bool-cases w.handler.closing) [
    | inr e ↦ (w, here, (c, e), refl, returned_handed_all s w r (c, e))
    | inl e ↦
        let (v, q, returned, same) = drain (rank w) w (omega arith) c e in
        (v, q, returned, same, returned_handed_all s v (Reach-trans r q) returned ∙ same)
  ]
