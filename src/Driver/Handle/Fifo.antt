-- ===== src/Driver/Handle/Fifo.antt =====
-- src/tokio_rt.rs: the order of the results and the order of the calls.
use tmuxctl.Base.{◌<◌, ◌≡◌, refl, sym, ap, ◌∙◌, true, List, [], ◌∷◌, ◌++◌, arith, length}
use tmuxctl.Text.Number.{u64_bound}
use tmuxctl.Driver.Blocking.{Write, Effect, event, sent, waits, refused}
use tmuxctl.Driver.Blocking.Waiting.{senders, answered, accepted}
use tmuxctl.Driver.Owner.{Task, start, owner_task}
use tmuxctl.Driver.Owner.Drained.{owner_task-answered}
use tmuxctl.Driver.Handle.{Channel, Act, from_parts, steps}
use tmuxctl.Driver.Handle.Calls.{callers, callers-append, calls}
use tmuxctl.Driver.Handle.Order.{written_requests, handle-calls}
use tmuxctl.Driver.Handle.Projection.{heard, turns_of, steps-run}
use tmuxctl.Driver.Handle.Turned.{length-turns_of}

heard-same :
    (out : List Effect)
    → (answered (heard out) ≡ answered out) × (accepted (heard out) ≡ accepted out)
heard-same [] = (refl, refl)
heard-same (event n ∷ out) = heard-same out
heard-same (sent tx r ∷ out) = let (a, b) = heard-same out in (ap (◌∷◌ tx) a, b)
heard-same (waits tx cmd ∷ out) = let (a, b) = heard-same out in (a, ap (◌∷◌ tx) b)
heard-same (refused tx ∷ out) = heard-same out

accepted-callers : (out : List Effect) → accepted out ≡ callers (written_requests out)
accepted-callers [] = refl
accepted-callers (event n ∷ out) = accepted-callers out
accepted-callers (sent tx r ∷ out) = accepted-callers out
accepted-callers (waits tx cmd ∷ out) = ap (◌∷◌ tx) (accepted-callers out)
accepted-callers (refused tx ∷ out) = accepted-callers out

module _ {W Q : Type 0} (io : Write W) (ch : Channel Q) where
  -- Those answered and then those who wait are those whose commands were written.
  handle-answered :
      (w : W) (acts : List Act)
      → length acts < u64_bound
      → let (s, out) = steps io ch (from_parts io ch w) acts in
        answered out ++ senders s.task.waiters ≡ accepted out
  handle-answered w acts h =
      let client = from_parts io ch w in
      let (s, out) = steps io ch client acts in
      let turns = turns_of io ch client acts in
      let ((t, told), running) = owner_task io (start io w) turns in
      let same = steps-run io ch client acts refl in
      let outs : heard out ≡ heard told = ap (λ x. x.0.1) same in
      ap (λ xs. xs ++ senders s.task.waiters)
        (sym (heard-same out).0 ∙ ap answered outs ∙ (heard-same told).0)
      ∙ ap (λ (t : Task W). answered told ++ senders t.waiters) (ap (λ x. x.0.0) same)
      ∙ owner_task-answered io w turns (omega (arith, h, length-turns_of io ch client acts))
      ∙ sym (sym (heard-same out).1 ∙ ap accepted outs ∙ (heard-same told).1)

  -- As long as the owner task of a new client without a child runs, over fewer than 2^64 acts in
  -- any interleaving of its callers' calls, the drop of the handle and its turns, and whatever the
  -- transport does: the callers to whom a result was sent, then those who wait for one, and then
  -- those whose requests are in the channel, are the callers of the calls, in the order of the
  -- calls.
  pub handle_fifo :
      (w : W) (acts : List Act)
      → length acts < u64_bound
      → (steps io ch (from_parts io ch w) acts).0.running ≡ true
      → let (s, out) = steps io ch (from_parts io ch w) acts in
        (answered out ++ senders s.task.waiters) ++ callers (ch.contents s.queue)
        ≡ callers (calls true acts)
  handle_fifo w acts h on =
      let (s, out) = steps io ch (from_parts io ch w) acts in
      ap (λ xs. xs ++ callers (ch.contents s.queue))
        (handle-answered w acts h ∙ accepted-callers out)
      ∙ sym (callers-append (written_requests out) (ch.contents s.queue))
      ∙ ap callers (handle-calls io ch w acts on)
