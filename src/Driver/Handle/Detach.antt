-- ===== src/Driver/Handle/Detach.antt =====
-- src/tokio_rt.rs: what the drop of the handle does, once the requests sent before it are taken.
use tmuxctl.Base.{
  ◌<◌, ◌≡◌, refl, sym, ap, ◌∙◌, true, false, List, [], ◌∷◌, ◌++◌, append-nil, Bytes, arith, length,
  All, map,
}
use tmuxctl.Text.Utf8.{as_bytes}
use tmuxctl.Text.Number.{u64_bound}
use tmuxctl.Driver.Blocking.{Write, write_command}
use tmuxctl.Driver.Blocking.Waiting.{senders}
use tmuxctl.Driver.Blocking.Moves.{Waited}
use tmuxctl.Driver.Blocking.Written.{write_command-written}
use tmuxctl.Driver.Blocking.Refines.{view}
use tmuxctl.Driver.Contract.{react, tell_all}
use tmuxctl.Driver.Owner.{Task, turn, teardown}
use tmuxctl.Driver.Owner.Same.{shared}
use tmuxctl.Driver.Owner.Refines.{teardown-react}
use tmuxctl.Driver.Handle.{
  Channel, Ends, Act, receive, refuse, from_parts, advance, received, step, steps,
}
use tmuxctl.Driver.Handle.Calls.{calls}
use tmuxctl.Driver.Handle.Order.{written_requests, handle-calls}
use tmuxctl.Driver.Handle.Wire.{texts, IsLine, read_detached, handle-unlines}
use tmuxctl.Engine.Framing.{split_lines}
use tmuxctl.Engine.Answers.{unlines}
use tmuxctl.Driver.Handle.Turns.{Sound}
use tmuxctl.Driver.Handle.Returns.{steps-Keeps, new-Sound}

left-nil : {A : Type 0} (xs ys : List A) → xs ++ ys ≡ [] → xs ≡ []
left-nil [] ys h = refl
left-nil (x ∷ xs) ys h = absurd cc

module _ {W Q : Type 0} (io : Write W) (ch : Channel Q) where
  -- Those who wait are told, the longest waiting first.
  teardown-told :
      (t : Task W) → Waited (shared true t) → (teardown io t).1 ≡ tell_all (senders t.waiters)
  unfolding view shared react Waited
  teardown-told t (orphans, q, c, lt) =
      sym (ap (λ x. x.1) (teardown-react io t true (orphans, q, (λ e. cc), lt)))

  -- The turn in which `recv` gives nothing because the handle was dropped.
  receive-dropped :
      (s : Ends W Q)
      → s.running ≡ true
      → s.held ≡ false
      → ch.contents s.queue ≡ []
      → ((step io ch s receive).0.running ≡ false)
        × ((step io ch s receive).0.task ≡ (teardown io s.task).0)
        × ((step io ch s receive).1 ≡ (teardown io s.task).1)
  unfolding step received advance turn
  receive-dropped s on dropped none_queued =
      let none_left : (ch.close s.queue).0 ≡ [] =
        left-nil (ch.close s.queue).0 (ch.contents (ch.close s.queue).1)
          (ch.close_splits s.queue ∙ none_queued) in
      rw (on, ch.recv_none s.queue none_queued)
        (simp dropped (
          refl,
          refl,
          ap (λ rs. (teardown io s.task).1 ++ refuse rs) none_left
              ∙ append-nil (teardown io s.task).1,
        ))

module _ {W Q : Type 0} (io : Write W) (ch : Channel Q) (written : W → Bytes)
    (write_all-written : (w : W) (b : Bytes)
      → (io.write_all w b).1 ≡ true
      → written (io.write_all w b).0 ≡ written w ++ b)
    (flush-written : (w : W) → written (io.flush w).0 ≡ written w) where
  -- After fewer than 2^64 acts of a new client without a child whose callers' commands hold no
  -- newline, in any interleaving of its callers' calls, the drop of its handle and the turns of
  -- the owner task: if the task runs, the handle was dropped and the channel is empty, then with
  -- its next `recv` the task ends; those who wait are told that the session is over, the longest
  -- waiting first, and nothing else happens; and if the transport takes the last line, a peer that
  -- reads the wire by lines reads the commands of the calls, one line each and in the order of the
  -- calls, then one empty line, and nothing after it. The writer was given nothing before; a
  -- successful `write_all` adds the bytes, and `flush` adds none.
  pub handle_detach :
      (w : W) (acts : List Act)
      → length acts < u64_bound
      → written w ≡ []
      → All IsLine (texts (calls true acts))
      → (steps io ch (from_parts io ch w) acts).0.running ≡ true
      → (steps io ch (from_parts io ch w) acts).0.held ≡ false
      → ch.contents (steps io ch (from_parts io ch w) acts).0.queue ≡ []
      → (write_command io (steps io ch (from_parts io ch w) acts).0.task.writer []).1 ≡ true
      → let (s, out) = steps io ch (from_parts io ch w) acts in
        let (s', last) = step io ch s receive in
        (s'.running ≡ false)
        × (last ≡ tell_all (senders s.task.waiters))
        × (split_lines (written s'.task.writer)
            ≡ (map as_bytes (texts (calls true acts)) ++ [] ∷ [], []))
  unfolding teardown as_bytes
  handle_detach w acts h empty clean on dropped none_queued fine =
      let (s, out) = steps io ch (from_parts io ch w) acts in
      let (sound, _) =
        steps-Keeps io ch (from_parts io ch w) acts (omega arith) (new-Sound io ch w) in
      let (ended, task, told) = receive-dropped io ch s on dropped none_queued in
      let all : written_requests out ≡ calls true acts =
        sym (append-nil (written_requests out))
        ∙ ap (◌++◌ (written_requests out)) (sym none_queued)
        ∙ handle-calls io ch w acts on in
      (
        ended,
        told ∙ teardown-told io ch s.task (unfold Sound in sound.0 on),
        ap split_lines (
              ap (λ (t : Task W). written t.writer) task
              ∙ write_command-written io written write_all-written flush-written s.task.writer []
                  fine
              ∙ ap (λ x. x ++ b'\n' ∷ [])
                  (handle-unlines io ch written write_all-written flush-written w acts empty on
                    ∙ ap (λ rs. unlines (map as_bytes (texts rs))) all))
            ∙ read_detached (texts (calls true acts)) clean,
      )
