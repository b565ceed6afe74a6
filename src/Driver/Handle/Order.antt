-- ===== src/Driver/Handle/Order.antt =====
-- src/tokio_rt.rs: the order in which the callers' commands are written.
use tmuxctl.Base.{
  ◌≡◌, refl, sym, ap, ◌∙◌, true, Option, none, some, List, [], ◌∷◌, ◌++◌, append_assoc, append-nil,
  Text, Bytes, Bool-cases, inl, inr,
}
use tmuxctl.Engine.{Incoming, CommandResult, feed}
use tmuxctl.Driver.Blocking.{
  Write, Sender, Waiters, Effect, event, sent, waits, refused, notify, remove, write_command,
}
use tmuxctl.Driver.Blocking.Written.{lines_of, lines_of-append, write_command-written}
use tmuxctl.Driver.Owner.{Task, Turn, request, resolve, deliver, turn}
use tmuxctl.Driver.Handle.Calls.{calls, asked, calls-step}
use tmuxctl.Driver.Handle.{
  Request, Channel, Ends, Act, call, drop_handle, receive, read, from_parts, command, advance,
  received, step, steps,
}

-- The requests whose commands were written, by what their callers do.
abbrev pub written_requests : List Effect → List Request
written_requests [] = []
written_requests (event n ∷ out) = written_requests out
written_requests (sent tx r ∷ out) = written_requests out
written_requests (waits tx cmd ∷ out) = (cmd, tx) ∷ written_requests out
written_requests (refused tx ∷ out) = written_requests out

written_requests-append :
    (xs ys : List Effect) → written_requests (xs ++ ys) ≡ written_requests xs ++ written_requests ys
written_requests-append [] ys = refl
written_requests-append (event n ∷ xs) ys = written_requests-append xs ys
written_requests-append (sent tx r ∷ xs) ys = written_requests-append xs ys
written_requests-append (waits tx cmd ∷ xs) ys = ap (◌∷◌ (cmd, tx)) (written_requests-append xs ys)
written_requests-append (refused tx ∷ xs) ys = written_requests-append xs ys

-- Effects that write nothing.
Silent : List Effect → Type 0
Silent out = (written_requests out ≡ []) × (lines_of out ≡ [])

notify-Silent : (found : Option Sender) (r : CommandResult) → Silent (notify found r)
unfolding notify Silent
notify-Silent none r = (refl, refl)
notify-Silent (some tx) r = (refl, refl)

deliver-Silent : (incoming : List Incoming) (ws : Waiters) → Silent (deliver incoming ws).1
unfolding deliver resolve Silent
deliver-Silent [] ws = (refl, refl)
deliver-Silent (Incoming.notification n ∷ incoming) ws = deliver-Silent incoming ws
deliver-Silent (Incoming.reply id r ∷ incoming) ws =
    let (waiter, rest) = remove id ws in
    let now = notify waiter r in
    let later = (deliver incoming rest).1 in
    let (a, b) = notify-Silent waiter r in
    let (c, d) = deliver-Silent incoming rest in
    (written_requests-append now later ∙ rw (a, c) refl, lines_of-append now later ∙ rw (b, d) refl)

abbrev taken : Turn → List Request
taken (request none) = []
taken (request (some r)) = r ∷ []
taken (Turn.read r) = []

-- `Wrote` is what is known of a writer before and after effects.
module _ {W Q : Type 0} (io : Write W) (ch : Channel Q) (Wrote : W → W → List Effect → Type 0)
    (idle : (w : W) (out : List Effect) → lines_of out ≡ [] → Wrote w w out)
    (later : (w w' w'' : W) (xs ys : List Effect)
      → Wrote w w' xs
      → Wrote w' w'' ys
      → Wrote w w'' (xs ++ ys))
    (command-Wrote : (w : W) (tx : Sender) (cmd : Text)
      → (write_command io w cmd).1 ≡ true
      → Wrote w (write_command io w cmd).0 (waits tx cmd ∷ [])) where
  turn-taken :
      (t : Task W) (u : Turn)
      → (turn io t u).1 ≡ true
      → (written_requests (turn io t u).0.1 ≡ taken u)
        × Wrote t.writer (turn io t u).0.0.writer (turn io t u).0.1
  unfolding turn Silent
  turn-taken t (request none) h = absurd cc
  turn-taken t (request (some (cmd, tx))) h = elim (Bool-cases (write_command io t.writer cmd).1) [
    | inl fine ↦ let wrote = command-Wrote t.writer tx cmd fine in simp fine (refl, wrote)
    | inr bad ↦ absurd (cc (simp bad at h))
  ]
  turn-taken t (Turn.read none) h = absurd cc
  turn-taken t (Turn.read (some [])) h = absurd cc
  turn-taken t (Turn.read (some (b ∷ input))) h =
      let (a, c) = deliver-Silent (feed t.engine (b ∷ input)).1 t.waiters in (a, idle t.writer _ c)

  -- A step after which the task runs: the task ran before, it wrote the lines of the requests that it
  -- took, and it took them from the front of the queue.
  InOrder : Ends W Q → List Request → Ends W Q × List Effect → Type 0
  InOrder s new (s', out) =
      s'.running ≡ true
      → (s.running ≡ true)
        × Wrote s.task.writer s'.task.writer out
        × (written_requests out ++ ch.contents s'.queue ≡ ch.contents s.queue ++ new)

  idle-InOrder : (s : Ends W Q) → InOrder s [] (s, [])
  unfolding InOrder
  idle-InOrder s on = (on, idle s.task.writer [] refl, sym (append-nil (ch.contents s.queue)))

  advance-InOrder :
      (s : Ends W Q) (q : Q) (u : Turn)
      → ch.contents s.queue ≡ taken u ++ ch.contents q
      → InOrder s [] (advance io ch s q u)
  unfolding advance InOrder
  advance-InOrder s q u front = elim (Bool-cases (turn io s.task u).1) [
    | inl more ↦ simp more λ on.
        let (a, b) = turn-taken s.task u more in
        (
          on,
          b,
          ap (λ rs. rs ++ ch.contents q) a ∙ sym front ∙ sym (append-nil (ch.contents s.queue)),
        )
    | inr less ↦ simp less λ on. absurd cc
  ]

  received-InOrder :
      (s : Ends W Q) (rs : List Request)
      → ch.contents s.queue ≡ rs
      → InOrder s [] (received io ch s (ch.recv s.queue))
  unfolding received
  received-InOrder s [] none_queued =
      rw (ch.recv_none s.queue none_queued) (elim (Bool-cases s.held) [
        | inl alive ↦ simp alive (idle-InOrder s)
        | inr dropped ↦ simp dropped (advance-InOrder s s.queue (request none) refl)
      ])
  received-InOrder s (r ∷ rest) queued =
      let (first, later) = ch.recv_some s.queue r rest queued in
      rw first
        (advance-InOrder s (ch.recv s.queue).1 (request (some r)) (queued ∙ ap (◌∷◌ r) (sym later)))

  command-InOrder :
      (s : Ends W Q) (tx : Sender) (cmd : Text)
      → InOrder s (asked s (call tx cmd)) (command io ch s tx cmd)
  unfolding command asked
  command-InOrder s tx cmd = elim (Bool-cases s.held) [
    | inr dropped ↦ simp dropped (idle-InOrder s)
    | inl alive ↦ elim (Bool-cases s.running) [
      | inl on ↦
          let queued : InOrder s ((cmd, tx) ∷ [])
              (record s { queue = ch.send (cmd, tx) s.queue }, []) =
            unfold InOrder in
            λ on. (on, idle s.task.writer [] refl, ch.contents_send (cmd, tx) s.queue) in
          simp (alive, on) (simp (alive, on) at queued)
      | inr off ↦ simp (alive, off) (unfold InOrder in λ on. absurd (cc (off, on)))
    ]
  ]

  step-InOrder : (s : Ends W Q) (a : Act) → InOrder s (asked s a) (step io ch s a)
  unfolding step asked
  step-InOrder s (call tx cmd) = command-InOrder s tx cmd
  step-InOrder s drop_handle = unfold InOrder in idle-InOrder s
  step-InOrder s receive = elim (Bool-cases s.running) [
    | inl on ↦ simp on (received-InOrder s (ch.contents s.queue) refl)
    | inr off ↦ simp off (idle-InOrder s)
  ]
  step-InOrder s (read r) = elim (Bool-cases s.running) [
    | inl on ↦ simp on (advance-InOrder s s.queue (Turn.read r) refl)
    | inr off ↦ simp off (idle-InOrder s)
  ]

  steps-InOrder :
      (s : Ends W Q) (acts : List Act) → InOrder s (calls s.held acts) (steps io ch s acts)
  unfolding steps InOrder
  steps-InOrder s [] on =
      (on, idle s.task.writer [] refl, unfold calls in sym (append-nil (ch.contents s.queue)))
  steps-InOrder s (a ∷ acts) on =
      let (s', now) = step io ch s a in
      let (s'', out) = steps io ch s' acts in
      let (on', more, rest) = steps-InOrder s' acts on in
      let (on'', first, front) = step-InOrder s a on' in
      (
        on'',
        later s.task.writer s'.task.writer s''.task.writer now out first more,
        ap (λ rs. rs ++ ch.contents s''.queue) (written_requests-append now out)
            ∙ append_assoc (written_requests now) (written_requests out) (ch.contents s''.queue)
            ∙ ap (◌++◌ (written_requests now)) rest
            ∙ sym (append_assoc (written_requests now) (ch.contents s'.queue) (calls s'.held acts))
            ∙ ap (λ rs. rs ++ calls s'.held acts) front
            ∙ append_assoc (ch.contents s.queue) (asked s a) (calls s'.held acts)
            ∙ ap (◌++◌ (ch.contents s.queue)) (sym (calls-step io ch s a acts)),
      )

module _ {W Q : Type 0} (io : Write W) (ch : Channel Q) where
  -- While the task runs, the requests written and those still in the channel are those of the calls.
  pub handle-calls :
      (w : W) (acts : List Act)
      → (steps io ch (from_parts io ch w) acts).0.running ≡ true
      → let (s, out) = steps io ch (from_parts io ch w) acts in
        written_requests out ++ ch.contents s.queue ≡ calls true acts
  unfolding InOrder
  handle-calls w acts on =
      let (_, _, order) =
        steps-InOrder io ch (λ w w' out. Unit) (λ w out h. tt) (λ w w' w'' xs ys a b. tt)
          (λ w tx cmd h. tt) (from_parts io ch w) acts on in
      order ∙ ap (λ rs. rs ++ calls true acts) ch.contents_empty

module _ {W Q : Type 0} (io : Write W) (ch : Channel Q) (written : W → Bytes)
    (write_all-written : (w : W) (b : Bytes)
      → (io.write_all w b).1 ≡ true
      → written (io.write_all w b).0 ≡ written w ++ b)
    (flush-written : (w : W) → written (io.flush w).0 ≡ written w) where
  -- The bytes that the writer was given since are the lines.
  abbrev Lines : W → W → List Effect → Type 0
  Lines w w' out = written w' ≡ written w ++ lines_of out

  Lines-trans :
      (w w' w'' : W) (xs ys : List Effect)
      → Lines w w' xs
      → Lines w' w'' ys
      → Lines w w'' (xs ++ ys)
  Lines-trans w w' w'' xs ys a b =
      b
      ∙ ap (λ t. t ++ lines_of ys) a
      ∙ append_assoc (written w) (lines_of xs) (lines_of ys)
      ∙ ap (◌++◌ (written w)) (sym (lines_of-append xs ys))

  -- While the task runs, the writer was given the commands of the requests written, each with a
  -- newline behind it.
  pub handle-lines :
      (w : W) (acts : List Act)
      → (steps io ch (from_parts io ch w) acts).0.running ≡ true
      → let (s, out) = steps io ch (from_parts io ch w) acts in
        (written_requests out ++ ch.contents s.queue ≡ calls true acts)
        × (written s.task.writer ≡ written w ++ lines_of out)
  unfolding InOrder
  handle-lines w acts on =
      let (_, lines, _) =
        steps-InOrder io ch Lines
          (λ w out h. sym (append-nil (written w)) ∙ ap (◌++◌ (written w)) (sym h)) Lines-trans
          (λ w tx cmd fine.
            write_command-written io written write_all-written flush-written w cmd fine)
          (from_parts io ch w) acts on in
      (handle-calls io ch w acts on, lines)
