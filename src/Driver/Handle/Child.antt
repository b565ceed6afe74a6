-- ===== src/Driver/Handle/Child.antt =====
-- src/tokio_rt.rs, src/smol_rt.rs: a client over a child process. The owner task waits for the child
-- behind its loop, and only then is its end of the channel dropped: meanwhile a call is queued. The
-- exit of the child is an input. That the child is killed if the task itself is dropped with the
-- runtime (`kill_on_drop`) is outside the model.
use tmuxctl.Base.{
  ◌≡◌, refl, sym, ap, Bool, true, false, Option, none, some, List, [], ◌∷◌, ◌++◌, arith, Text,
  if◌then◌else◌, Bool-cases, inl, inr, ◌>>=◌,
}
use tmuxctl.Driver.Blocking.{Write, Process, Sender, Effect}
use tmuxctl.Spawn.{SpawnOpts, argv}
use tmuxctl.Driver.Methods
use tmuxctl.Driver.Owner.{Turn, request, turn, teardown}
use tmuxctl.Driver.Handle.{
  Request, Channel, Ends, Act, call, drop_handle, receive, read, refuse, from_parts, command,
  advance, received, step,
}

-- The two ends, of which the task's is alive while it runs; whether its loop goes on; and whether there
-- is a child that has not exited.
pub record Life (W Q : Type 0) : Type 0 where
  pub ends : Ends W Q
  pub looping : Bool
  pub child : Bool

-- An act of the callers or of the task, or the exit of the child.
pub data Event : Type 0 where
  act : Act → Event
  exits : Event

-- The acts among the events.
abbrev pub acts_of : List Event → List Act
acts_of [] = []
acts_of (act a ∷ events) = a ∷ acts_of events
acts_of (exits ∷ events) = acts_of events

-- `TokioClient`: the receiver of the notifications is there until it is taken.
pub record TokioClient (W Q E : Type 0) : Type 0 where
  pub life : Life W Q
  pub receiver : Option E

unfoldable pub events : {W Q E : Type 0} → TokioClient W Q E → TokioClient W Q E × Option E
events c = let (left, taken) = Methods.events c.receiver in (record c { receiver = left }, taken)

module _ {W Q : Type 0} (io : Write W) (ch : Channel Q) where
  unfoldable pub client_over : {E : Type 0} → W → Bool → E → TokioClient W Q E
  client_over w child ev_rx = record {
    life = record { ends = from_parts io ch w; looping = true; child = child };
    receiver = some ev_rx;
  }

  -- `spawn`: the program runs with the arguments of the options, and the client is over its pipes.
  unfoldable pub spawn : {E C : Type 0} → Process W C → SpawnOpts → E → Option (TokioClient W Q E)
  spawn os opts ev_rx = do
    (stdin, child) ← os.run opts.program (argv opts)
    some (client_over stdin true ev_rx)

  unfoldable pub with_transport : {E : Type 0} → W → E → TokioClient W Q E
  with_transport w ev_rx = client_over w false ev_rx

  -- The receiver is dropped with what is left in the channel.
  unfoldable pub close : Life W Q → Life W Q × List Effect
  close l =
      let (dropped, left) = ch.close l.ends.queue in
      (record l { ends = record l.ends { queue = left; running = false } }, refuse dropped)

  -- A turn of the loop, and what follows the loop if the turn ends it, up to the child's exit.
  unfoldable pub advance_life : Life W Q → Q → Turn → Life W Q × List Effect
  advance_life l q u =
      let ((t, out), goes_on) = turn io l.ends.task u in
      let (ended, last) = teardown io t in
      let reaping = record l {
        ends = record l.ends { task = ended; queue = q };
        looping = false;
      } in
      let (over, refusals) = close reaping in
      if goes_on
      then (record l { ends = record l.ends { task = t; queue = q } }, out)
      else (if l.child then (reaping, out ++ last) else (over, (out ++ last) ++ refusals))

  unfoldable pub received_life : Life W Q → Option Request × Q → Life W Q × List Effect
  received_life l (some r, q) = advance_life l q (request (some r))
  received_life l (none, q) = if l.ends.held then (l, []) else advance_life l q (request none)

  unfoldable pub step_life : Life W Q → Event → Life W Q × List Effect
  step_life l (act (call tx cmd)) =
      let (ends, out) = command io ch l.ends tx cmd in (record l { ends = ends }, out)
  step_life l (act drop_handle) = (record l { ends = record l.ends { held = false } }, [])
  step_life l (act receive) = if l.looping then received_life l (ch.recv l.ends.queue) else (l, [])
  step_life l (act (read r)) =
      if l.looping then advance_life l l.ends.queue (Turn.read r) else (l, [])
  step_life l exits =
      let gone = record l { child = false } in
      if l.child then (if l.looping then (gone, []) else close gone) else (l, [])

  unfoldable pub steps_life : Life W Q → List Event → Life W Q × List Effect
  steps_life l [] = (l, [])
  steps_life l (e ∷ events) =
      let (l', now) = step_life l e in
      let (l'', later) = steps_life l' events in (l'', now ++ later)

  pub steps_life-append :
      (l : Life W Q) (xs ys : List Event)
      → (steps_life l (xs ++ ys)).0 ≡ (steps_life (steps_life l xs).0 ys).0
  unfolding steps_life
  steps_life-append l [] ys = refl
  steps_life-append l (e ∷ xs) ys = steps_life-append (step_life l e).0 xs ys

  pub steps_life-last :
      (l : Life W Q) (xs : List Event) (e : Event)
      → (steps_life l (xs ++ e ∷ [])).0 ≡ (step_life (steps_life l xs).0 e).0
  unfolding steps_life
  steps_life-last l xs e = steps_life-append l xs (e ∷ [])

  -- Without a child, the ends as they are.
  abbrev pub childless : Ends W Q × List Effect → Life W Q × List Effect
  childless (s, out) = (record { ends = s; looping = s.running; child = false }, out)

  advance-childless :
      (s : Ends W Q) (q : Q) (u : Turn)
      → s.running ≡ true
      → advance_life (record { ends = s; looping = true; child = false }) q u
        ≡ childless (advance io ch s q u)
  unfolding advance_life advance close
  advance-childless s q u on = elim (Bool-cases (turn io s.task u).1) [
    | inl more ↦ simp (more, on) refl
    | inr less ↦ simp less refl
  ]

  received-childless :
      (s : Ends W Q) (r : Option Request × Q)
      → s.running ≡ true
      → received_life (record { ends = s; looping = true; child = false }) r
        ≡ childless (received io ch s r)
  unfolding received_life received
  received-childless s (some r, q) on = advance-childless s q (request (some r)) on
  received-childless s (none, q) on = elim (Bool-cases s.held) [
    | inl alive ↦ simp (alive, on) refl
    | inr dropped ↦ simp dropped (advance-childless s q (request none) on)
  ]

  pub command-running :
      (s : Ends W Q) (tx : Sender) (cmd : Text) → (command io ch s tx cmd).0.running ≡ s.running
  unfolding command
  command-running s tx cmd = ground arith

  pub step-childless :
      (s : Ends W Q) (a : Act)
      → step_life (record { ends = s; looping = s.running; child = false }) (act a)
        ≡ childless (step io ch s a)
  unfolding step_life step
  step-childless s (call tx cmd) =
      let (s', out) = command io ch s tx cmd in
      ap (λ b. (record { ends = s'; looping = b; child = false }, out))
        (sym (command-running s tx cmd))
  step-childless s drop_handle = refl
  step-childless s receive = elim (Bool-cases s.running) [
    | inl on ↦ simp on (received-childless s (ch.recv s.queue) on)
    | inr off ↦ simp off refl
  ]
  step-childless s (read r) = elim (Bool-cases s.running) [
    | inl on ↦ simp on (advance-childless s s.queue (Turn.read r) on)
    | inr off ↦ simp off refl
  ]
