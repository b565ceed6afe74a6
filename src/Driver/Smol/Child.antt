-- ===== src/Driver/Smol/Child.antt =====
-- src/smol_rt.rs: a client over a child process, whose task waits for the child behind its loop,
-- beside the tokio client. The exit of the child is an input.
use tmuxctl.Base.{
  ◌≡◌, refl, sym, ap, ◌∙◌, Bool, true, false, Option, none, some, List, [], ◌∷◌, ◌++◌,
  if◌then◌else◌, ◌>>=◌, Bool-cases, inl, inr,
}
use tmuxctl.Spawn.{SpawnOpts, argv}
use tmuxctl.Driver.Blocking.{Write, Process, Effect}
use tmuxctl.Driver.Methods
use tmuxctl.Driver.Handle.{Request, Channel, Act, call, drop_handle, receive, read, refuse}
use tmuxctl.Driver.Handle
use tmuxctl.Driver.Handle.Child as Tokio
use tmuxctl.Driver.Handle.Child.{Life, Event, act, exits}
use tmuxctl.Driver.Smol.{Step, arm, teardown}
use tmuxctl.Driver.Smol.Handle.{SmolEnds, from_parts, command, ends_of, step, step_same}
use tmuxctl.Driver.Smol.Same.{turn_of, arm_same, teardown_same}

-- The two ends, of which the task's is alive while it runs; whether its loop goes on; and whether there
-- is a child that has not exited.
pub record SmolLife (W Q : Type 0) : Type 0 where
  pub ends : SmolEnds W Q
  pub looping : Bool
  pub child : Bool

-- `SmolClient`: the receiver of the notifications is there until it is taken.
pub record SmolClient (W Q E : Type 0) : Type 0 where
  pub life : SmolLife W Q
  pub receiver : Option E

unfoldable pub events : {W Q E : Type 0} → SmolClient W Q E → SmolClient W Q E × Option E
events c = let (left, taken) = Methods.events c.receiver in (record c { receiver = left }, taken)

module _ {W Q : Type 0} (io : Write W) (ch : Channel Q) where
  unfoldable pub client_over : {E : Type 0} → W → Bool → E → SmolClient W Q E
  client_over w child ev_rx = record {
    life = record { ends = from_parts io ch w; looping = true; child = child };
    receiver = some ev_rx;
  }

  -- `spawn`: the program runs with the arguments of the options, and the client is over its pipes.
  unfoldable pub spawn : {E C : Type 0} → Process W C → SpawnOpts → E → Option (SmolClient W Q E)
  spawn os opts ev_rx = do
    (stdin, child) ← os.run opts.program (argv opts)
    some (client_over stdin true ev_rx)

  unfoldable pub with_transport : {E : Type 0} → W → E → SmolClient W Q E
  with_transport w ev_rx = client_over w false ev_rx

  -- The receiver is dropped with what is left in the channel.
  unfoldable pub close : SmolLife W Q → SmolLife W Q × List Effect
  close l =
      let (dropped, left) = ch.close l.ends.queue in
      (record l { ends = record l.ends { queue = left; running = false } }, refuse dropped)

  -- What the race gives, and what follows the loop if that ends it, up to the child's exit.
  unfoldable pub advance_life : SmolLife W Q → Q → Step → SmolLife W Q × List Effect
  advance_life l q u =
      let ((locals, out), goes_on) = arm io l.ends.locals u in
      let (ended, last) = teardown io locals in
      let reaping = record l {
        ends = record l.ends { locals = ended; queue = q };
        looping = false;
      } in
      let (over, refusals) = close reaping in
      if goes_on
      then (record l { ends = record l.ends { locals = locals; queue = q } }, out)
      else (if l.child then (reaping, out ++ last) else (over, (out ++ last) ++ refusals))

  unfoldable pub received_life : SmolLife W Q → Option Request × Q → SmolLife W Q × List Effect
  received_life l (some r, q) = advance_life l q (Step.command (some r))
  received_life l (none, q) = if l.ends.held then (l, []) else advance_life l q (Step.command none)

  unfoldable pub step_life : SmolLife W Q → Event → SmolLife W Q × List Effect
  step_life l (act (call reply cmd)) =
      let (ends, out) = command io ch l.ends reply cmd in (record l { ends = ends }, out)
  step_life l (act drop_handle) = (record l { ends = record l.ends { held = false } }, [])
  step_life l (act receive) = if l.looping then received_life l (ch.recv l.ends.queue) else (l, [])
  step_life l (act (read r)) =
      if l.looping then advance_life l l.ends.queue (Step.read r) else (l, [])
  step_life l exits =
      let gone = record l { child = false } in
      if l.child then (if l.looping then (gone, []) else close gone) else (l, [])

  unfoldable pub steps_life : SmolLife W Q → List Event → SmolLife W Q × List Effect
  steps_life l [] = (l, [])
  steps_life l (e ∷ events) =
      let (l', now) = step_life l e in
      let (l'', later) = steps_life l' events in (l'', now ++ later)

-- The life of the client as that of the tokio client.
abbrev pub life_of : {W Q : Type 0} → SmolLife W Q → Life W Q
life_of l = record { ends = ends_of l.ends; looping = l.looping; child = l.child }

abbrev pub with_life : {W Q : Type 0} → SmolLife W Q × List Effect → Life W Q × List Effect
with_life (l, out) = (life_of l, out)

with_life_if :
    {W Q : Type 0} (b : Bool) (x y : SmolLife W Q × List Effect)
    → with_life (if b then x else y) ≡ (if b then with_life x else with_life y)
with_life_if true x y = refl
with_life_if false x y = refl

module _ {W Q : Type 0} (io : Write W) (ch : Channel Q) where
  advance_life_same :
      (l : SmolLife W Q) (q : Q) (u : Step)
      → with_life (advance_life io ch l q u) ≡ Tokio.advance_life io ch (life_of l) q (turn_of u)
  unfolding advance_life Tokio.advance_life close Tokio.close
  advance_life_same l q u =
      let locals = (arm io l.ends.locals u).0.0 in
      elim (Bool-cases (arm io l.ends.locals u).1) [
        | inl on ↦ rw (sym (arm_same io l.ends.locals u), on) refl
        | inr off ↦
            rw (sym (arm_same io l.ends.locals u), off, sym (teardown_same io locals))
              (with_life_if l.child _ _)
      ]

  received_life_same :
      (l : SmolLife W Q) (r : Option Request × Q)
      → with_life (received_life io ch l r) ≡ Tokio.received_life io ch (life_of l) r
  unfolding received_life Tokio.received_life
  received_life_same l (some r, q) = advance_life_same l q (Step.command (some r))
  received_life_same l (none, q) =
      with_life_if l.ends.held _ _
      ∙ ap (λ x. if l.ends.held then (life_of l, []) else x)
          (advance_life_same l q (Step.command none))

  step_life_same :
      (l : SmolLife W Q) (e : Event)
      → with_life (step_life io ch l e) ≡ Tokio.step_life io ch (life_of l) e
  unfolding step_life Tokio.step_life step Handle.step close Tokio.close
  step_life_same l (act (call reply cmd)) =
      ap (λ x. (record { ends = x.0; looping = l.looping; child = l.child }, x.1))
        (step_same io ch l.ends (call reply cmd))
  step_life_same l (act drop_handle) = refl
  step_life_same l (act receive) =
      with_life_if l.looping _ _
      ∙ ap (λ x. if l.looping then x else (life_of l, []))
          (received_life_same l (ch.recv l.ends.queue))
  step_life_same l (act (read r)) =
      with_life_if l.looping _ _
      ∙ ap (λ x. if l.looping then x else (life_of l, []))
          (advance_life_same l l.ends.queue (Step.read r))
  step_life_same l exits =
      with_life_if l.child _ _
      ∙ ap (λ x. if l.child then x else (life_of l, [])) (with_life_if l.looping _ _)

  -- From any state, a smol client over a child process or over an injected transport does what the
  -- tokio client over the same does, in any interleaving of its callers, the drop of its handle, the
  -- races of its task and the exit of the child, over a channel that either may have: the same
  -- results, refusals and notifications in the same order, and the same engine, waiters and queue.
  pub life_same :
      (l : SmolLife W Q) (events : List Event)
      → with_life (steps_life io ch l events) ≡ Tokio.steps_life io ch (life_of l) events
  unfolding steps_life Tokio.steps_life
  life_same l [] = refl
  life_same l (e ∷ events) =
      rw (sym (step_life_same l e), sym (life_same (step_life io ch l e).0 events)) refl
