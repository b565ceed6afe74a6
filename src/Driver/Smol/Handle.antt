-- ===== src/Driver/Smol/Handle.antt =====
-- src/smol_rt.rs: the two ends of the smol client, its handle and the owner task, and that they do
-- what the two ends of the tokio client do.
use tmuxctl.Base.{
  ◌≡◌, refl, sym, ap, ◌∙◌, Bool, true, false, Option, none, some, List, [], ◌∷◌, ◌++◌, Text,
  if◌then◌else◌, Bool-cases, inl, inr,
}
use tmuxctl.Driver.Blocking.{Write, Sender, Effect, refused}
use tmuxctl.Driver.Handle.{Request, Channel, Ends, Act, call, drop_handle, receive, read, refuse}
use tmuxctl.Driver.Handle
use tmuxctl.Driver.Smol.{Step, Locals, start, arm, teardown}
use tmuxctl.Driver.Smol.Same.{task_of, turn_of, arm_same, teardown_same}

-- The locals of the task with its end of the channel, whether it runs, and whether the handle is
-- alive.
pub record SmolEnds (W Q : Type 0) : Type 0 where
  pub locals : Locals W
  pub queue : Q
  pub running : Bool
  pub held : Bool

module _ {W Q : Type 0} (io : Write W) (ch : Channel Q) where
  -- `from_parts` without a child.
  abbrev pub from_parts : W → SmolEnds W Q
  from_parts w = record { locals = start io w; queue = ch.empty; running = true; held = true }

  -- `command` up to its await: `try_send` fails once the channel is closed.
  unfoldable pub command : SmolEnds W Q → Sender → Text → SmolEnds W Q × List Effect
  command s reply cmd =
      if s.held
      then if s.running
        then (record s { queue = ch.send (cmd, reply) s.queue }, [])
        else (s, refused reply ∷ [])
      else (s, [])

  -- What the race gives goes through the loop's `match`, and what follows the loop runs if that ends
  -- it, where there is no child.
  unfoldable pub advance : SmolEnds W Q → Q → Step → SmolEnds W Q × List Effect
  advance s q u =
      let ((l, out), goes_on) = arm io s.locals u in
      let (ended, last) = teardown io l in
      let (dropped, left) = ch.close q in
      if goes_on then (record s { locals = l; queue = q }, out) else (
        record s { locals = ended; queue = left; running = false },
        (out ++ last) ++ refuse dropped,
      )

  -- What `recv().await.ok()` gives in the race, where `recv` fails once the channel is empty and the
  -- handle dropped.
  unfoldable pub received : SmolEnds W Q → Option Request × Q → SmolEnds W Q × List Effect
  received s (some r, q) = advance s q (Step.command (some r))
  received s (none, q) = if s.held then (s, []) else advance s q (Step.command none)

  unfoldable pub step : SmolEnds W Q → Act → SmolEnds W Q × List Effect
  step s (call reply cmd) = command s reply cmd
  step s drop_handle = (record s { held = false }, [])
  step s receive = if s.running then received s (ch.recv s.queue) else (s, [])
  step s (read r) = if s.running then advance s s.queue (Step.read r) else (s, [])

  unfoldable pub steps : SmolEnds W Q → List Act → SmolEnds W Q × List Effect
  steps s [] = (s, [])
  steps s (a ∷ acts) =
      let (s', now) = step s a in let (s'', later) = steps s' acts in (s'', now ++ later)

-- The two ends as those of the tokio client.
abbrev pub ends_of : {W Q : Type 0} → SmolEnds W Q → Ends W Q
ends_of s = record { task = task_of s.locals; queue = s.queue; running = s.running; held = s.held }

abbrev pub with_ends : {W Q : Type 0} → SmolEnds W Q × List Effect → Ends W Q × List Effect
with_ends (s, out) = (ends_of s, out)

with_ends_if :
    {W Q : Type 0} (b : Bool) (x y : SmolEnds W Q × List Effect)
    → with_ends (if b then x else y) ≡ (if b then with_ends x else with_ends y)
with_ends_if true x y = refl
with_ends_if false x y = refl

module _ {W Q : Type 0} (io : Write W) (ch : Channel Q) where
  advance_same :
      (s : SmolEnds W Q) (q : Q) (u : Step)
      → with_ends (advance io ch s q u) ≡ Handle.advance io ch (ends_of s) q (turn_of u)
  unfolding advance Handle.advance
  advance_same s q u =
      let l = (arm io s.locals u).0.0 in
      elim (Bool-cases (arm io s.locals u).1) [
        | inl on ↦ rw (sym (arm_same io s.locals u), on) refl
        | inr off ↦ rw (sym (arm_same io s.locals u), off, sym (teardown_same io l)) refl
      ]

  received_same :
      (s : SmolEnds W Q) (r : Option Request × Q)
      → with_ends (received io ch s r) ≡ Handle.received io ch (ends_of s) r
  unfolding received Handle.received
  received_same s (some r, q) = advance_same s q (Step.command (some r))
  received_same s (none, q) =
      with_ends_if s.held _ _
      ∙ ap (λ x. if s.held then (ends_of s, []) else x) (advance_same s q (Step.command none))

  pub step_same :
      (s : SmolEnds W Q) (a : Act) → with_ends (step io ch s a) ≡ Handle.step io ch (ends_of s) a
  unfolding step Handle.step command Handle.command
  step_same s (call reply cmd) =
      with_ends_if s.held _ _
      ∙ ap (λ x. if s.held then x else (ends_of s, [])) (with_ends_if s.running _ _)
  step_same s drop_handle = refl
  step_same s receive =
      with_ends_if s.running _ _
      ∙ ap (λ x. if s.running then x else (ends_of s, [])) (received_same s (ch.recv s.queue))
  step_same s (read r) =
      with_ends_if s.running _ _
      ∙ ap (λ x. if s.running then x else (ends_of s, [])) (advance_same s s.queue (Step.read r))

  -- From any state, and without a child, the smol client does what the tokio client does, in any interleaving of its
  -- callers, the drop of its handle and the races of its task, over a channel that either may have:
  -- the same results, refusals and notifications in the same order, and the same engine, waiters
  -- and queue.
  pub steps_same :
      (s : SmolEnds W Q) (acts : List Act)
      → with_ends (steps io ch s acts) ≡ Handle.steps io ch (ends_of s) acts
  unfolding steps Handle.steps
  steps_same s [] = refl
  steps_same s (a ∷ acts) = rw (sym (step_same s a), sym (steps_same (step io ch s a).0 acts)) refl
