-- ===== src/Driver/Handle/Projection.antt =====
-- src/tokio_rt.rs: the owner task at its end of the channel, as a task over the turns that it gets.
use tmuxctl.Base.{
  ◌≡◌, refl, sym, ap, ◌∙◌, Bool, true, false, Option, none, some, List, [], ◌∷◌, ◌++◌, append_assoc,
  append-nil, Text, if◌then◌else◌, Bool-cases, inl, inr,
}
use tmuxctl.Driver.Blocking.{Write, Sender, Effect, event, sent, waits, refused}
use tmuxctl.Driver.Owner.{Task, Turn, request, turn, teardown, owner_task}
use tmuxctl.Driver.Handle.{
  Request, Channel, Ends, Act, call, drop_handle, receive, read, refuse, command, advance, received,
  step, steps,
}

-- What is heard of the task: the refusals of requests are left out, which the channel may also make.
abbrev pub heard : List Effect → List Effect
heard [] = []
heard (event n ∷ out) = event n ∷ heard out
heard (sent tx r ∷ out) = sent tx r ∷ heard out
heard (waits tx cmd ∷ out) = waits tx cmd ∷ heard out
heard (refused tx ∷ out) = heard out

pub heard-append : (xs ys : List Effect) → heard (xs ++ ys) ≡ heard xs ++ heard ys
heard-append [] ys = refl
heard-append (event n ∷ xs) ys = ap (◌∷◌ (event n)) (heard-append xs ys)
heard-append (sent tx r ∷ xs) ys = ap (◌∷◌ (sent tx r)) (heard-append xs ys)
heard-append (waits tx cmd ∷ xs) ys = ap (◌∷◌ (waits tx cmd)) (heard-append xs ys)
heard-append (refused tx ∷ xs) ys = heard-append xs ys

heard-refuse : (rs : List Request) → heard (refuse rs) ≡ []
heard-refuse [] = refl
heard-refuse ((cmd, tx) ∷ rs) = heard-refuse rs

-- What is heard of a run of the task, with the task and whether it runs.
abbrev pub run_heard : {W : Type 0} → (Task W × List Effect) × Bool → (Task W × List Effect) × Bool
run_heard ((t, out), running) = ((t, heard out), running)

-- Effects, and then a run.
abbrev after :
    {W : Type 0} → List Effect → (Task W × List Effect) × Bool → (Task W × List Effect) × Bool
after now ((t, later), running) = ((t, now ++ later), running)

module _ {W : Type 0} (io : Write W) where
  after-after :
      (xs ys : List Effect) (r : (Task W × List Effect) × Bool)
      → after xs (after ys r) ≡ after (xs ++ ys) r
  after-after xs ys ((t, out), running) =
      ap (λ out. ((t, out), running)) (sym (append_assoc xs ys out))

  -- The task over the turns of two lists, if it runs after the first.
  owner_task-append :
      (t : Task W) (xs ys : List Turn)
      → owner_task io t (xs ++ ys) ≡ (
          let ((t', now), running) = owner_task io t xs in
          if running then after now (owner_task io t' ys) else ((t', now), false))
  unfolding owner_task
  owner_task-append t [] ys = refl
  owner_task-append t (u ∷ xs) ys =
      let ((t', out), goes_on) = turn io t u in
      elim (Bool-cases goes_on) [
        | inr less ↦ simp less refl
        | inl more ↦
            let later = owner_task-append t' xs ys in
            simp more (elim (Bool-cases (owner_task io t' xs).1) [
              | inl on ↦
                  let (t'', more_out) = (owner_task io t' xs).0 in
                  simp on (
                    ap (after out) (simp on at later)
                    ∙ after-after out more_out (owner_task io t'' ys))
              | inr off ↦ simp off (ap (after out) (simp off at later))
            ])
      ]

module _ {W Q : Type 0} (io : Write W) (ch : Channel Q) where
  -- The turn in which `recv` gives something, if it does.
  abbrev pub recv_turn : Ends W Q → Option Request → List Turn
  recv_turn s (some r) = request (some r) ∷ []
  recv_turn s none = if s.held then [] else request none ∷ []

  -- The turn of a step, if it is one.
  unfoldable pub turn_of : Ends W Q → Act → List Turn
  turn_of s (call tx cmd) = []
  turn_of s drop_handle = []
  turn_of s receive = if s.running then recv_turn s (ch.recv s.queue).0 else []
  turn_of s (read r) = if s.running then Turn.read r ∷ [] else []

  -- The turns that the task gets.
  unfoldable pub turns_of : Ends W Q → List Act → List Turn
  turns_of s [] = []
  turns_of s (a ∷ acts) = turn_of s a ++ turns_of (step io ch s a).0 acts

  -- The state and the effects, as those of the task.
  abbrev pub as_run : Ends W Q × List Effect → (Task W × List Effect) × Bool
  as_run (s, out) = ((s.task, heard out), s.running)

  run-after :
      (s' : Ends W Q × List Effect) (now : List Effect)
      → as_run (s'.0, now ++ s'.1) ≡ after (heard now) (as_run s')
  run-after (s', later) now = ap (λ out. ((s'.task, out), s'.running)) (heard-append now later)

  advance-run :
      (s : Ends W Q) (q : Q) (u : Turn)
      → s.running ≡ true
      → as_run (advance io ch s q u) ≡ run_heard (owner_task io s.task (u ∷ []))
  unfolding advance owner_task
  advance-run s q u on =
      let ((t, out), goes_on) = turn io s.task u in
      let (ended, last) = teardown io t in
      elim (Bool-cases goes_on) [
        | inl more ↦ simp (more, on, append-nil) refl
        | inr less ↦ simp less (
            ap (λ x. ((ended, x), false))
              (heard-append (out ++ last) (refuse (ch.close q).0)
                ∙ ap (λ x. heard (out ++ last) ++ x) (heard-refuse (ch.close q).0)
                ∙ append-nil (heard (out ++ last))))
      ]

  received-run :
      (s : Ends W Q) (r : Option Request × Q)
      → s.running ≡ true
      → as_run (received io ch s r) ≡ run_heard (owner_task io s.task (recv_turn s r.0))
  unfolding received owner_task
  received-run s (some r, q) on = advance-run s q (request (some r)) on
  received-run s (none, q) on = elim (Bool-cases s.held) [
    | inl alive ↦ simp alive (ap (λ b. ((s.task, []), b)) on)
    | inr dropped ↦ simp dropped (advance-run s q (request none) on)
  ]

  command-run :
      (s : Ends W Q) (tx : Sender) (cmd : Text)
      → as_run (command io ch s tx cmd) ≡ ((s.task, []), s.running)
  unfolding command
  command-run s tx cmd = elim (Bool-cases s.held) [
    | inr dropped ↦ simp dropped refl
    | inl alive ↦ elim (Bool-cases s.running) [
      | inl on ↦ simp (alive, on) refl
      | inr off ↦ simp (alive, off) refl
    ]
  ]

  pub step-run :
      (s : Ends W Q) (a : Act)
      → s.running ≡ true
      → as_run (step io ch s a) ≡ run_heard (owner_task io s.task (turn_of s a))
  unfolding step turn_of owner_task
  step-run s (call tx cmd) on = command-run s tx cmd ∙ ap (λ b. ((s.task, []), b)) on
  step-run s drop_handle on = ap (λ b. ((s.task, []), b)) on
  step-run s receive on = simp on (received-run s (ch.recv s.queue) on)
  step-run s (read r) on = simp on (advance-run s s.queue (Turn.read r) on)

  -- Once the task has ended it gets no turn, and nothing more is heard of it.
  pub step-off :
      (s : Ends W Q) (a : Act)
      → s.running ≡ false
      → (turn_of s a ≡ []) × (as_run (step io ch s a) ≡ ((s.task, []), false))
  unfolding step turn_of
  step-off s (call tx cmd) off = (refl, command-run s tx cmd ∙ ap (λ b. ((s.task, []), b)) off)
  step-off s drop_handle off = (refl, ap (λ b. ((s.task, []), b)) off)
  step-off s receive off = simp off (refl, refl)
  step-off s (read r) off = simp off (refl, refl)

  pub steps-off :
      (s : Ends W Q) (acts : List Act)
      → s.running ≡ false
      → (turns_of s acts ≡ []) × (as_run (steps io ch s acts) ≡ ((s.task, []), false))
  unfolding steps turns_of
  steps-off s [] off = (refl, ap (λ b. ((s.task, []), b)) off)
  steps-off s (a ∷ acts) off =
      let (s', now) = step io ch s a in
      let (no_turn, same) = step-off s a off in
      let (no_turns, later) = steps-off s' acts (ap (λ x. x.1) same) in
      (
        rw (no_turn, no_turns) refl,
        run-after (steps io ch s' acts) now
            ∙ ap (after (heard now)) later
            ∙ ap (λ out. ((s'.task, out), false)) (append-nil (heard now))
            ∙ ap (λ b. ((s'.task, heard now), b)) (sym (ap (λ x. x.1) same))
            ∙ same,
      )

  run_heard-after :
      (xs : List Effect) (r : (Task W × List Effect) × Bool)
      → run_heard (after xs r) ≡ after (heard xs) (run_heard r)
  run_heard-after xs ((t, out), running) = ap (λ out. ((t, out), running)) (heard-append xs out)

  -- What is heard of a task that runs is what it does over its turns.
  pub steps-run :
      (s : Ends W Q) (acts : List Act)
      → s.running ≡ true
      → as_run (steps io ch s acts) ≡ run_heard (owner_task io s.task (turns_of s acts))
  unfolding steps turns_of
  steps-run s [] on = unfold owner_task in ap (λ b. ((s.task, []), b)) on
  steps-run s (a ∷ acts) on =
      let (s', now) = step io ch s a in
      let first = step-run s a on in
      let run = owner_task io s.task (turn_of s a) in
      let both = owner_task-append io s.task (turn_of s a) (turns_of s' acts) in
      run-after (steps io ch s' acts) now ∙ elim (Bool-cases s'.running) [
        | inl on' ↦
            let going : run.1 ≡ true = sym (ap (λ x. x.1) first) ∙ on' in
            ap (after (heard now)) (steps-run s' acts on')
            ∙ ap
                (λ (x : List Effect × Task W).
                  after x.0 (run_heard (owner_task io x.1 (turns_of s' acts))))
                (ap (λ x. (x.0.1, x.0.0)) first)
            ∙ sym (run_heard-after run.0.1 (owner_task io run.0.0 (turns_of s' acts)))
            ∙ sym (ap run_heard (simp going at both))
        | inr off' ↦
            let (no_turns, same) = steps-off s' acts off' in
            ap (after (heard now)) same
            ∙ ap (λ out. ((s'.task, out), false)) (append-nil (heard now))
            ∙ ap (λ b. ((s'.task, heard now), b)) (sym off')
            ∙ first
            ∙ ap (λ us. run_heard (owner_task io s.task us))
                (sym (ap (◌++◌ (turn_of s a)) no_turns ∙ append-nil (turn_of s a)))
      ]
