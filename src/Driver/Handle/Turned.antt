-- ===== src/Driver/Handle/Turned.antt =====
-- src/tokio_rt.rs: the steps of the two ends and the turns of the task.
use tmuxctl.Base.{
  ◌⊎◌, ◌≤◌, length, arith, ◌≡◌, refl, sym, ap, ◌∙◌, true, Option, none, some, List, [], ◌∷◌,
  Bool-cases, inl, inr,
}
use tmuxctl.Driver.Blocking.{Write}
use tmuxctl.Driver.Owner.{Turn, request, turn, owner_task}
use tmuxctl.Driver.Handle.{Request, Channel, Ends, Act, call, drop_handle, receive, read, step}
use tmuxctl.Driver.Handle.Projection.{recv_turn, turn_of, turns_of, step-run}

module _ {W Q : Type 0} (io : Write W) (ch : Channel Q) where
  -- A step is one turn of the task, or none.
  pub turn_of-cases :
      (s : Ends W Q) (a : Act)
      → (turn_of io ch s a ≡ []) ⊎ ((u : Turn) × (turn_of io ch s a ≡ u ∷ []))
  unfolding turn_of
  turn_of-cases s (call tx cmd) = inl refl
  turn_of-cases s drop_handle = inl refl
  turn_of-cases s receive = elim (Bool-cases s.running) [
    | inr off ↦ simp off (inl refl)
    | inl on ↦ simp on (received_turn (ch.recv s.queue).0)
  ]
    where
      received_turn :
          (r : Option Request)
          → (recv_turn io ch s r ≡ []) ⊎ ((u : Turn) × (recv_turn io ch s r ≡ u ∷ []))
      received_turn (some r) = inr (request (some r), refl)
      received_turn none = elim (Bool-cases s.held) [
        | inl alive ↦ simp alive (inl refl)
        | inr dropped ↦ simp dropped (inr (request none, refl))
      ]
  turn_of-cases s (read r) = elim (Bool-cases s.running) [
    | inr off ↦ simp off (inl refl)
    | inl on ↦ simp on (inr (Turn.read r, refl))
  ]

  pub length-turns_of :
      (s : Ends W Q) (acts : List Act) → length (turns_of io ch s acts) ≤ length acts
  unfolding turns_of
  length-turns_of s [] = omega arith
  length-turns_of s (a ∷ acts) =
      let later = length-turns_of (step io ch s a).0 acts in
      elim (turn_of-cases s a) [
        | inl no_turn ↦ rw no_turn (omega (arith, later))
        | inr (u, one) ↦ rw one (omega (arith, later))
      ]

  -- A step that is no turn, and one that is.
  pub step-still :
      (s : Ends W Q) (a : Act)
      → s.running ≡ true
      → turn_of io ch s a ≡ []
      → ((step io ch s a).0.task ≡ s.task) × ((step io ch s a).0.running ≡ true)
  unfolding owner_task
  step-still s a on no_turn =
      let ran = step-run io ch s a on in
      let same = rw no_turn at ran in (ap (λ x. x.0.0) same, ap (λ x. x.1) same)

  pub step-turned :
      (s : Ends W Q) (a : Act) (u : Turn)
      → s.running ≡ true
      → turn_of io ch s a ≡ u ∷ []
      → ((turn io s.task u).1 ≡ (step io ch s a).0.running)
        × ((step io ch s a).0.running ≡ true → (step io ch s a).0.task ≡ (turn io s.task u).0.0)
  unfolding owner_task
  step-turned s a u on one =
      let ran = step-run io ch s a on in
      let same = rw one at ran in
      elim (Bool-cases (turn io s.task u).1) [
        | inl more ↦
            let same' = simp more at same in
            (more ∙ sym (ap (λ x. x.1) same'), λ _. ap (λ x. x.0.0) same')
        | inr less ↦
            let same' = simp less at same in
            (less ∙ sym (ap (λ x. x.1) same'), λ on'. absurd (cc (on', ap (λ x. x.1) same')))
      ]
