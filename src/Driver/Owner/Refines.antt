-- ===== src/Driver/Owner/Refines.antt =====
-- src/tokio_rt.rs: the owner task keeps the same contract as the blocking client.
use tmuxctl.Base.{
  ◌+◌, ◌<◌, ◌≡◌, refl, sym, ap, ◌∙◌, subst, Bool, true, false, none, some, List, [], ◌∷◌, ◌++◌,
  arith, length, if◌then◌else◌, Bool-cases, inl, inr,
}
use tmuxctl.Text.Number.{u64_bound}
use tmuxctl.Engine.{feed, on_eof}
use tmuxctl.Driver.Blocking.{Write, Sender, Shared, Effect, write_command}
use tmuxctl.Driver.Blocking
use tmuxctl.Driver.Blocking.Moves.{Waited, Moves}
use tmuxctl.Driver.Blocking.Refines.{view, dispatch-react, disconnect-react, command-react}
use tmuxctl.Driver.Owner.{Task, Turn, request, read, start, turn, teardown, owner_task}
use tmuxctl.Driver.Owner.Same.{shared, with_waiters, deliver_same, resolve_all_same}
use tmuxctl.Driver.Owner.Drained.{turn-Moves, command-fine, command-bad}
use tmuxctl.Driver.Contract.{
  Contract, Input, ask, receive, hang_up, react, reacts, reacts-append, one_input, fresh,
}

abbrev seen : {W : Type 0} → Shared W × List Effect → Contract × List Effect
seen (s, out) = (view s, out)

module _ {W : Type 0} (io : Write W) where
  -- What the contract sees of a turn, and of the turns a task takes: the session ends with the loop.
  abbrev pub inputs_of : Task W → Turn → List Input
  inputs_of t (request none) = []
  inputs_of t (request (some (cmd, tx))) = ask tx cmd (write_command io t.writer cmd).1 ∷ []
  inputs_of t (read none) = []
  inputs_of t (read (some [])) = []
  inputs_of t (read (some (b ∷ input))) = receive (b ∷ input) ∷ []

  unfoldable pub inputs : Task W → List Turn → List Input
  inputs t [] = []
  inputs t (u ∷ turns) =
      let ((t', out), goes_on) = turn io t u in
      let later = inputs t' turns in inputs_of t u ++ (if goes_on then later else hang_up ∷ [])

  pub turn-react :
      (t : Task W) (u : Turn)
      → t.engine.next_id + 1 < u64_bound
      → Waited (shared true t)
      → (b : Bool) × (reacts (view (shared true t)) (inputs_of t u)
          ≡ (view (shared b (turn io t u).0.0), (turn io t u).0.1))
        × ((turn io t u).1 ≡ true → b ≡ true)
  unfolding turn shared with_waiters Blocking.dispatch
  turn-react t (request none) h w = (true, unfold reacts in refl, λ _. refl)
  turn-react t (request (some (cmd, tx))) h w =
      let m = one_input _ _ (command-react io (shared true t) tx cmd h w) in
      elim (Bool-cases (write_command io t.writer cmd).1) [
        | inl fine ↦ (
          true,
          rw fine (
              ap (λ ok. reacts (view (shared true t)) (ask tx cmd ok ∷ [])) (sym fine)
              ∙ m
              ∙ ap seen (command-fine io t tx cmd fine)),
          λ _. refl,
        )
        | inr bad ↦ (
          false,
          rw bad (
              ap (λ ok. reacts (view (shared true t)) (ask tx cmd ok ∷ [])) (sym bad)
              ∙ m
              ∙ ap seen (command-bad io t tx cmd bad)),
          λ e. cc,
        )
      ]
  turn-react t (read none) h w = (true, unfold reacts in refl, λ _. refl)
  turn-react t (read (some [])) h w = (true, unfold reacts in refl, λ _. refl)
  turn-react t (read (some (b ∷ input))) h w =
      let (engine, incoming) = feed t.engine (b ∷ input) in
      (
        true,
        one_input _ _ (dispatch-react (shared true t) (b ∷ input) w)
            ∙ ap seen (deliver_same incoming (shared true (record t { engine = engine }))),
        λ _. refl,
      )

  pub teardown-react :
      (t : Task W) (b : Bool)
      → Waited (shared false t)
      → react (view (shared b t)) hang_up
        ≡ (view (shared false (teardown io t).0), (teardown io t).1)
  unfolding teardown shared view react Blocking.disconnect with_waiters
  teardown-react t b w =
      let (engine, incoming) = on_eof t.engine in
      disconnect-react (shared false t) w
      ∙ ap seen (resolve_all_same incoming (shared false (record t { engine = engine })))

  pub owner_task-reacts :
      (t : Task W) (turns : List Turn)
      → t.engine.next_id + length turns < u64_bound
      → Waited (shared true t)
      → reacts (view (shared true t)) (inputs t turns) ≡ (
        view (shared (owner_task io t turns).1 (owner_task io t turns).0.0),
        (owner_task io t turns).0.1,
      )
  unfolding inputs owner_task Moves
  owner_task-reacts t [] h w = unfold reacts in refl
  owner_task-reacts t (u ∷ turns) h w =
      let ((t', out), goes_on) = turn io t u in
      let (w', moved, lt) = turn-Moves io t u (unfold shared in omega arith) w in
      let (b, now, same) = turn-react t u (omega arith) w in
      reacts-append (view (shared true t)) (inputs_of t u)
        (if goes_on then inputs t' turns else hang_up ∷ [])
      ∙ rw now (elim (Bool-cases goes_on) [
        | inl on ↦
            let later =
              owner_task-reacts t' turns (unfold shared in omega arith)
                (subst (λ b. Waited (shared b t')) on w') in
            rw (on, same on, later) refl
        | inr off ↦
            let last =
              one_input _ _ (teardown-react t' b (subst (λ b. Waited (shared b t')) off w')) in
            rw (off, last) refl
      ])

-- Over fewer than 2^64 turns, the owner task does to the outside what the contract does: the same
-- notifications and results go to the same callers in the same order, and after the turns the
-- contract's state is what it sees of the task's. The contract's inputs are the requests received,
-- whether the transport took each, the bytes read, and the end of the loop.
pub owner_task_refines :
    {W : Type 0} (io : Write W) (w : W) (turns : List Turn)
    → length turns < u64_bound
    → let ((t, out), running) = owner_task io (start io w) turns in
      reacts fresh (inputs io (start io w) turns) ≡ (view (shared running t), out)
unfolding view shared Waited
owner_task_refines io w turns h =
    owner_task-reacts io (start io w) turns (omega arith) ([], refl, (λ _. refl), tt)
