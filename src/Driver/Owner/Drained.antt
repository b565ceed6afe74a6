-- ===== src/Driver/Owner/Drained.antt =====
-- src/tokio_rt.rs: who gets a result from the owner task.
use tmuxctl.Base.{
  ◌+◌, ◌<◌, ◌≡◌, refl, sym, ap, ◌∙◌, subst, true, false, none, some, List, [], ◌∷◌, ◌++◌,
  append_assoc, append-nil, arith, Text, length, Bool-cases, inl, inr,
}
use tmuxctl.Text.Number.{u64_bound}
use tmuxctl.Engine.{register_command, feed, on_eof}
use tmuxctl.Driver.Blocking.{Write, Sender, Waiters, Shared, Effect, waits, refused, write_command}
use tmuxctl.Driver.Blocking
use tmuxctl.Driver.Blocking.Waiting.{senders, answered, accepted, answered-append, accepted-append}
use tmuxctl.Driver.Blocking.Moves.{Waited, Moves, dispatch-Moves, disconnect-Moves, command-Moves}
use tmuxctl.Driver.Owner.Same.{shared, with_waiters, deliver_same, resolve_all_same}
use tmuxctl.Driver.Owner.{Task, Turn, request, read, start, turn, teardown, owner_task}

-- Those who wait are answered from the front, and new ones wait behind.
Answers : Waiters → Waiters × List Effect → Type 0
Answers ws (ws', out) = answered out ++ senders ws' ≡ senders ws ++ accepted out

Answers-trans :
    (ws ws' ws'' : Waiters) (now later : List Effect)
    → Answers ws (ws', now)
    → Answers ws' (ws'', later)
    → Answers ws (ws'', now ++ later)
unfolding Answers
Answers-trans ws ws' ws'' now later a b =
    ap (λ xs. xs ++ senders ws'') (answered-append now later)
    ∙ append_assoc (answered now) (answered later) (senders ws'')
    ∙ ap (◌++◌ (answered now)) b
    ∙ sym (append_assoc (answered now) (senders ws') (accepted later))
    ∙ ap (λ xs. xs ++ accepted later) a
    ∙ append_assoc (senders ws) (accepted now) (accepted later)
    ∙ ap (◌++◌ (senders ws)) (sym (accepted-append now later))

module _ {W : Type 0} where
  ends : (t : Task W) → Waited (shared true t) → Moves (shared true t) (shared false t, [])
  unfolding Moves Waited shared
  ends t (orphans, q, c, lt) =
      ((orphans, q, (λ e. cc), lt), sym (append-nil (senders t.waiters)), omega arith)

module _ {W : Type 0} (io : Write W) where
  pub command-fine :
      (t : Task W) (tx : Sender) (cmd : Text)
      → (write_command io t.writer cmd).1 ≡ true
      → Blocking.command io (shared true t) tx cmd ≡ (
        shared true (record {
          engine = (register_command t.engine).0;
          writer = (write_command io t.writer cmd).0;
          waiters = Blocking.insert (register_command t.engine).1 tx t.waiters;
        }),
        waits tx cmd ∷ [],
      )
  unfolding Blocking.command shared
  command-fine t tx cmd fine = simp fine refl

  pub command-bad :
      (t : Task W) (tx : Sender) (cmd : Text)
      → (write_command io t.writer cmd).1 ≡ false
      → Blocking.command io (shared true t) tx cmd ≡ (
        shared false (record t {
          engine = (register_command t.engine).0;
          writer = (write_command io t.writer cmd).0;
        }),
        refused tx ∷ [],
      )
  unfolding Blocking.command shared
  command-bad t tx cmd bad = simp bad refl

  pub turn-Moves :
      (t : Task W) (u : Turn)
      → t.engine.next_id + 1 < u64_bound
      → Waited (shared true t)
      → Moves (shared true t) (shared (turn io t u).1 (turn io t u).0.0, (turn io t u).0.1)
  unfolding turn shared with_waiters
  turn-Moves t (request none) h w = ends t w
  turn-Moves t (request (some (cmd, tx))) h w =
      let m = command-Moves io (shared true t) tx cmd h w in
      elim (Bool-cases (write_command io t.writer cmd).1) [
        | inl fine ↦ rw fine (subst (Moves (shared true t)) (command-fine t tx cmd fine) m)
        | inr bad ↦ rw bad (subst (Moves (shared true t)) (command-bad t tx cmd bad) m)
      ]
  turn-Moves t (read none) h w = ends t w
  turn-Moves t (read (some [])) h w = ends t w
  turn-Moves t (read (some (b ∷ input))) h w =
      let (engine, incoming) = feed t.engine (b ∷ input) in
      subst (Moves (shared true t))
        (deliver_same incoming (shared true (record t { engine = engine })))
        (unfold Blocking.dispatch in dispatch-Moves (shared true t) (b ∷ input) w)

  teardown-Answers :
      (t : Task W)
      → Waited (shared false t)
      → Answers t.waiters ((teardown io t).0.waiters, (teardown io t).1)
        × (senders (teardown io t).0.waiters ≡ [])
  unfolding teardown shared Answers Moves Blocking.disconnect with_waiters
  teardown-Answers t w =
      let (m, none_left, off) = disconnect-Moves (shared false t) w in
      let (engine, incoming) = on_eof t.engine in
      subst
        (λ x.
          (answered x.1 ++ senders x.0.waiters ≡ senders t.waiters ++ accepted x.1)
          × (senders x.0.waiters ≡ []))
        (resolve_all_same incoming (shared false (record t { engine = engine }))) (m.1, none_left)

  owner_task-Answers :
      (t : Task W) (turns : List Turn)
      → t.engine.next_id + length turns < u64_bound
      → Waited (shared true t)
      → Answers t.waiters ((owner_task io t turns).0.0.waiters, (owner_task io t turns).0.1)
        × ((owner_task io t turns).1 ≡ false → senders (owner_task io t turns).0.0.waiters ≡ [])
  unfolding owner_task Moves shared
  owner_task-Answers t [] h w = (unfold Answers in sym (append-nil (senders t.waiters)), λ e. cc)
  owner_task-Answers t (u ∷ turns) h w =
      let ((t', out), goes_on) = turn io t u in
      let (w', moved, lt) = turn-Moves t u (omega arith) w in
      let moved' : Answers t.waiters (t'.waiters, out) = unfold Answers in moved in
      elim (Bool-cases goes_on) [
        | inl on ↦
            let (later, drained) =
              owner_task-Answers t' turns (omega arith) (subst (λ b. Waited (shared b t')) on w') in
            rw on (Answers-trans t.waiters t'.waiters _ out _ moved' later, drained)
        | inr off ↦
            let (last, none_left) =
              teardown-Answers t' (subst (λ b. Waited (shared b t')) off w') in
            rw off (Answers-trans t.waiters t'.waiters _ out _ moved' last, λ _. none_left)
      ]

-- Over fewer than 2^64 turns of a new task, whatever they bring and whatever its transport does,
-- results are sent to the callers whose commands it wrote, one each and in the order of their
-- requests: those answered and then those still waiting are those whose commands were written.
pub owner_task-answered :
    {W : Type 0} (io : Write W) (w : W) (turns : List Turn)
    → length turns < u64_bound
    → let (t, out) = (owner_task io (start io w) turns).0 in
      answered out ++ senders t.waiters ≡ accepted out
unfolding Answers Waited shared
owner_task-answered io w turns h =
    (owner_task-Answers io (start io w) turns (omega arith) ([], refl, (λ _. refl), tt)).0

-- Once the owner task of a new client has ended, over fewer than 2^64 turns, every caller whose
-- command it wrote has been sent exactly one result, in the order of the requests, and nobody
-- waits.
pub owner_task_drained :
    {W : Type 0} (io : Write W) (w : W) (turns : List Turn)
    → length turns < u64_bound
    → (owner_task io (start io w) turns).1 ≡ false
    → let (t, out) = (owner_task io (start io w) turns).0 in
      (answered out ≡ accepted out) × (senders t.waiters ≡ [])
unfolding Waited shared
owner_task_drained io w turns h ended =
    let (t, out) = (owner_task io (start io w) turns).0 in
    let none_left =
      (owner_task-Answers io (start io w) turns (omega arith) ([], refl, (λ _. refl), tt)).1
        ended in
    (
      sym (append-nil (answered out))
          ∙ ap (◌++◌ (answered out)) (sym none_left)
          ∙ owner_task-answered io w turns h,
      none_left,
    )
