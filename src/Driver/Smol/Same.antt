-- ===== src/Driver/Smol/Same.antt =====
-- src/smol_rt.rs, src/tokio_rt.rs: the two owner tasks do the same.
use tmuxctl.Base.{
  ◌≡◌, refl, sym, ap, Bool, Option, none, some, List, [], ◌∷◌, map, Bool-cases, inl, inr, Text,
}
use tmuxctl.Engine.{CommandId, CommandResult, Incoming, feed, on_eof}
use tmuxctl.Driver.Blocking.{Write, Waiters, Effect, event, notify, remove, Sender}
use tmuxctl.Driver.Blocking
use tmuxctl.Driver.Owner.{Task, Turn}
use tmuxctl.Driver.Owner
use tmuxctl.Driver.Smol.{
  Step, command, read, Locals, try_send, resolve, dispatch, fail_all, write_command, arm, teardown,
  owner_task,
}

-- A step as the other task's turn, and the locals as its task.
abbrev pub turn_of : Step → Turn
turn_of (command r) = Turn.request r
turn_of (read r) = Turn.read r

abbrev pub task_of : {W : Type 0} → Locals W → Task W
task_of l = record { engine = l.engine; writer = l.writer; waiters = l.waiters }

-- What a task leaves behind, as the other task's.
abbrev pub run_of : {W : Type 0} → (Locals W × List Effect) × Bool → (Task W × List Effect) × Bool
run_of ((l, out), goes_on) = ((task_of l, out), goes_on)

try_send_same : (waiter : Option Sender) (r : CommandResult) → try_send waiter r ≡ notify waiter r
unfolding try_send notify
try_send_same none r = refl
try_send_same (some tx) r = refl

resolve_same :
    (ws : Waiters) (id : CommandId) (r : CommandResult) → resolve ws id r ≡ Owner.resolve ws id r
unfolding resolve Owner.resolve
resolve_same ws id r = ap (λ out. ((remove id ws).1, out)) (try_send_same (remove id ws).0 r)

dispatch_same :
    (ws : Waiters) (incoming : List Incoming) → dispatch ws incoming ≡ Owner.deliver incoming ws
unfolding dispatch Owner.deliver
dispatch_same ws [] = refl
dispatch_same ws (Incoming.notification n ∷ incoming) =
    ap (λ x. (x.0, event n ∷ x.1)) (dispatch_same ws incoming)
dispatch_same ws (Incoming.reply id r ∷ incoming) =
    rw (resolve_same ws id r, dispatch_same (Owner.resolve ws id r).0 incoming) refl

fail_all_same :
    (ws : Waiters) (incoming : List Incoming) → fail_all ws incoming ≡ Owner.resolve_all incoming ws
unfolding fail_all Owner.resolve_all
fail_all_same ws [] = refl
fail_all_same ws (Incoming.notification n ∷ incoming) = fail_all_same ws incoming
fail_all_same ws (Incoming.reply id r ∷ incoming) =
    rw (resolve_same ws id r, fail_all_same (Owner.resolve ws id r).0 incoming) refl

module _ {W : Type 0} (io : Write W) where
  write_command_same :
      (w : W) (cmd : Text) → write_command io w cmd ≡ Blocking.write_command io w cmd
  unfolding write_command Blocking.write_command
  write_command_same w cmd = refl

  pub arm_same :
      (l : Locals W) (s : Step) → run_of (arm io l s) ≡ Owner.turn io (task_of l) (turn_of s)
  unfolding arm Owner.turn
  arm_same l (command none) = refl
  arm_same l (command (some (cmd, reply))) =
      rw (write_command_same l.writer cmd)
        (elim (Bool-cases (Blocking.write_command io l.writer cmd).1) [
          | inl fine ↦ simp fine refl
          | inr bad ↦ simp bad refl
        ])
  arm_same l (read none) = refl
  arm_same l (read (some [])) = refl
  arm_same l (read (some (b ∷ input))) =
      rw (dispatch_same l.waiters (feed l.engine (b ∷ input)).1) refl

  pub teardown_same :
      (l : Locals W)
      → (task_of (teardown io l).0, (teardown io l).1) ≡ Owner.teardown io (task_of l)
  unfolding teardown Owner.teardown
  teardown_same l =
      rw (write_command_same l.writer [], fail_all_same l.waiters (on_eof l.engine).1) refl

  -- The owner task of the smol client does what the tokio client's does, step by turn: the same
  -- effects in the same order, the same engine, transport and waiters, and it ends when that ends.
  pub owner_task_same :
      (l : Locals W) (steps : List Step)
      → run_of (owner_task io l steps) ≡ Owner.owner_task io (task_of l) (map turn_of steps)
  unfolding owner_task Owner.owner_task
  owner_task_same l [] = refl
  owner_task_same l (s ∷ steps) =
      let l' = (arm io l s).0.0 in
      elim (Bool-cases (arm io l s).1) [
        | inl on ↦ rw (sym (arm_same l s), on, sym (owner_task_same l' steps)) refl
        | inr off ↦ rw (sym (arm_same l s), off, sym (teardown_same l')) refl
      ]
