-- ===== src/Driver/Owner.antt =====
-- src/tokio_rt.rs: the client whose engine belongs to one task, which takes turns: it receives a
-- request from a caller, or a read returns. The order of the turns and what they bring are inputs,
-- and the transport's `AsyncWrite` is a parameter, with the operations of the blocking one.
pub mod Same
pub mod Drained
pub mod Refines
use tmuxctl.Base.{
  ℕ, Bool, true, false, Option, none, some, List, [], ◌∷◌, ◌++◌, Text, Bytes, if◌then◌else◌,
}
use tmuxctl.Engine.{Engine, CommandId, CommandResult, Incoming, register_command, feed, on_eof}
use tmuxctl.Engine
use tmuxctl.Driver.Blocking.{
  Write, Sender, Waiters, Effect, event, sent, waits, refused, remove, insert, notify,
  write_command,
}

-- The locals of `owner_task` that change.
pub record Task (W : Type 0) : Type 0 where
  pub engine : Engine
  pub writer : W
  pub waiters : Waiters

-- What `select!` gives: `commands.recv()`, which is `None` once all handles are dropped, or
-- `reader.read(&mut buf)`, of which `none` is an error and no byte the end of the stream.
pub data Turn : Type 0 where
  request : Option (Text × Sender) → Turn
  read : Option Bytes → Turn

unfoldable pub resolve : Waiters → CommandId → CommandResult → Waiters × List Effect
resolve waiters id result = let (waiter, rest) = remove id waiters in (rest, notify waiter result)

-- The loop over what `feed` returns.
unfoldable pub deliver : List Incoming → Waiters → Waiters × List Effect
deliver [] ws = (ws, [])
deliver (Incoming.notification n ∷ incoming) ws =
    let (ws', out) = deliver incoming ws in (ws', event n ∷ out)
deliver (Incoming.reply id result ∷ incoming) ws =
    let (ws', now) = resolve ws id result in
    let (ws'', later) = deliver incoming ws' in (ws'', now ++ later)

-- The loop over what `on_eof` returns.
unfoldable pub resolve_all : List Incoming → Waiters → Waiters × List Effect
resolve_all [] ws = (ws, [])
resolve_all (Incoming.notification n ∷ incoming) ws = resolve_all incoming ws
resolve_all (Incoming.reply id result ∷ incoming) ws =
    let (ws', now) = resolve ws id result in
    let (ws'', later) = resolve_all incoming ws' in (ws'', now ++ later)

module _ {W : Type 0} (io : Write W) where
  abbrev pub start : W → Task W
  start w = record { engine = Engine.new; writer = w; waiters = [] }

  -- The body of the loop; the test says whether the loop goes on.
  unfoldable pub turn : Task W → Turn → (Task W × List Effect) × Bool
  turn t (request none) = ((t, []), false)
  turn t (request (some (cmd, tx))) =
      let (engine, id) = register_command t.engine in
      let (writer, written) = write_command io t.writer cmd in
      if written
      then (
        (
          record { engine = engine; writer = writer; waiters = insert id tx t.waiters },
          waits tx cmd ∷ [],
        ),
        true,
      )
      else ((record t { engine = engine; writer = writer }, refused tx ∷ []), false)
  turn t (read none) = ((t, []), false)
  turn t (read (some [])) = ((t, []), false)
  turn t (read (some (b ∷ input))) =
      let (engine, incoming) = feed t.engine (b ∷ input) in
      let (waiters, out) = deliver incoming t.waiters in
      ((record t { engine = engine; waiters = waiters }, out), true)

  -- What follows the loop: the empty line that detaches, and the commands that are outstanding.
  unfoldable pub teardown : Task W → Task W × List Effect
  teardown t =
      let (engine, incoming) = on_eof t.engine in
      let (waiters, out) = resolve_all incoming t.waiters in
      (
        record { engine = engine; writer = (write_command io t.writer []).0; waiters = waiters },
        out,
      )

  -- The task over the turns it gets; the test says whether it still runs after them.
  unfoldable pub owner_task : Task W → List Turn → (Task W × List Effect) × Bool
  owner_task t [] = ((t, []), true)
  owner_task t (u ∷ turns) =
      let ((t', out), goes_on) = turn t u in
      let ((t'', later), running) = owner_task t' turns in
      let (ended, last) = teardown t' in
      if goes_on then ((t'', out ++ later), running) else ((ended, out ++ last), false)
