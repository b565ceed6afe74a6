-- ===== src/Driver/Smol.antt =====
-- src/smol_rt.rs: the owner task of the smol client, which takes what the race of `recv` with `read`
-- gives. The order of the race and what it brings are inputs, and the transport's `AsyncWrite` is a
-- parameter, with the operations of the blocking one.
pub mod Same
pub mod Handle
pub mod Child
use tmuxctl.Base.{
  Bool, true, false, Option, none, some, List, [], ◌∷◌, ◌++◌, Text, Bytes, if◌then◌else◌,
}
use tmuxctl.Text.Utf8.{as_bytes}
use tmuxctl.Engine.{Engine, CommandId, CommandResult, Incoming, register_command, feed, on_eof}
use tmuxctl.Engine
use tmuxctl.Driver.Handle.{Request}
use tmuxctl.Driver.Blocking.{
  Write, Sender, Waiters, Effect, event, sent, waits, refused, remove, insert, and_then,
}

-- What the race gives: `commands.recv().await.ok()`, or what `read` returns, of which `none` is an
-- error and no byte the end of the stream.
pub data Step : Type 0 where
  command : Option Request → Step
  read : Option Bytes → Step

-- The locals of `owner_task` that change.
pub record Locals (W : Type 0) : Type 0 where
  pub engine : Engine
  pub writer : W
  pub waiters : Waiters

-- `try_send` on the channel of the waiter that was removed, if there was one
unfoldable pub try_send : Option Sender → CommandResult → List Effect
try_send none result = []
try_send (some tx) result = sent tx result ∷ []

unfoldable pub resolve : Waiters → CommandId → CommandResult → Waiters × List Effect
resolve waiters id result = let (waiter, rest) = remove id waiters in (rest, try_send waiter result)

-- The loop over what `feed` returns.
unfoldable pub dispatch : Waiters → List Incoming → Waiters × List Effect
dispatch ws [] = (ws, [])
dispatch ws (Incoming.notification n ∷ incoming) =
    let (ws', out) = dispatch ws incoming in (ws', event n ∷ out)
dispatch ws (Incoming.reply id result ∷ incoming) =
    let (ws', now) = resolve ws id result in
    let (ws'', later) = dispatch ws' incoming in (ws'', now ++ later)

-- The loop over what `on_eof` returns.
unfoldable pub fail_all : Waiters → List Incoming → Waiters × List Effect
fail_all ws [] = (ws, [])
fail_all ws (Incoming.notification n ∷ incoming) = fail_all ws incoming
fail_all ws (Incoming.reply id result ∷ incoming) =
    let (ws', now) = resolve ws id result in
    let (ws'', later) = fail_all ws' incoming in (ws'', now ++ later)

module _ {W : Type 0} (io : Write W) where
  unfoldable pub write_command : W → Text → W × Bool
  write_command w cmd =
      and_then (io.write_all w (as_bytes cmd)) λ w. and_then (io.write_all w (b'\n' ∷ [])) io.flush

  abbrev pub start : W → Locals W
  start w = record { engine = Engine.new; writer = w; waiters = [] }

  -- The arms of the loop's `match`; the test says whether the loop goes on.
  unfoldable pub arm : Locals W → Step → (Locals W × List Effect) × Bool
  arm l (command none) = ((l, []), false)
  arm l (command (some (cmd, reply))) =
      let (engine, id) = register_command l.engine in
      let (writer, written) = write_command l.writer cmd in
      if written
      then (
        (
          record { engine = engine; writer = writer; waiters = insert id reply l.waiters },
          waits reply cmd ∷ [],
        ),
        true,
      )
      else ((record l { engine = engine; writer = writer }, refused reply ∷ []), false)
  arm l (read none) = ((l, []), false)
  arm l (read (some [])) = ((l, []), false)
  arm l (read (some (b ∷ input))) =
      let (engine, incoming) = feed l.engine (b ∷ input) in
      let (waiters, out) = dispatch l.waiters incoming in
      ((record l { engine = engine; waiters = waiters }, out), true)

  -- What follows the loop.
  unfoldable pub teardown : Locals W → Locals W × List Effect
  teardown l =
      let (writer, _) = write_command l.writer [] in
      let (engine, incoming) = on_eof l.engine in
      let (waiters, out) = fail_all l.waiters incoming in
      (record { engine = engine; writer = writer; waiters = waiters }, out)

  -- The task over what its races give; the test says whether it still runs after them.
  unfoldable pub owner_task : Locals W → List Step → (Locals W × List Effect) × Bool
  owner_task l [] = ((l, []), true)
  owner_task l (s ∷ steps) =
      let ((l', out), goes_on) = arm l s in
      let ((l'', later), running) = owner_task l' steps in
      let (ended, last) = teardown l' in
      if goes_on then ((l'', out ++ later), running) else ((ended, out ++ last), false)
