-- ===== src/Driver/Blocking.antt =====
-- src/blocking.rs: the client whose callers block on a channel each, and its reader thread. What
-- runs under the lock is one step here, and steps of callers and of the reader interleave in any
-- order. The transport's `Write` is a parameter; what its `Read` returns is an input. Nothing
-- that runs under the lock panics in a release build but the transport; Poison is about the other
-- builds, and Panic about the transport.
pub mod Waiting
pub mod Moves
pub mod Session
pub mod Written
pub mod Refines
pub mod Returns
pub mod Passive
pub mod Lines
pub mod Answers
pub mod Events
pub mod Poison
pub mod Owned
pub mod Dropped
pub mod Detached
pub mod Phases
pub mod Panic
use tmuxctl.Base.{
  ℕ, Bool, true, false, Option, none, some, List, [], ◌∷◌, ◌++◌, Text, Bytes, ◌==◌, if◌then◌else◌,
  ◌>>=◌, ◌&&◌,
}
use tmuxctl.Text.Utf8.{as_bytes}
use tmuxctl.Notification.{Notification}
use tmuxctl.Engine.{
  Engine, CommandId, CommandResult, CommandError, Incoming, register_command, feed, on_eof,
}
use tmuxctl.Engine

-- `std::io::Write`; the test says whether the call returned `Ok`.
pub record Write (W : Type 0) : Type 0 where
  pub write_all : W → Bytes → W × Bool
  pub flush : W → W × Bool

-- The operating system, which runs a program with its arguments over two pipes and gives the one to
-- the program's input and the child, or `none` if it fails.
pub record Process (W C : Type 0) : Type 0 where
  pub run : Text → List Text → Option (W × C)

-- The sending half of a caller's channel, by the channel's number.
abbrev pub Sender : Type 0
Sender = ℕ

-- `HashMap<CommandId, Sender<CommandResult>>`, in order of insertion
abbrev pub Waiters : Type 0
Waiters = List (CommandId × Sender)

unfoldable pub remove : CommandId → Waiters → Option Sender × Waiters
remove id [] = (none, [])
remove id ((k, tx) ∷ ws) =
    let (found, rest) = remove id ws in if k == id then (some tx, ws) else (found, (k, tx) ∷ rest)

unfoldable pub insert : CommandId → Sender → Waiters → Waiters
insert id tx [] = (id, tx) ∷ []
insert id tx ((k, old) ∷ ws) =
    let rest = insert id tx ws in if k == id then (id, tx) ∷ ws else (k, old) ∷ rest

pub record Shared (W : Type 0) : Type 0 where
  pub engine : Engine
  pub writer : W
  pub waiters : Waiters
  pub connected : Bool

-- What a step does to the outside: it sends a notification to the event channel or a result to a
-- caller's channel, or a caller of `command` starts to wait on its channel, or is refused with
-- `Err(Disconnected)`.
pub data Effect : Type 0 where
  event : Notification → Effect
  sent : Sender → CommandResult → Effect
  waits : Sender → Text → Effect
  refused : Sender → Effect

-- What one `Read::read` returns: `Ok` with the bytes read, none of them at the end of the stream,
-- `Err` of the kind `Interrupted`, or another `Err`.
pub data ReadResult : Type 0 where
  bytes : Bytes → ReadResult
  interrupted : ReadResult
  failed : ReadResult

-- A caller's `command`, or the next return of `read` in the reader thread.
pub data Act : Type 0 where
  call : Sender → Text → Act
  read : ReadResult → Act

-- The shared state, and whether the reader thread is in its loop.
pub record Client (W : Type 0) : Type 0 where
  pub shared : Shared W
  pub reading : Bool

-- `waiter.send(result)`, for the waiter that was removed, if there was one
unfoldable pub notify : Option Sender → CommandResult → List Effect
notify none result = []
notify (some tx) result = sent tx result ∷ []

module _ {W : Type 0} where
  -- The shared state of `from_parts`.
  abbrev pub new : W → Shared W
  new w = record { engine = Engine.new; writer = w; waiters = []; connected = true }

  unfoldable pub resolve : Shared W → CommandId → CommandResult → Shared W × List Effect
  unfolding notify
  resolve s id result =
      let (waiter, waiters) = remove id s.waiters in
      (record s { waiters = waiters }, notify waiter result)

  -- The loop of `dispatch`.
  unfoldable pub deliver : List Incoming → Shared W → Shared W × List Effect
  deliver [] s = (s, [])
  deliver (Incoming.notification n ∷ incoming) s =
      let (s', out) = deliver incoming s in (s', event n ∷ out)
  deliver (Incoming.reply id result ∷ incoming) s =
      let (s', now) = resolve s id result in
      let (s'', later) = deliver incoming s' in (s'', now ++ later)

  unfoldable pub dispatch : Shared W → Bytes → Shared W × List Effect
  dispatch s input =
      let (engine, incoming) = feed s.engine input in
      deliver incoming (record s { engine = engine })

  -- The loop of `disconnect`, which passes over everything but replies.
  unfoldable pub resolve_all : List Incoming → Shared W → Shared W × List Effect
  resolve_all [] s = (s, [])
  resolve_all (Incoming.notification n ∷ incoming) s = resolve_all incoming s
  resolve_all (Incoming.reply id result ∷ incoming) s =
      let (s', now) = resolve s id result in
      let (s'', later) = resolve_all incoming s' in (s'', now ++ later)

  unfoldable pub disconnect : Shared W → Shared W × List Effect
  disconnect s =
      let (engine, incoming) = on_eof s.engine in
      resolve_all incoming (record s { engine = engine; connected = false })

  -- The body of `read_loop` and what follows its `break`; the test says whether the loop goes on.
  unfoldable pub read_step : Shared W → ReadResult → (Shared W × List Effect) × Bool
  read_step s (bytes []) = (disconnect s, false)
  read_step s (bytes (b ∷ input)) = (dispatch s (b ∷ input), true)
  read_step s interrupted = ((s, []), true)
  read_step s failed = (disconnect s, false)

-- One operation after another, as long as they succeed: the operator `?`.
abbrev pub and_then : {W : Type 0} → W × Bool → (W → W × Bool) → W × Bool
and_then (w, ok) next = if ok then next w else (w, false)

module _ {W : Type 0} (io : Write W) where
  unfoldable pub write_command : W → Text → W × Bool
  write_command w cmd =
      and_then (io.write_all w (as_bytes cmd)) λ w. and_then (io.write_all w (b'\n' ∷ [])) io.flush

  -- What `command` does under the lock; a caller that waits goes on when a result is sent to it.
  unfoldable pub command : Shared W → Sender → Text → Shared W × List Effect
  command s tx cmd =
      let (engine, id) = register_command s.engine in
      let (writer, written) = write_command s.writer cmd in
      if s.connected
      then if written
        then (
          record s { engine = engine; writer = writer; waiters = insert id tx s.waiters },
          waits tx cmd ∷ [],
        )
        else (record s { engine = engine; writer = writer; connected = false }, refused tx ∷ [])
      else (s, refused tx ∷ [])

  -- What `Drop` does under the lock.
  unfoldable pub detach : Shared W → Shared W
  detach s = record s { writer = (io.flush (io.write_all s.writer (b'\n' ∷ [])).0).0 }

  -- The client's threads: a step of any of them, and steps one after the other.
  unfoldable pub step : Client W → Act → Client W × List Effect
  step c (call tx cmd) =
      let (shared, out) = command c.shared tx cmd in (record c { shared = shared }, out)
  step c (read r) =
      let ((shared, out), goes_on) = read_step c.shared r in
      if c.reading then (record { shared = shared; reading = goes_on }, out) else (c, [])

  unfoldable pub steps : Client W → List Act → Client W × List Effect
  steps c [] = (c, [])
  steps c (a ∷ acts) =
      let (c', now) = step c a in let (c'', later) = steps c' acts in (c'', now ++ later)
