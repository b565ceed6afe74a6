-- ===== src/Lib.antt =====
-- tmuxctl: a control-mode client for tmux. `tmux -C` prints lines: `%`-notifications, and reply
-- blocks between `%begin` and `%end` or `%error` guards. The crate reads them as values, matches
-- the replies to the commands that were sent, and decodes pane output and window layouts.
--
-- The files, and the code they model:
-- - Base and its children: names, Boolean tests, lists over the native numbers, options as a
--   monad.
-- - Text: what the code uses of Rust's `str`. Text.Utf8 is `from_utf8`, `from_utf8_lossy` and
--   `as_bytes`; Text.Split is `split`, `split_once`, `strip_prefix`, `trim` and the searches;
--   Text.Number is `str::parse` at an unsigned type, and `Display`. A `String` is the list of
--   its scalar values, a `Vec<u8>` the list of its bytes.
-- - Output (src/output.rs): `decode_output`, `parse_octal`.
-- - Ids (src/ids.rs): the three identifiers.
-- - Layout (src/layout.rs, src/error.rs): Layout.Tree is the tree and `render`,
--   `to_layout_string`; Layout.Checksum is `checksum`; Layout.Parse is `Layout::parse` with the
--   functions below it. An error's message is a constructor that holds the values printed.
-- - Notification (src/notification.rs): `Notification`, `WindowFlags`.
-- - Parser (src/parser.rs): Parser.Guard is `parse_guard`; Parser.Notify is `parse_notification`
--   and what it calls; Parser.Payload is the byte path of output lines; Parser.Frame is the
--   `Parser` with `push`. The children named Fits are about the machine types of what is
--   reported.
-- - Engine (src/engine.rs): `Engine` with `register_command`, `feed`, `on_line`, `correlate`,
--   `on_eof`. It calls `push` for each line and keeps the queue of commands. Engine is a release
--   build, and Engine.Tripwire one with debug assertions.
-- - Commands (src/commands.rs): the four command strings, which hold layouts and identifiers.
-- - Spawn (src/spawn.rs): `SpawnOpts` and `argv`.
-- - Driver.Blocking (src/blocking.rs): `Shared`, `command`, `read_loop`, `dispatch`,
--   `disconnect`, `Drop`. Callers and the reader thread share one lock; what runs under it is
--   one step, and a session is any sequence of steps. Blocking.Poison is the same client in a
--   build with debug assertions, where the reader thread may panic under the lock.
--   Blocking.Owned is the client as its owner holds it, with the receiver, the thread's handle
--   and the child, and its drop, which waits for the thread; what `read` returns meanwhile is a
--   list, and the drop is `none` if the list does not end the thread or the child does not exit.
--   Blocking.Panic is a call whose transport panics under the lock. Blocking.Phases is the life
--   of a client as a relation.
-- - Driver.Owner (src/tokio_rt.rs): `owner_task`, which takes requests and reads in turns.
-- - Driver.Handle (src/tokio_rt.rs): `TokioClient` with the `command` of its callers, the
--   channel of requests, and the owner task at its other end; calls, turns and the drop of the
--   handle interleave in any order. Handle.Projection reads off the turns that the task gets.
--   Handle is the client without a child; Handle.Child is the client over a child process, for
--   which the task waits before it drops its end of the channel, and Handle.Loop compares the
--   two.
-- - Driver.Smol (src/smol_rt.rs): the `Step` of a race and the `owner_task` that takes it;
--   Driver.Smol.Handle is the two ends over the same channel, without a child, and
--   Driver.Smol.Child is `SmolClient` with one.
-- - Driver.Methods (src/blocking.rs, src/tokio_rt.rs, src/smol_rt.rs): the typed methods and
--   `events`, for whichever `command`; Methods.Tokio and Methods.Smol are those of the two async
--   clients, and Methods.Returns is about what they return.
-- - Driver.Contract: what every client promises its callers, as one queue of callers and the
--   lines of the stream, without ids, maps and buffers. The clients are compared with it;
--   Contract.Counts counts who returns, Contract.Stream, Contract.Block and Contract.Blocks are
--   about chunks of the stream and its reply blocks, and Contract.Events is about its
--   notifications.
-- - Examples: the theorems at concrete inputs.
--
-- State is passed explicitly: a method on `&mut self` takes the record and returns the new one
-- with its result.
--
-- Numbers are natural numbers. A checksum is taken modulo 2^16 and the command counter modulo
-- 2^64, as they wrap in a release build; a number read from text is tested against its type's
-- bound. Fuel: `parse_node` and `parse_children` get twice the length of the text and one more,
-- for each call that does not fail takes a character; `feed_loop` gets the length of the buffer
-- and one more, for each round takes a newline off it.
--
-- The contract's inputs are the callers with their commands, whether the transport took each,
-- the bytes read, and the end of the session.
--
-- The command counter is the only bound on a run: the theorems on whole sessions ask for fewer
-- than 2^64 steps, so that no id is given twice.
--
-- Not modelled: the operating system's side of a child, whose exit is an input of the async
-- clients and, by what it was given, a parameter of the blocking client's drop; `kill_on_drop`;
-- the text of error messages. Parameters stand for what the runtimes bring: `Write` is a record
-- of operations of the transport, also for the two tasks, what a read returns is an input,
-- `Process` runs the program that `spawn` starts, and `Channel` is the channel of requests with
-- the laws of a queue. Whether the channel drops what its receiver left is a hypothesis where it
-- matters (`DropsAll`), for tokio's does and smol's does not.
pub mod Base
pub mod Text
pub mod Output
pub mod Ids
pub mod Layout
pub mod Notification
pub mod Parser
pub mod Engine
pub mod Commands
pub mod Spawn
pub mod Driver
pub mod Examples
