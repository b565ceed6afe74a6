-- ===== src/Engine.antt =====
-- src/engine.rs: the sans-IO engine, a parser, the queue of outstanding commands and the buffer of
-- the line in progress. The build is one without debug assertions; what `debug_assert!` would test
-- is `tripwire`. The proofs are in the modules below this one.
pub mod Framing
pub mod Fifo
pub mod Calls
pub mod Answers
pub mod Tripwire
use tmuxctl.Base.{
  ℕ, zero, suc, ◌+◌, ◌%◌, Bool, true, false, Option, none, some, List, [], ◌∷◌, ◌++◌, map, Text,
  Bytes, ltb, if◌then◌else◌, length, take, drop,
}
use tmuxctl.Text.Split.{position}
use tmuxctl.Text.Number.{u64_bound}
use tmuxctl.Notification.{Notification}
use tmuxctl.Parser.Frame.{Parser, Event, Reply, push}
use tmuxctl.Parser.Frame

-- `CommandId(u64)`
abbrev pub CommandId : Type 0
CommandId = ℕ

pub data CommandError : Type 0 where
  failed : (lines : List Text) → CommandError
  disconnected : CommandError

-- `Result<CommandOutput, CommandError>`, the output by its lines
pub data CommandResult : Type 0 where
  ok : (lines : List Text) → CommandResult
  err : CommandError → CommandResult

pub data Incoming : Type 0 where
  notification : Notification → Incoming
  reply : CommandId → CommandResult → Incoming

pub record Engine : Type 0 where
  pub parser : Parser
  pub pending : List CommandId
  pub next_id : ℕ
  pub buf : Bytes
  pub last_number : Option ℕ

-- `Engine::new()`
abbrev pub new : Engine
new = record { parser = Frame.new; pending = []; next_id = 0; buf = []; last_number = none }

unfoldable pub register_command : Engine → Engine × CommandId
register_command e = (
  record e { pending = e.pending ++ e.next_id ∷ []; next_id = (e.next_id + 1) % u64_bound },
  e.next_id,
)

-- What the debug assertion of `correlate` tests.
unfoldable pub tripwire : Option ℕ → ℕ → Bool
tripwire none number = true
tripwire (some last) number = ltb last number

unfoldable pub result_of : Reply → CommandResult
result_of r = if r.error then CommandResult.err (failed r.output) else CommandResult.ok r.output

-- `self.pending.pop_front()?` and the reply to the command that it names
unfoldable pub answer : Engine → Reply → List CommandId → Engine × Option Incoming
unfolding result_of
answer e r [] = (e, none)
answer e r (id ∷ rest) = (record e { pending = rest }, some (Incoming.reply id (result_of r)))

unfoldable pub correlate : Engine → Reply → Engine × Option Incoming
unfolding answer
correlate e r =
    if r.control then answer (record e { last_number = some r.number }) r e.pending else (e, none)

unfoldable pub on_event : Engine → Option Event → Engine × Option Incoming
on_event e none = (e, none)
on_event e (some (Event.notification n)) = (e, some (Incoming.notification n))
on_event e (some (Event.reply r)) = correlate e r

unfoldable pub on_line : Engine → Bytes → Engine × Option Incoming
unfolding on_event
on_line e line =
    let (parser, event) = push line e.parser in on_event (record e { parser = parser }) event

abbrev pub newline : ℕ
newline = b'\n'

unfoldable pub append_some : Option Incoming → List Incoming → List Incoming
append_some none out = out
append_some (some i) out = i ∷ out

-- The `while let` of `feed`. Each round shortens the buffer, whose length bounds the fuel.
pub feed_loop : ℕ → Engine → Engine × List Incoming
unfolding append_some
feed_loop zero e = (e, [])
feed_loop (suc f) e = elim (position newline e.buf) [
  | none ↦ (e, [])
  | some i ↦
      let line = take i e.buf in
      let (e', incoming) = on_line (record e { buf = drop (suc i) e.buf }) line in
      let (e'', out) = feed_loop f e' in (e'', append_some incoming out)
]

unfoldable pub feed : Engine → Bytes → Engine × List Incoming
unfolding feed_loop
feed e bytes =
    let filled = record e { buf = e.buf ++ bytes } in feed_loop (suc (length filled.buf)) filled

unfoldable pub on_eof : Engine → Engine × List Incoming
on_eof e = (
  record e { pending = [] },
  map (λ id. Incoming.reply id (CommandResult.err disconnected)) e.pending,
)
