-- ===== src/Examples/Drivers.antt =====
-- src/blocking.rs: the theorems on the client at concrete inputs.
use tmuxctl.Base.{
  ℕ, none, Bool, ◌&&◌, ◌==◌, ◌≡◌, refl, true, false, some, List, [], ◌∷◌, ◌++◌, map, arith, Bytes,
  codes,
}
use tmuxctl.Text.Utf8.{as_bytes, from_utf8_lossy}
use tmuxctl.Text.Number.{parse_uint, decimal}
use tmuxctl.Text.Split.{split, strip_prefix}
use tmuxctl.Parser.Guard.{parse_guard}
use tmuxctl.Ids.{PaneId}
use tmuxctl.Engine.{Engine, register_command}
use tmuxctl.Engine
use tmuxctl.Engine.Fifo.{control_replies}
use tmuxctl.Parser.Frame.{push, push_at_top_level, push_within_block, close_block}
use tmuxctl.Parser.Payload.{parse_output_line}
use tmuxctl.Driver.Blocking.Poison.{Locked, step_debug, steps_debug, panic_strands}
use tmuxctl.Engine.Framing.{split_lines}
use tmuxctl.Driver.Blocking.{
  Write, Act, bytes, interrupted, call, read, steps, step, read_step, command, write_command,
  detach,
}
use tmuxctl.Driver.Blocking
use tmuxctl.Driver.Blocking.Waiting.{senders}
use tmuxctl.Driver.Blocking.Session.{session}
use tmuxctl.Driver.Blocking.Refines.{session_refines, view}
use tmuxctl.Driver.Blocking.Refines as Client
use tmuxctl.Driver.Blocking.Returns.{callers, session_end}
use tmuxctl.Driver.Blocking.Panic.{command_panics, step_poisoned, steps_poisoned, panic_drains}
use tmuxctl.Driver.Blocking.Passive.{commands}
use tmuxctl.Driver.Blocking.Lines.{detach_line}
use tmuxctl.Driver.Blocking.Answers.{reads, session_blocks}
use tmuxctl.Driver.Contract.{reacts, fresh}
use tmuxctl.Driver.Contract.Counts.{count, returned}
use tmuxctl.Driver.Methods.{send_keys, resize}
use tmuxctl.Driver.Methods.Wire.{
  resize_to, send_keys_to, MethodAct, invoked, invoke, method_steps, method_session, methods_lines,
}
use tmuxctl.Examples.Session.{
  recorder, test_acts, closed_acts, quiet_acts, test_blocks, test_blocks-IsReply, test_cut,
}
use tmuxctl.Driver.Contract.Events.{events_of, notified}
use tmuxctl.Driver.Contract.Blocks.{answers}
use tmuxctl.Driver.Blocking.Waiting.{answered}
use tmuxctl.Driver.Blocking.Events.{bytes_read, session_events}
use tmuxctl.Driver.Blocking.Owned.{Owned, drop}
use tmuxctl.Driver.Blocking.Dropped.{closes, drop_returns}
use tmuxctl.Driver.Blocking.Detached.{drop_session}
use tmuxctl.Driver.Blocking.Passive.{refusals}
use tmuxctl.Driver.Blocking.Phases.{phase, ◌⇝*◌, disconnected_stays}
use tmuxctl.Driver.Methods.Returns.{Exchange, invocations, finished, done_of, methods_return}
use tmuxctl.Parser.Frame

-- A notification that two reads cut, and a call in between.
abbrev event_acts : List Act
event_acts =
    read (bytes (codes "%window-a"))
    ∷ call 11 (codes "list-panes")
    ∷ read (bytes (codes "dd @5\n"))
    ∷ []

session_refines_example :
    reacts fresh
      (Client.inputs recorder (record { shared = Blocking.new []; reading = true }) test_acts)
    ≡ (view (session recorder [] test_acts).0.shared, (session recorder [] test_acts).1)
session_refines_example = session_refines recorder [] test_acts (omega arith)

session_end_example :
    let (c, out) = session recorder [] (test_acts ++ read (bytes []) ∷ []) in
    (c.reading ≡ false) × (count 12 (returned out) ≡ count 12 (callers test_acts))
session_end_example = session_end recorder [] test_acts 12 (omega arith)

detach_line_example :
    split_lines (detach recorder (session recorder [] quiet_acts).0.shared).writer
    ≡ (map as_bytes (commands (session recorder [] quiet_acts).1) ++ [] ∷ [], [])
unfolding steps step read_step command write_command as_bytes register_command
detach_line_example =
    detach_line recorder (λ w. w) (λ w b h. refl) (λ w. refl) [] quiet_acts refl (omega arith) refl
      refl

abbrev method_acts : List MethodAct
method_acts =
    invoked 11 (resize_to 80 24)
    ∷ MethodAct.read interrupted
    ∷ invoked 12 (send_keys_to (PaneId.mk 1) (0x1b ∷ 0x0a ∷ []))
    ∷ []

methods_lines_example :
    split_lines (method_session recorder [] method_acts).0.shared.writer
    ≡ (commands (method_session recorder [] method_acts).1, [])
unfolding method_steps invoke send_keys resize command step read_step write_command register_command
methods_lines_example =
    methods_lines recorder (λ w. w) (λ w b h. refl) (λ w. refl) [] method_acts
      (tt, ((omega arith), tt)) refl refl

-- One caller waits, and the last control reply had the number 7.
abbrev test_locked : Locked Bytes
test_locked = record {
  client = record {
    shared = record (Blocking.new []) {
      engine = record Engine.new { pending = 0 ∷ []; next_id = 1; last_number = some 7 };
      waiters = (0, 11) ∷ [];
    };
    reading = true;
  };
  poisoned = false;
}

-- A second reply with that number.
abbrev repeated : Bytes
repeated = codes "begin 1 7 1\n%end 1 7 1\n"

panic_strands_example :
    let (l', out) =
      steps_debug recorder (λ e. e) test_locked (read (bytes (b'%' ∷ repeated)) ∷ closed_acts) in
    (out ≡ map Blocking.refused (callers closed_acts))
    × (l'.client.shared.waiters ≡ (0, 11) ∷ [])
    × (l'.client.reading ≡ false)
unfolding split_lines control_replies push parse_output_line strip_prefix push_at_top_level
    from_utf8_lossy parse_guard split decimal parse_uint push_within_block close_block
panic_strands_example =
    panic_strands recorder (λ e. e) test_locked b'%' repeated closed_acts refl refl

session_events_example :
    events_of (session recorder [] event_acts).1 ≡ notified Frame.new (bytes_read event_acts)
session_events_example = session_events recorder [] event_acts (omega arith)

session_blocks_example :
    let (c, out) = steps recorder (session recorder [] quiet_acts).0 (reads test_cut) in
    (out ≡ answers test_blocks)
    × (senders c.shared.waiters ≡ [])
    × (c.shared.connected ≡ (session recorder [] quiet_acts).0.shared.connected)
unfolding steps step read_step command write_command register_command Blocking.insert decimal
session_blocks_example =
    session_blocks recorder [] quiet_acts test_blocks [] test_cut test_blocks-IsReply (omega arith)
      refl refl refl refl ((λ e. cc), ((λ e. cc), tt)) refl

abbrev test_exchanges : List Exchange
test_exchanges = map (λ x. (x.0, (resize_to 80 24, x.1))) test_blocks

methods_return_example :
    let c = (method_steps recorder (session recorder [] []).0 (invocations test_exchanges)).0 in
    let (c', out) = steps recorder c (reads test_cut) in
    (finished out ≡ map (λ x. (x.0, done_of x.1.1)) test_exchanges)
    × (senders c'.shared.waiters ≡ [])
unfolding steps method_steps invoke resize command write_command register_command decimal
methods_return_example =
    methods_return recorder [] [] test_exchanges test_cut test_blocks-IsReply (omega arith) refl
      refl refl refl refl ((λ e. cc), ((λ e. cc), tt)) refl

-- Whether an empty line ends what was given, behind a line end.
abbrev ends_empty : Bool → Bytes → Bool
ends_empty begins [] = false
ends_empty begins (c ∷ []) = begins && (c == b'\n')
ends_empty begins (c ∷ d ∷ given) = ends_empty (c == b'\n') (d ∷ given)

-- A client that was spawned, on which somebody waits when the drop begins.
abbrev test_owned : Owned Bytes ℕ ℕ
test_owned = record {
  locked = record { client = (session recorder [] quiet_acts).0; poisoned = false };
  receiver = none;
  reader = true;
  child = some 77;
}

-- A child that exits upon an empty line.
abbrev detaches : Bytes → ℕ → Bool
detaches given child = ends_empty false given

drop_returns_example :
    (after : Locked Bytes × List Blocking.Effect) × (drop recorder
        (λ e. e)
        detaches
        test_owned
        (interrupted ∷ bytes [] ∷ [])
      ≡ some (after, 77 ∷ []))
    × (after.0.client.reading ≡ false)
    × (after.0.client.shared.writer
        ≡ (session recorder [] quiet_acts).0.shared.writer ++ b'\n' ∷ [])
unfolding closes steps step command read_step write_command as_bytes
drop_returns_example =
    drop_returns recorder (λ e. e) detaches test_owned (interrupted ∷ []) (bytes []) [] refl refl

drop_session_example :
    let c = (session recorder [] quiet_acts).0 in
    (after : Blocking.Client Bytes × List Blocking.Effect) × (drop recorder
        (λ e. e)
        detaches
        test_owned
        (interrupted ∷ bytes [] ∷ [])
      ≡ some ((record { client = after.0; poisoned = false }, after.1), 77 ∷ []))
    × (after.0.shared.writer ≡ (detach recorder c.shared).writer)
    × (answered after.1 ≡ senders c.shared.waiters)
    × (senders after.0.shared.waiters ≡ [])
    × (after.0.shared.connected ≡ false)
    × (after.0.reading ≡ false)
unfolding closes steps_debug step_debug detach steps step command read_step write_command as_bytes
drop_session_example =
    drop_session recorder (λ e. e) detaches [] quiet_acts none (some 77) (interrupted ∷ [])
      (bytes []) [] (omega arith) refl refl

disconnected_stays_example :
    let c = (session recorder [] (quiet_acts ++ read (bytes []) ∷ [])).0 in
    let (c', out) = steps recorder c closed_acts in
    (c'.shared.connected ≡ false)
    × (phase c ⇝* phase c')
    × (c'.shared.writer ≡ c.shared.writer)
    × (refusals out ≡ callers closed_acts)
unfolding steps step read_step command write_command Blocking.disconnect Blocking.resolve_all
    Engine.on_eof register_command Blocking.resolve
disconnected_stays_example =
    disconnected_stays recorder (session recorder [] (quiet_acts ++ read (bytes []) ∷ [])).0
      closed_acts refl

-- A call that comes too late, and the end of the stream.
abbrev late_acts : List Act
late_acts = call 13 (codes "list-panes") ∷ read (bytes []) ∷ []

panic_drains_example :
    let c = (session recorder [] quiet_acts).0 in
    let (last, out) = steps_poisoned recorder (command_panics [] c) late_acts in
    (answered out ≡ senders c.shared.waiters)
    × (senders last.shared.waiters ≡ [])
    × (refusals out ≡ callers late_acts)
unfolding steps step read_step command write_command steps_poisoned step_poisoned command_panics
panic_drains_example = panic_drains recorder [] quiet_acts [] late_acts (omega arith) refl refl
