-- ===== src/Examples/Handles.antt =====
-- src/tokio_rt.rs, src/smol_rt.rs: the theorems on the clients with an owner task at concrete inputs.
use tmuxctl.Base.{
  ℕ, map, ◌≡◌, refl, true, false, some, none, Option, List, [], ◌∷◌, ◌++◌, append-nil, arith, codes,
}
use tmuxctl.Driver.Methods
use tmuxctl.Driver.Methods.Tokio.{
  MethodAct, invoked, receive, act_of, invoke, resize, send_keys, method_step, method_steps,
  handle_methods,
}
use tmuxctl.Driver.Handle.Wire.{texts, handle_wire}
use tmuxctl.Text.Utf8.{as_bytes}
use tmuxctl.Ids.{PaneId}
use tmuxctl.Driver.Smol.Child as SmolChild
use tmuxctl.Driver.Smol.Child.{life_of, with_life, life_same}
use tmuxctl.Driver.Handle.Exits.{handle_exits}
use tmuxctl.Engine.Framing.{split_lines}
use tmuxctl.Driver.Blocking.{write_command}
use tmuxctl.Driver.Blocking.Refines.{view}
use tmuxctl.Driver.Contract.{reacts, fresh}
use tmuxctl.Driver.Contract.Counts.{count, returned}
use tmuxctl.Driver.Owner.{start, turn}
use tmuxctl.Driver.Owner.Same.{shared}
use tmuxctl.Driver.Owner.Refines as Task
use tmuxctl.Driver.Smol.Handle as SmolHandle
use tmuxctl.Driver.Smol.Handle.{ends_of, with_ends, steps_same}
use tmuxctl.Driver.Handle.{Request, Channel, DropsAll, Ends, from_parts, refuse}
use tmuxctl.Driver.Handle
use tmuxctl.Driver.Handle.Calls.{calls, callers as call_senders}
use tmuxctl.Driver.Handle.Order.{written_requests}
use tmuxctl.Driver.Methods.Wire.{resize_to, send_keys_to}
use tmuxctl.Engine.{register_command}
use tmuxctl.Parser.Frame
use tmuxctl.Parser.Guard.{parse_guard}
use tmuxctl.Text.Split.{split, strip_prefix}
use tmuxctl.Text.Number.{decimal, parse_uint}
use tmuxctl.Driver.Blocking.{insert}
use tmuxctl.Driver.Blocking.Waiting.{senders, answered}
use tmuxctl.Driver.Contract.{tell_all}
use tmuxctl.Driver.Contract.Events.{events_of, notified}
use tmuxctl.Driver.Contract.Blocks.{IsReply, answers}
use tmuxctl.Driver.Handle.Projection.{heard, turns_of}
use tmuxctl.Driver.Handle.Fifo.{handle_fifo}
use tmuxctl.Driver.Handle.Refines.{handle_refines}
use tmuxctl.Driver.Handle.Events.{read_bytes, handle_events}
use tmuxctl.Driver.Handle.Answers.{reads, handle_blocks}
use tmuxctl.Driver.Handle.Child.{Event, act, exits, acts_of, client_over, step_life, steps_life}
use tmuxctl.Driver.Handle.Reaping.{reaping_refuses}
use tmuxctl.Driver.Handle.Detach.{handle_detach}
use tmuxctl.Examples.Session.{recorder, test_blocks, test_blocks-IsReply, test_cut}

abbrev take_first : List Request → Option Request × List Request
take_first [] = (none, [])
take_first (r ∷ queue) = (some r, queue)

take_first-none : (queue : List Request) → queue ≡ [] → take_first queue ≡ (none, queue)
take_first-none [] h = refl
take_first-none (r ∷ queue) h = cc

take_first-some :
    (queue : List Request) (r : Request) (rest : List Request)
    → queue ≡ r ∷ rest
    → ((take_first queue).0 ≡ some r) × ((take_first queue).1 ≡ rest)
take_first-some [] r rest h = cc
take_first-some (x ∷ queue) r rest h = (cc, cc)

-- A channel that is a list, and whose receiver drops what it did not take.
abbrev list_channel : Channel (List Request)
list_channel = record {
  empty = [];
  send = λ r queue. queue ++ r ∷ [];
  recv = take_first;
  close = λ queue. (queue, []);
  contents = λ queue. queue;
  contents_empty = refl;
  contents_send = λ r queue. refl;
  recv_none = take_first-none;
  recv_some = take_first-some;
  close_splits = append-nil;
}

-- One command is written, one is queued when the read fails, and one comes after that.
abbrev handle_acts : List Handle.Act
handle_acts =
    Handle.call 11 (codes "list-panes")
    ∷ Handle.receive
    ∷ Handle.call 12 (codes "list-windows")
    ∷ Handle.read none
    ∷ Handle.call 12 (codes "list-windows")
    ∷ []

steps_same_example :
    with_ends (
      SmolHandle.steps recorder list_channel
        (SmolHandle.from_parts recorder list_channel [])
        handle_acts)
    ≡ Handle.steps recorder list_channel
        (ends_of (SmolHandle.from_parts recorder list_channel []))
        handle_acts
steps_same_example =
    steps_same recorder list_channel (SmolHandle.from_parts recorder list_channel []) handle_acts

-- The task has taken one request, and the other is queued.
abbrev open_acts : List Handle.Act
open_acts =
    Handle.call 11 (codes "list-panes")
    ∷ Handle.call 12 (codes "list-windows")
    ∷ Handle.receive
    ∷ []

handle_wire_example :
    let (s, out) =
      Handle.steps recorder list_channel (from_parts recorder list_channel []) open_acts in
    (split_lines s.task.writer ≡ (map as_bytes (texts (written_requests out)), []))
    × (written_requests out ++ s.queue ≡ calls true open_acts)
unfolding Handle.steps Handle.step Handle.command Handle.received Handle.advance turn write_command
    as_bytes calls
handle_wire_example =
    handle_wire recorder list_channel (λ w. w) (λ w b h. refl) (λ w. refl) [] open_acts refl
      (omega arith) refl

-- A method is invoked and taken, and another one is queued.
abbrev method_acts : List MethodAct
method_acts =
    invoked 11 (resize_to 80 24)
    ∷ receive
    ∷ invoked 12 (send_keys_to (PaneId.mk 1) (0x1b ∷ 0x0a ∷ []))
    ∷ []

handle_methods_example :
    let (s, out) =
      method_steps recorder list_channel (from_parts recorder list_channel []) method_acts in
    (split_lines s.task.writer ≡ (texts (written_requests out), []))
    × (written_requests out ++ s.queue ≡ calls true (map act_of method_acts))
unfolding method_steps method_step invoke resize send_keys Handle.step Handle.command
    Handle.received Handle.advance turn write_command Methods.send_keys Methods.resize
handle_methods_example =
    handle_methods recorder list_channel (λ w. w) (λ w b h. refl) (λ w. refl) [] method_acts refl
      (tt, ((omega arith, (omega arith, tt)), tt)) refl

-- The number of the receiver of notifications.
abbrev test_receiver : ℕ
test_receiver = 5

-- Over a child: one command is written, one is queued when the read fails, and one more comes while
-- the task waits for the child.
handle_exits_example :
    let start = (client_over recorder list_channel [] true test_receiver).life in
    let (l, out) =
      steps_life recorder list_channel start
        (map act handle_acts ++ act (Handle.read none) ∷ exits ∷ []) in
    (l.ends.running ≡ false)
    × (count 12 (returned out)
        ≡ count 12 (call_senders (calls true (acts_of (map act handle_acts)))))
unfolding DropsAll
handle_exits_example =
    handle_exits recorder list_channel [] true test_receiver (map act handle_acts) 12
      (λ queue. refl) (omega arith)

handle_refines_example :
    let (s, out) =
      Handle.steps recorder list_channel (from_parts recorder list_channel []) handle_acts in
    let (c, told) = reacts fresh (
      Task.inputs recorder
        (start recorder [])
        (turns_of recorder list_channel (from_parts recorder list_channel []) handle_acts)) in
    (c ≡ view (shared s.running s.task)) × (heard told ≡ heard out)
handle_refines_example = handle_refines recorder list_channel [] handle_acts (omega arith)

-- A notification that two reads cut, and a call in between.
abbrev event_acts : List Handle.Act
event_acts =
    Handle.read (some (codes "%window-a"))
    ∷ Handle.call 11 (codes "list-panes")
    ∷ Handle.receive
    ∷ Handle.read (some (codes "dd @5\n"))
    ∷ []

handle_events_example :
    events_of
      (Handle.steps recorder list_channel (from_parts recorder list_channel []) event_acts).1
    ≡ notified Frame.new (
        read_bytes
          (turns_of recorder list_channel (from_parts recorder list_channel []) event_acts))
handle_events_example = handle_events recorder list_channel [] event_acts (omega arith)

-- Both requests are taken.
abbrev taken_acts : List Handle.Act
taken_acts =
    Handle.call 11 (codes "list-panes")
    ∷ Handle.call 12 (codes "list-windows")
    ∷ Handle.receive
    ∷ Handle.receive
    ∷ []

handle_blocks_example :
    let s =
      (Handle.steps recorder list_channel (from_parts recorder list_channel []) taken_acts).0 in
    let (s', out) = Handle.steps recorder list_channel s (reads test_cut) in
    (out ≡ answers test_blocks)
    × (senders s'.task.waiters ≡ [])
    × (s' ≡ record s { task = s'.task })
unfolding Handle.steps Handle.step Handle.command Handle.received Handle.advance turn write_command
    register_command insert IsReply parse_guard split strip_prefix decimal parse_uint
handle_blocks_example =
    handle_blocks recorder list_channel [] taken_acts test_blocks [] test_cut test_blocks-IsReply
      (omega arith) refl refl refl refl ((λ e. cc), ((λ e. cc), tt)) refl

-- The requests are taken, and the handle is dropped.
abbrev dropped_acts : List Handle.Act
dropped_acts = taken_acts ++ Handle.drop_handle ∷ []

handle_detach_example :
    let (s, out) =
      Handle.steps recorder list_channel (from_parts recorder list_channel []) dropped_acts in
    let (s', last) = Handle.step recorder list_channel s Handle.receive in
    (s'.running ≡ false)
    × (last ≡ tell_all (senders s.task.waiters))
    × (split_lines s'.task.writer ≡ (map as_bytes (texts (calls true dropped_acts)) ++ [] ∷ [], []))
unfolding Handle.steps Handle.step Handle.command Handle.received Handle.advance turn write_command
    as_bytes calls
handle_detach_example =
    handle_detach recorder list_channel (λ w. w) (λ w b h. refl) (λ w. refl) [] dropped_acts
      (omega arith) refl (omega arith) refl refl refl refl

reaping_refuses_example :
    let start = (client_over recorder list_channel [] true test_receiver).life in
    let l =
      (steps_life recorder list_channel start
        (map act open_acts ++ act (Handle.read none) ∷ [])).0 in
    let (l', out) = steps_life recorder list_channel l (map act handle_acts) in
    let (l'', last) = step_life recorder list_channel l' exits in
    (out ≡ [])
    × (l'.ends.running ≡ true)
    × (last ≡ refuse (l.ends.queue ++ calls l.ends.held handle_acts))
    × (l''.ends.running ≡ false)
unfolding DropsAll
reaping_refuses_example =
    reaping_refuses recorder list_channel [] test_receiver open_acts handle_acts (λ queue. refl)

life_same_example :
    let start = (SmolChild.client_over recorder list_channel [] true test_receiver).life in
    let events = map act handle_acts ++ exits ∷ [] in
    with_life (SmolChild.steps_life recorder list_channel start events)
    ≡ steps_life recorder list_channel (life_of start) events
life_same_example =
    life_same recorder list_channel
      (SmolChild.client_over recorder list_channel [] true test_receiver).life
      (map act handle_acts ++ exits ∷ [])

handle_fifo_example :
    let (s, out) =
      Handle.steps recorder list_channel (from_parts recorder list_channel []) open_acts in
    (answered out ++ senders s.task.waiters) ++ call_senders s.queue
    ≡ call_senders (calls true open_acts)
unfolding Handle.steps Handle.step Handle.command Handle.received Handle.advance turn write_command
handle_fifo_example = handle_fifo recorder list_channel [] open_acts (omega arith) refl

-- The notification of a window, an exit of the child that the loop does not see yet, and one request.
abbrev loop_events : List Event
loop_events = map act event_acts ++ exits ∷ act (Handle.call 12 (codes "list-windows")) ∷ []
