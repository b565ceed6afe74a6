-- ===== src/Examples/Session.antt =====
-- src/parser.rs, src/engine.rs, src/blocking.rs: the theorems at concrete inputs.
use tmuxctl.Base.{◌≡◌, ◌⊎◌, refl, true, false, some, none, List, [], ◌∷◌, ◌++◌, arith, Bytes, codes}
use tmuxctl.Text.Utf8.{as_bytes, from_utf8_lossy}
use tmuxctl.Text.Number.{decimal, parse_uint}
use tmuxctl.Output.Decodes.{escape}
use tmuxctl.Ids.{PaneId, show_pane}
use tmuxctl.Notification.{Notification}
use tmuxctl.Parser.Guard.{Guard, begin, parse_guard}
use tmuxctl.Parser.Guard.Print.{guard_line}
use tmuxctl.Parser.Notify.Wire.{WireLine}
use tmuxctl.Parser.Frame.{Parser, Event, Reply, push, push_at_top_level}
use tmuxctl.Parser.Payload.{parse_output_line}
use tmuxctl.Text.Split.{split, strip_prefix}
use tmuxctl.Parser.Frame
use tmuxctl.Parser.Frame.Blocks.{push_all, block_reply, in_block, push_all-truncated}
use tmuxctl.Parser.Frame.Fits.{ParserFits, EventFits, push_all-Fits}
use tmuxctl.Parser.Frame.Content.{reported, held, content_lines, push_all_content}
use tmuxctl.Parser.Frame.Deliver.{push-WireLine, push-output, push_silent}
use tmuxctl.Engine.{Engine, CommandId, CommandResult, disconnected, Incoming, feed, newline}
use tmuxctl.Engine
use tmuxctl.Engine.{CommandResult, failed}
use tmuxctl.Base.{All}
use tmuxctl.Engine.Framing.{split_lines, feed_chunks, concat, feed_chunks-concat}
use tmuxctl.Engine.Fifo.{replies, pair_up, left_over, control_replies, feed-pair_up}
use tmuxctl.Driver.Blocking.{Write, Act, bytes, interrupted, call, read}
use tmuxctl.Driver.Blocking.{Sender}
use tmuxctl.Driver.Contract.Blocks.{ReplyBlock, IsReply}

abbrev test_content : List Bytes
test_content = codes "one" ∷ codes "%window-add @5" ∷ []

push_all-truncated_example :
    push_all Frame.new (guard_line begin 1 7 1 ∷ (test_content ++ guard_line begin 2 8 0 ∷ [])) ≡ (
      in_block (record { number = 8; control = false; output = [] }),
      Event.reply (block_reply 7 1 test_content true) ∷ [],
    )
unfolding parse_guard split strip_prefix from_utf8_lossy parse_uint
push_all-truncated_example =
    push_all-truncated 1 7 1 2 8 0 (omega arith) (omega arith) (omega arith) (omega arith)
      test_content (refl, (refl, tt))

push_all_content_example :
    reported (push_all Frame.new test_content).1 ++ held (push_all Frame.new test_content).0
    ≡ content_lines Frame.new test_content
push_all_content_example = push_all_content Frame.new test_content

push-WireLine_example :
    push (as_bytes (codes "%exit")) Frame.new
    ≡ (Frame.new, some (Event.notification (Notification.exit none)))
push-WireLine_example = push-WireLine WireLine.exit (omega arith)

push-output_example :
    (push
        (codes "%output " ++ (show_pane (PaneId.mk 1) ++ b' ' ∷ escape (0x1b ∷ 255 ∷ [])))
        Frame.new
      ≡ (
        Frame.new,
        some (Event.notification (Notification.output (PaneId.mk 1) (0x1b ∷ 255 ∷ []))),
      ))
    × (push
          (codes "%extended-output "
            ++ (show_pane (PaneId.mk 1)
                ++ b' ' ∷ (decimal 20 ++ (codes " : " ++ escape (0x1b ∷ 255 ∷ [])))))
          Frame.new
        ≡ (
          Frame.new,
          some (
              Event.notification (Notification.extended_output (PaneId.mk 1) 20 (0x1b ∷ 255 ∷ []))),
        ))
push-output_example = push-output (PaneId.mk 1) 20 (0x1b ∷ 255 ∷ []) (omega arith) (omega arith)

push_silent_example :
    (from_utf8_lossy (guard_line begin 1 7 1) ≡ [])
    ⊎ ((g : Guard) × (parse_guard (from_utf8_lossy (guard_line begin 1 7 1)) ≡ some g)
        × (g.kind ≡ begin))
unfolding push parse_output_line strip_prefix push_at_top_level from_utf8_lossy parse_guard split
    decimal parse_uint
push_silent_example = push_silent (guard_line begin 1 7 1) refl

-- Two commands wait, and a line is cut in the middle.
abbrev test_engine : Engine
test_engine = record Engine.new { pending = 4 ∷ 5 ∷ []; next_id = 6; buf = codes "%beg" }

abbrev test_chunks : List Bytes
test_chunks = codes "in 1 1 1\no" ∷ codes "k\n%end 1 1 1\n%exit" ∷ []

feed_chunks-concat_example :
    feed_chunks test_engine test_chunks ≡ feed test_engine (concat test_chunks)
feed_chunks-concat_example = feed_chunks-concat test_engine test_chunks (omega arith)

feed-pair_up_example :
    let ls = (split_lines (test_engine.buf ++ concat test_chunks)).0 in
    (replies (feed test_engine (concat test_chunks)).1
      ≡ pair_up (4 ∷ 5 ∷ []) (control_replies Frame.new ls))
    × ((feed test_engine (concat test_chunks)).0.pending
        ≡ left_over (4 ∷ 5 ∷ []) (control_replies Frame.new ls))
feed-pair_up_example = feed-pair_up test_engine (concat test_chunks)

-- A writer that keeps what it is given and never fails.
abbrev pub recorder : Write Bytes
recorder = record { write_all = λ w b. (w ++ b, true); flush = λ w. (w, true) }

abbrev pub test_acts : List Act
test_acts =
    call 11 (codes "list-panes")
    ∷ call 12 (codes "list-windows")
    ∷ read (bytes (codes "%begin 1 1 1\nok\n%end 1 1 1\n"))
    ∷ []

abbrev pub quiet_acts : List Act
quiet_acts = call 11 (codes "list-panes") ∷ read interrupted ∷ call 12 (codes "list-windows") ∷ []

abbrev pub closed_acts : List Act
closed_acts = call 11 (codes "list-panes") ∷ read (bytes []) ∷ call 12 (codes "list-windows") ∷ []

-- Two replies, the second of which is a failure without a message, and reads that cut them.
abbrev pub test_blocks : List (Sender × ReplyBlock)
test_blocks =
    (
      11,
      record {
        ts = 1;
        n = 7;
        flags = 1;
        ts' = 1;
        n' = 7;
        flags' = 1;
        content = codes "%window-add @5" ∷ [];
        failing = false;
      },
    )
    ∷ (
      12,
      record {
        ts = 2;
        n = 8;
        flags = 1;
        ts' = 2;
        n' = 8;
        flags' = 1;
        content = [];
        failing = true;
      },
    )
    ∷ []

abbrev pub test_cut : List Bytes
test_cut =
    codes "%begin 1 7 1\n%window-add @5\n%e" ∷ codes "nd 1 7 1\n%begin 2 8 1\n%error 2 8 1\n" ∷ []

pub test_blocks-IsReply : All (λ x. IsReply x.1) test_blocks
unfolding IsReply parse_guard split strip_prefix decimal parse_uint from_utf8_lossy
test_blocks-IsReply = (
  (omega arith, omega arith, omega arith, omega arith, omega arith, (refl, tt), omega arith),
  ((omega arith, omega arith, omega arith, omega arith, omega arith, tt, tt), tt),
)

push_all-Fits_example :
    ParserFits (push_all Frame.new test_content).0
    × All EventFits (push_all Frame.new test_content).1
push_all-Fits_example = push_all-Fits test_content Frame.new (omega arith) tt
