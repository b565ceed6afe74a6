-- ===== src/Parser/Frame.antt =====
-- src/parser.rs: `Parser::push`, which frames reply blocks and passes on notifications.
pub mod Blocks
pub mod Content
pub mod Deliver
pub mod Fits
use tmuxctl.Base.{
  ℕ, ◌≡◌, refl, Bool, true, false, Option, none, some, List, [], ◌∷◌, ◌++◌, Text, Bytes, codes,
}
use tmuxctl.Text.Utf8.{from_utf8_lossy}
use tmuxctl.Notification.{Notification}
use tmuxctl.Parser.Guard.{GuardKind, Guard, begin, end, error, parse_guard}
use tmuxctl.Parser.Notify.{parse_notification}
use tmuxctl.Parser.Payload.{parse_output_line}

pub record Reply : Type 0 where
  pub number : ℕ
  pub control : Bool
  pub output : List Text
  pub error : Bool

pub data Event : Type 0 where
  notification : Notification → Event
  reply : Reply → Event

pub record PendingReply : Type 0 where
  pub number : ℕ
  pub control : Bool
  pub output : List Text

pub record Parser : Type 0 where
  pub pending : Option PendingReply

-- `Parser::new()`
abbrev pub new : Parser
new = record { pending = none }

open_block : Guard → Parser
open_block g = record {
  pending = some (record { number = g.number; control = g.control; output = [] });
}

-- `close_block` on the block it takes, and the parser without one
reply_of : Bool → PendingReply → Reply
reply_of failed block = record {
  number = block.number;
  control = block.control;
  output = block.output;
  error = failed;
}

unfoldable pub close_block : Bool → Parser → Parser × Option Event
unfolding reply_of
close_block failed parser = elim parser.pending [
  | some block ↦ (new, some (Event.reply (reply_of failed block)))
  | none ↦ (parser, none)
]

-- A line of content: `pending.output.push(line)`.
push_content : Text → Parser → Parser
push_content line parser = elim parser.pending [
  | some block ↦ record { pending = some (record block { output = block.output ++ line ∷ [] }) }
  | none ↦ parser
]

on_guard : GuardKind → Guard → Parser → Parser × Option Event
unfolding open_block
on_guard end g parser = close_block false parser
on_guard error g parser = close_block true parser
on_guard begin g parser = let (_, truncated) = close_block true parser in (open_block g, truncated)

unfoldable pub push_within_block : Text → Parser → Parser × Option Event
unfolding on_guard push_content
push_within_block line parser = elim (parse_guard line) [
  | some g ↦ on_guard g.kind g parser
  | none ↦ (push_content line parser, none)
]

-- At top level only `%begin` is a guard; `%end` and `%error` go on as notifications.
opens_block : Option Guard → Option Guard
opens_block none = none
opens_block (some g) = elim g.kind [ begin ↦ some g | _ ↦ none ]

top_level : Text → Parser → Option Guard → Parser × Option Event
unfolding open_block
top_level line parser (some g) = (open_block g, none)
top_level line parser none = (parser, some (Event.notification (parse_notification line)))

unfoldable pub push_at_top_level : Text → Parser → Parser × Option Event
unfolding opens_block top_level
push_at_top_level [] parser = (parser, none)
push_at_top_level (c ∷ s) parser = top_level (c ∷ s) parser (opens_block (parse_guard (c ∷ s)))

unfoldable pub push : Bytes → Parser → Parser × Option Event
push line parser = elim parser.pending [
  | some _ ↦ push_within_block (from_utf8_lossy line) parser
  | none ↦ elim (parse_output_line line) [
    | some n ↦ (parser, some (Event.notification n))
    | none ↦ push_at_top_level (from_utf8_lossy line) parser
  ]
]
