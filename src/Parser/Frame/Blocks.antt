-- ===== src/Parser/Frame/Blocks.antt =====
-- src/parser.rs: reply blocks are framed whole.
use tmuxctl.Base.{
  ℕ, ◌<◌, ◌≡◌, refl, sym, ap, ◌∙◌, Bool, true, false, not, Option, some, none, List, [], ◌∷◌, ◌++◌,
  map, append_assoc, append-nil, Text, Bytes, All, ◌==◌,
}
use tmuxctl.Text.Split.{strip_prefix}
use tmuxctl.Text.Number.{u32_bound, u64_bound}
use tmuxctl.Text.Utf8.{from_utf8_lossy}
use tmuxctl.Text.Utf8.RoundTrip.{from_utf8_lossy_ascii}
use tmuxctl.Notification.{Notification}
use tmuxctl.Parser.Guard.{GuardKind, begin, end, error, parse_guard}
use tmuxctl.Parser.Guard.Print.{guard_line, guard_line-ascii, parse_guard-guard_line}
use tmuxctl.Parser.Payload.{parse_output_line}
use tmuxctl.Parser.Frame.{
  Reply, Event, PendingReply, Parser, new, reply_of, close_block, push_within_block, opens_block,
  push_at_top_level, push,
}

abbrev pub event_list : Option Event → List Event
event_list none = []
event_list (some e) = e ∷ []

-- One line after another, and the events that come of them.
unfoldable pub push_all : Parser → List Bytes → Parser × List Event
push_all p [] = (p, [])
push_all p (l ∷ ls) =
    let (p', e) = push l p in let (p'', es) = push_all p' ls in (p'', event_list e ++ es)

abbrev pub in_block : PendingReply → Parser
in_block b = record { pending = some b }

-- The line is no guard, as text.
abbrev pub IsContent : Bytes → Type 0
IsContent l = parse_guard (from_utf8_lossy l) ≡ none

abbrev pub with_output : List Text → PendingReply → PendingReply
with_output ts b = record b { output = b.output ++ ts }

push-content :
    (b : PendingReply) (l : Bytes)
    → IsContent l
    → push l (in_block b) ≡ (in_block (with_output (from_utf8_lossy l ∷ []) b), none)
unfolding push push_within_block
push-content b l h = rw (h, push_within_block)

push_all-content :
    (b : PendingReply) (ls rest : List Bytes)
    → All IsContent ls
    → push_all (in_block b) (ls ++ rest)
      ≡ push_all (in_block (with_output (map from_utf8_lossy ls) b)) rest
unfolding push_all
push_all-content b [] rest h =
    ap (λ o. push_all (in_block (record b { output = o })) rest) (sym (append-nil b.output))
push_all-content b (l ∷ ls) rest (hl, h) = rw (push-content b l hl) (
    push_all-content (with_output (from_utf8_lossy l ∷ []) b) ls rest h
    ∙ ap (λ o. push_all (in_block (record b { output = o })) rest)
        (append_assoc b.output (from_utf8_lossy l ∷ []) (map from_utf8_lossy ls)))

pub push-top :
    (l : Bytes)
    → parse_output_line l ≡ none
    → push l new ≡ push_at_top_level (from_utf8_lossy l) new
unfolding push
push-top l h = rw (h, push)

pub push-top_output :
    (l : Bytes) {n : Notification}
    → parse_output_line l ≡ some n
    → push l new ≡ (new, some (Event.notification n))
unfolding push
push-top_output l h = rw (h, push)

module _ (ts number flags : ℕ) (hn : number < u64_bound) (hf : flags < u32_bound) where
  guard_text :
      (k : GuardKind)
      → parse_guard (from_utf8_lossy (guard_line k ts number flags))
        ≡ some (record { kind = k; number = number; control = not (flags == 0) })
  guard_text k =
      ap parse_guard (from_utf8_lossy_ascii _ (guard_line-ascii k ts number flags))
      ∙ parse_guard-guard_line k ts number flags hn hf

  opened : PendingReply
  opened = record { number = number; control = not (flags == 0); output = [] }

  not_output : parse_output_line (guard_line begin ts number flags) ≡ none
  unfolding parse_output_line strip_prefix
  not_output = refl

  push-begin : push (guard_line begin ts number flags) new ≡ (in_block opened, none)
  unfolding push_at_top_level opened
  push-begin =
      push-top (guard_line begin ts number flags) not_output
      ∙ ap (λ t. push_at_top_level t new)
          (from_utf8_lossy_ascii _ (guard_line-ascii begin ts number flags))
      ∙ rw (parse_guard-guard_line begin ts number flags hn hf, opens_block)

  push-end :
      (b : PendingReply)
      → push (guard_line end ts number flags) (in_block b)
        ≡ (new, some (Event.reply (reply_of false b)))
  unfolding push push_within_block close_block
  push-end b = rw (guard_text end, push_within_block)

  push-error :
      (b : PendingReply)
      → push (guard_line error ts number flags) (in_block b)
        ≡ (new, some (Event.reply (reply_of true b)))
  unfolding push push_within_block close_block
  push-error b = rw (guard_text error, push_within_block)

  push-begin_open :
      (b : PendingReply)
      → push (guard_line begin ts number flags) (in_block b)
        ≡ (in_block opened, some (Event.reply (reply_of true b)))
  unfolding push push_within_block close_block opened
  push-begin_open b = rw (guard_text begin, push_within_block)

-- The reply of a block: `%begin` with these fields, content, and the closing kind.
abbrev pub block_reply : ℕ → ℕ → List Bytes → Bool → Reply
block_reply number flags content failed = record {
  number = number;
  control = not (flags == 0);
  output = map from_utf8_lossy content;
  error = failed;
}

module _ (ts n flags ts' n' flags' : ℕ) (hn : n < u64_bound) (hf : flags < u32_bound)
    (hn' : n' < u64_bound) (hf' : flags' < u32_bound) (content : List Bytes)
    (hc : All IsContent content) where
  body :
      (rest : List Bytes)
      → push_all new (guard_line begin ts n flags ∷ (content ++ rest))
        ≡ push_all
            (in_block (with_output (map from_utf8_lossy content) (opened ts n flags hn hf)))
            rest
  unfolding push_all
  body rest =
      rw (push-begin ts n flags hn hf) (push_all-content (opened ts n flags hn hf) content rest hc)

  -- A block that `%end` or `%error` closes becomes one reply, with the number and control mark of
  -- its `%begin`, every line of content in order (lines that look like notifications included), and
  -- the error mark exactly for `%error`; the parser is then as new. The fields of the guards must
  -- fit their types, and no line of content may itself read as a guard.
  pub push_all-block :
      (push_all new (guard_line begin ts n flags ∷ (content ++ guard_line end ts' n' flags' ∷ []))
        ≡ (new, Event.reply (block_reply n flags content false) ∷ []))
      × (push_all new
            (guard_line begin ts n flags ∷ (content ++ guard_line error ts' n' flags' ∷ []))
          ≡ (new, Event.reply (block_reply n flags content true) ∷ []))
  unfolding push_all opened reply_of
  push_all-block = (
    body (guard_line end ts' n' flags' ∷ []) ∙ rw (push-end ts' n' flags' hn' hf'),
    body (guard_line error ts' n' flags' ∷ []) ∙ rw (push-error ts' n' flags' hn' hf'),
  )

  -- A block whose closing line was lost is given up as an error reply, with the content that had
  -- come, when the next `%begin` arrives, and that `%begin` opens the next block.
  pub push_all-truncated :
      push_all new (guard_line begin ts n flags ∷ (content ++ guard_line begin ts' n' flags' ∷ []))
      ≡ (
        in_block (record { number = n'; control = not (flags' == 0); output = [] }),
        Event.reply (block_reply n flags content true) ∷ [],
      )
  unfolding push_all opened reply_of
  push_all-truncated =
      body (guard_line begin ts' n' flags' ∷ []) ∙ rw (push-begin_open ts' n' flags' hn' hf')
