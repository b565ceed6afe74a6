-- ===== src/Parser/Frame/Fits.antt =====
-- src/parser.rs: the machine types of what the parser reports and holds.
use tmuxctl.Base.{
  ◌<◌, ◌≡◌, refl, Bool, true, false, Option, none, some, List, [], ◌∷◌, arith, Text, Bytes, All,
  All-append, Holds, Holds-bind, Holds-then,
}
use tmuxctl.Text.Split.{split, strip_prefix}
use tmuxctl.Text.Utf8.{from_utf8_lossy}
use tmuxctl.Text.Number.{u32_bound, u64_bound, parse_uint}
use tmuxctl.Notification.{Notification}
use tmuxctl.Parser.Guard.{Guard, GuardKind, begin, end, error, guard_kind, guard_parts, parse_guard}
use tmuxctl.Parser.Notify.Fits.{IsBytes, NotificationFits, parse_uint-Fits, parse_notification-Fits}
use tmuxctl.Parser.Payload.{parse_output_line}
use tmuxctl.Parser.Payload.Fits.{parse_output_line-Fits}
use tmuxctl.Parser.Frame.{
  Parser, PendingReply, Event, Reply, push, push_within_block, push_at_top_level, on_guard,
  push_content, close_block, open_block, reply_of, top_level, opens_block,
}
use tmuxctl.Parser.Frame
use tmuxctl.Parser.Frame.Blocks.{push_all, event_list}

abbrev pub EventFits : Event → Type 0
EventFits (Event.notification n) = NotificationFits n
EventFits (Event.reply r) = r.number < u64_bound

abbrev pub ParserFits : Parser → Type 0
ParserFits p = Holds (λ (block : PendingReply). block.number < u64_bound) p.pending

-- The parser after a line, and what the line reports.
abbrev StepFits : Parser × Option Event → Type 0
StepFits (p, e) = ParserFits p × Holds EventFits e

abbrev GuardFits : Guard → Type 0
GuardFits g = g.number < u64_bound

guard_parts-Fits : (parts : List Text) → Holds GuardFits (guard_parts parts)
unfolding guard_parts
guard_parts-Fits (word ∷ timestamp ∷ number ∷ flags ∷ []) =
    Holds-then GuardFits (guard_kind word) _ λ k.
      Holds-bind (λ n. n < u64_bound) GuardFits (parse_uint u64_bound number) _
        (parse_uint-Fits u64_bound number (omega arith))
        λ n small. Holds-then GuardFits (parse_uint u32_bound flags) _ λ f. small
guard_parts-Fits [] = tt
guard_parts-Fits (a ∷ []) = tt
guard_parts-Fits (a ∷ b ∷ []) = tt
guard_parts-Fits (a ∷ b ∷ c ∷ []) = tt
guard_parts-Fits (a ∷ b ∷ c ∷ d ∷ e ∷ more) = tt

parse_guard-Fits : (line : Text) → Holds GuardFits (parse_guard line)
unfolding parse_guard
parse_guard-Fits line =
    Holds-then GuardFits (strip_prefix (b'%' ∷ []) line) _
      λ rest. guard_parts-Fits (split b' ' rest)

close_block-Fits : (failed : Bool) (p : Parser) → ParserFits p → StepFits (close_block failed p)
unfolding close_block reply_of
close_block-Fits failed p = taken p.pending
  where
    taken :
        (o : Option PendingReply)
        → ParserFits (record { pending = o })
        → StepFits (close_block failed (record { pending = o }))
    taken none h = (tt, tt)
    taken (some block) h = (tt, h)

on_guard-Fits :
    (k : GuardKind) (g : Guard) (p : Parser)
    → GuardFits g
    → ParserFits p
    → StepFits (on_guard k g p)
unfolding on_guard open_block
on_guard-Fits end g p small h = close_block-Fits false p h
on_guard-Fits error g p small h = close_block-Fits true p h
on_guard-Fits begin g p small h = (small, (close_block-Fits true p h).1)

push_content-Fits : (line : Text) (p : Parser) → ParserFits p → ParserFits (push_content line p)
unfolding push_content
push_content-Fits line p = within p.pending
  where
    within :
        (o : Option PendingReply)
        → ParserFits (record { pending = o })
        → ParserFits (push_content line (record { pending = o }))
    within none h = tt
    within (some block) h = h

push_within_block-Fits :
    (line : Text) (p : Parser) → ParserFits p → StepFits (push_within_block line p)
unfolding push_within_block
push_within_block-Fits line p h = guarded (parse_guard line) (parse_guard-Fits line)
  where
    guarded :
        (o : Option Guard)
        → Holds GuardFits o
        → StepFits (elim o [ some g ↦ on_guard g.kind g p | none ↦ (push_content line p, none) ])
    guarded none fits = (push_content-Fits line p h, tt)
    guarded (some g) fits = on_guard-Fits g.kind g p fits h

push_at_top_level-Fits :
    (line : Text) (p : Parser) → ParserFits p → StepFits (push_at_top_level line p)
unfolding push_at_top_level top_level opens_block open_block
push_at_top_level-Fits [] p h = (h, tt)
push_at_top_level-Fits (c ∷ s) p h = opened (parse_guard (c ∷ s)) (parse_guard-Fits (c ∷ s))
  where
    opened : (o : Option Guard) → Holds GuardFits o → StepFits (top_level (c ∷ s) p (opens_block o))
    opened none fits = (h, parse_notification-Fits (c ∷ s))
    opened (some g) fits = of_kind g.kind refl fits
      where
        of_kind :
            (k : GuardKind)
            → g.kind ≡ k
            → GuardFits g
            → StepFits (top_level (c ∷ s) p (opens_block (some g)))
        of_kind begin e fits = rw e (fits, tt)
        of_kind end e fits = rw e (h, parse_notification-Fits (c ∷ s))
        of_kind error e fits = rw e (h, parse_notification-Fits (c ∷ s))

push-Fits : (line : Bytes) (p : Parser) → IsBytes line → ParserFits p → StepFits (push line p)
unfolding push
push-Fits line p bytes = framed p.pending
  where
    passed :
        (o : Option Notification)
        → Holds NotificationFits o
        → StepFits (elim o [
          | some n ↦ (Frame.new, some (Event.notification n))
          | none ↦ push_at_top_level (from_utf8_lossy line) Frame.new
        ])
    passed none fits = push_at_top_level-Fits (from_utf8_lossy line) Frame.new tt
    passed (some n) fits = (tt, fits)

    framed :
        (o : Option PendingReply)
        → ParserFits (record { pending = o })
        → StepFits (push line (record { pending = o }))
    framed none h = passed (parse_output_line line) (parse_output_line-Fits line bytes)
    framed (some block) h =
        push_within_block-Fits (from_utf8_lossy line) (record { pending = some block }) h

event_list-Fits : (e : Option Event) → Holds EventFits e → All EventFits (event_list e)
event_list-Fits none h = tt
event_list-Fits (some e) h = (h, tt)

-- Whatever lines of bytes come, and from any parser whose open block has a number that is a `u64`:
-- what the parser reports fits the types of its fields, which the model takes as natural numbers.
-- Every identifier is a `u32`, every age and every reply's number a `u64`, every payload consists of
-- bytes, and every layout has numbers within their types, children in each split, and splits nested
-- at most 128 deep. The block that is still open has a number that is a `u64`.
pub push_all-Fits :
    (ls : List Bytes) (p : Parser)
    → All IsBytes ls
    → ParserFits p
    → ParserFits (push_all p ls).0 × All EventFits (push_all p ls).1
unfolding push_all
push_all-Fits [] p bytes h = (h, tt)
push_all-Fits (l ∷ ls) p (now, later) h =
    let (p', e) = push l p in
    let (h', fits) = push-Fits l p now h in
    let (h'', rest) = push_all-Fits ls p' later h' in
    (h'', All-append EventFits (event_list e) (push_all p' ls).1 (event_list-Fits e fits) rest)
