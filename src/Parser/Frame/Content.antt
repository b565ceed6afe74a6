-- ===== src/Parser/Frame/Content.antt =====
-- src/parser.rs: no content line is lost, doubled or moved.
use tmuxctl.Base.{
  ◌≡◌, inl, inr, refl, sym, ap, ◌∙◌, Option, some, none, List, [], ◌∷◌, ◌++◌, append_assoc,
  append-nil, Text, Bytes, Option-cases,
}
use tmuxctl.Text.Utf8.{from_utf8_lossy}
use tmuxctl.Parser.Guard.{GuardKind, Guard, begin, end, error, parse_guard}
use tmuxctl.Parser.Payload.{parse_output_line}
use tmuxctl.Parser.Frame.{
  Event, PendingReply, Parser, new, close_block, on_guard, push_within_block, opens_block,
  top_level, push_at_top_level, push,
}
use tmuxctl.Parser.Frame.Blocks.{push_all, event_list, in_block, push-top, push-top_output}

-- The content lines that a parser is still holding, and those of a list of events.
abbrev pub held : Parser → List Text
held p = elim p.pending [ none ↦ [] | some b ↦ b.output ]

abbrev pub reported : List Event → List Text
reported [] = []
reported (Event.notification n ∷ es) = reported es
reported (Event.reply r ∷ es) = r.output ++ reported es

-- The line is content where a block is open and it is no guard.
abbrev content_if : Option PendingReply → Option Guard → Text → List Text
content_if none g l = []
content_if (some b) (some g) l = []
content_if (some b) none l = l ∷ []

-- The content lines among those pushed, in order.
pub content_lines : Parser → List Bytes → List Text
content_lines p [] = []
content_lines p (l ∷ ls) =
    content_if p.pending (parse_guard (from_utf8_lossy l)) (from_utf8_lossy l)
    ++ content_lines (push l p).0 ls

-- What is reported of one line, and what is held after it.
abbrev account : Parser × Option Event → List Text
account (p, e) = reported (event_list e) ++ held p

on_guard-account :
    (k : GuardKind) (g : Guard) (b : PendingReply)
    → account (on_guard k g (in_block b)) ≡ b.output ++ []
unfolding on_guard close_block
on_guard-account begin g b = append-nil (b.output ++ [])
on_guard-account end g b = append-nil (b.output ++ [])
on_guard-account error g b = append-nil (b.output ++ [])

within-account :
    (b : PendingReply) (t : Text) (o : Option Guard)
    → parse_guard t ≡ o
    → account (push_within_block t (in_block b)) ≡ b.output ++ content_if (some b) o t
unfolding push_within_block
within-account b t none e = rw (e, push_within_block)
within-account b t (some g) e = rw (e, push_within_block) (on_guard-account g.kind g b)

top_level-account : (t : Text) (o : Option Guard) → account (top_level t new o) ≡ []
unfolding top_level
top_level-account t none = refl
top_level-account t (some g) = refl

at_top-account : (t : Text) → account (push_at_top_level t new) ≡ []
unfolding push_at_top_level
at_top-account [] = refl
at_top-account (c ∷ t) = top_level-account (c ∷ t) (opens_block (parse_guard (c ∷ t)))

top-account : (l : Bytes) → account (push l new) ≡ []
top-account l = elim (Option-cases (parse_output_line l)) [
  | inl e ↦ ap account (push-top l e) ∙ at_top-account (from_utf8_lossy l)
  | inr (n, e) ↦ ap account (push-top_output l e)
]

-- One line: what it reports and what is held after it is what was held before it and the line
-- itself if it is content.
step-account :
    (o : Option PendingReply) (l : Bytes)
    → account (push l (record { pending = o }))
      ≡ held (record { pending = o })
        ++ content_if o (parse_guard (from_utf8_lossy l)) (from_utf8_lossy l)
step-account none l = top-account l
step-account (some b) l =
    unfold push in within-account b (from_utf8_lossy l) (parse_guard (from_utf8_lossy l)) refl

reported-append : (xs ys : List Event) → reported (xs ++ ys) ≡ reported xs ++ reported ys
reported-append [] ys = refl
reported-append (Event.notification n ∷ xs) ys = reported-append xs ys
reported-append (Event.reply r ∷ xs) ys =
    rw (reported-append xs ys) (sym (append_assoc r.output (reported xs) (reported ys)))

-- Whatever lines come, from whatever state: the content lines that the replies report, in order,
-- followed by those of the block still open, are those that were held at the start followed by
-- each line that came inside a block and was no guard. None is lost, doubled or moved.
pub push_all_content :
    (p : Parser) (ls : List Bytes)
    → reported (push_all p ls).1 ++ held (push_all p ls).0 ≡ held p ++ content_lines p ls
unfolding push_all content_lines
push_all_content p [] = sym (append-nil (held p))
push_all_content p (l ∷ ls) =
    let now = content_if p.pending (parse_guard (from_utf8_lossy l)) (from_utf8_lossy l) in
    rw
      (
        reported-append (event_list (push l p).1) (push_all (push l p).0 ls).1,
        append_assoc,
        push_all_content (push l p).0 ls,
      )
      (sym (
          append_assoc (reported (event_list (push l p).1)) (held (push l p).0)
            (content_lines (push l p).0 ls))
        ∙ ap (λ t. t ++ content_lines (push l p).0 ls) (step-account p.pending l)
        ∙ append_assoc (held p) now (content_lines (push l p).0 ls))
