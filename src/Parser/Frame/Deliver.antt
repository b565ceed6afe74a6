-- ===== src/Parser/Frame/Deliver.antt =====
-- src/parser.rs: at top level, each documented line is delivered as its notification, and nothing
-- but a blank line and `%begin` goes without an event.
use tmuxctl.Base.{
  ℕ, ◌<◌, ◌≡◌, ◌⊎◌, inl, inr, refl, sym, ap, ◌∙◌, Option, some, none, List, [], ◌∷◌, ◌++◌, Text,
  Bytes, All, codes, Option-cases, arith,
}
use tmuxctl.Text.Split.{split, strip_prefix}
use tmuxctl.Text.Number.{u32_bound, u64_bound, decimal}
use tmuxctl.Text.Utf8.{as_bytes, from_utf8_lossy}
use tmuxctl.Text.Utf8.RoundTrip.{IsScalar, from_utf8_lossy-as_bytes}
use tmuxctl.Ids.{PaneId, pane_number, show_pane}
use tmuxctl.Output.Decodes.{escape}
use tmuxctl.Notification.{Notification}
use tmuxctl.Parser.Guard.{GuardKind, Guard, begin, guard_kind, guard_parts, parse_guard}
use tmuxctl.Parser.Notify.{parse_notification}
use tmuxctl.Parser.Notify.Wire
use tmuxctl.Parser.Notify.Wire.{WireLine}
use tmuxctl.Parser.Notify.Reads.{parse_notification-wire}
use tmuxctl.Parser.Payload.{parse_output_line}
use tmuxctl.Parser.Payload.Wire.{parse_output_line-output, parse_output_line-extended}
use tmuxctl.Parser.Frame.{Event, new, opens_block, top_level, push_at_top_level, push}
use tmuxctl.Parser.Frame.Blocks.{push-top, push-top_output}

guard_parts-word :
    (word : Text) (ps : List Text) → guard_kind word ≡ none → guard_parts (word ∷ ps) ≡ none
unfolding guard_parts
guard_parts-word word [] h = refl
guard_parts-word word (t ∷ []) h = refl
guard_parts-word word (t ∷ n ∷ []) h = refl
guard_parts-word word (t ∷ n ∷ f ∷ []) h = rw h
guard_parts-word word (t ∷ n ∷ f ∷ x ∷ ps) h = refl

abbrev head_kind : List Text → Option GuardKind
head_kind [] = none
head_kind (word ∷ ps) = guard_kind word

guard_parts-head : (ps : List Text) → head_kind ps ≡ none → guard_parts ps ≡ none
guard_parts-head [] h = unfold guard_parts in refl
guard_parts-head (word ∷ ps) h = guard_parts-word word ps h

parse_guard-head :
    (rest : Text) → head_kind (split b' ' rest) ≡ none → parse_guard (b'%' ∷ rest) ≡ none
unfolding parse_guard strip_prefix
parse_guard-head rest h = guard_parts-head (split b' ' rest) h

not_output :
    {n : Notification} {line : Text} → WireLine n line → parse_output_line (as_bytes line) ≡ none
unfolding parse_output_line strip_prefix as_bytes
not_output (Wire.layout_change _ _ _ _ _ _ _) = refl
not_output _ = refl

not_guard : {n : Notification} {line : Text} → WireLine n line → parse_guard line ≡ none
unfolding split guard_kind
not_guard (Wire.layout_change _ _ _ _ _ _ _) = parse_guard-head _ refl
not_guard _ = parse_guard-head _ refl

not_blank :
    {n : Notification} {line : Text} → WireLine n line → (c : ℕ) × (s : Text) × (line ≡ c ∷ s)
not_blank (Wire.layout_change _ _ _ _ _ _ _) = (b'%', _, refl)
not_blank _ = (b'%', _, refl)

at_top-notification :
    (t : Text) {c : ℕ} {s : Text}
    → t ≡ c ∷ s
    → parse_guard t ≡ none
    → push_at_top_level t new ≡ (new, some (Event.notification (parse_notification t)))
unfolding push_at_top_level
at_top-notification [] e g = cc
at_top-notification (c ∷ s) e g = rw (g, opens_block)

-- At top level the bytes of each documented text line are delivered as exactly its notification,
-- and the parser stays at top level. The line must be Unicode text.
pub push-WireLine :
    {n : Notification} {line : Text}
    → WireLine n line
    → All IsScalar line
    → push (as_bytes line) new ≡ (new, some (Event.notification n))
push-WireLine {line} w h =
    push-top (as_bytes line) (not_output w)
    ∙ ap (λ t. push_at_top_level t new) (from_utf8_lossy-as_bytes line h)
    ∙ at_top-notification line (not_blank w).2 (not_guard w)
    ∙ ap (λ m. (new, some (Event.notification m))) (parse_notification-wire w)

-- The bytes of an output line are delivered at top level as the pane and the bytes written, and
-- those of an extended one with its age too.
pub push-output :
    (p : PaneId) (ms : ℕ) (bytes : Bytes)
    → pane_number p < u32_bound
    → ms < u64_bound
    → (push (codes "%output " ++ (show_pane p ++ b' ' ∷ escape bytes)) new
        ≡ (new, some (Event.notification (Notification.output p bytes))))
      × (push
            (codes "%extended-output "
              ++ (show_pane p ++ b' ' ∷ (decimal ms ++ (codes " : " ++ escape bytes))))
            new
          ≡ (new, some (Event.notification (Notification.extended_output p ms bytes))))
push-output p ms bytes h hm = (
  push-top_output _ (parse_output_line-output p bytes h),
  push-top_output _ (parse_output_line-extended p ms bytes h hm),
)

opens-begin :
    (t : Text) (g : Guard) → (top_level t new (opens_block (some g))).1 ≡ none → g.kind ≡ begin
unfolding top_level opens_block
opens-begin t g h = ground arith

guard-silent :
    (t : Text) (o : Option Guard)
    → (top_level t new (opens_block o)).1 ≡ none
    → (g : Guard) × (o ≡ some g) × (g.kind ≡ begin)
guard-silent t none h = unfold top_level opens_block in cc
guard-silent t (some g) h = (g, refl, opens-begin t g h)

at_top-silent :
    (t : Text)
    → (push_at_top_level t new).1 ≡ none
    → (t ≡ []) ⊎ ((g : Guard) × (parse_guard t ≡ some g) × (g.kind ≡ begin))
at_top-silent [] h = inl refl
at_top-silent (c ∷ s) h =
    inr (guard-silent (c ∷ s) (parse_guard (c ∷ s)) (unfold push_at_top_level in h))

-- At top level a line goes without an event only where it is blank or opens a block; so a line of
-- any other form is delivered, at the least as unknown.
pub push_silent :
    (l : Bytes)
    → (push l new).1 ≡ none
    → (from_utf8_lossy l ≡ [])
      ⊎ ((g : Guard) × (parse_guard (from_utf8_lossy l) ≡ some g) × (g.kind ≡ begin))
push_silent l h = elim (Option-cases (parse_output_line l)) [
  | inl e ↦ at_top-silent (from_utf8_lossy l) (sym (ap (λ r. r.1) (push-top l e)) ∙ h)
  | inr (n, e) ↦ cc (push-top_output l e)
]
