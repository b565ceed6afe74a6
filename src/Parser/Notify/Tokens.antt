-- ===== src/Parser/Notify/Tokens.antt =====
-- src/parser.rs and src/ids.rs: the printed identifiers are read back.
use tmuxctl.Base.{
  ℕ, ◌<◌, ◌≡◌, ◌≢◌, ◌⊎◌, inl, inr, refl, ap, ◌∙◌, some, none, [], ◌∷◌, ◌++◌, append-nil, Text,
  Lacks, arith, codes,
}
use mathlib.Core.Option
use tmuxctl.Text.Split.{split, split_once_text, strip_prefix}
use tmuxctl.Text.Split.Laws.{split-sep, split-Lacks}
use tmuxctl.Text.Number.{u32_bound}
use tmuxctl.Text.Number.RoundTrip.{decimal-Lacks, parse_uint-decimal}
use tmuxctl.Ids.{
  PaneId, WindowId, SessionId, pane_number, window_number, session_number, show_pane, show_window,
  show_session,
}
use tmuxctl.Parser.Notify.{pane_id, window_id, session_id, first_part, first_pane, first_window}

pub pane_id-show : (p : PaneId) → pane_number p < u32_bound → pane_id (show_pane p) ≡ some p
unfolding pane_id show_pane strip_prefix
pane_id-show (PaneId.mk n) h = rw (parse_uint-decimal u32_bound n h)

pub window_id-show :
    (w : WindowId) → window_number w < u32_bound → window_id (show_window w) ≡ some w
unfolding window_id show_window strip_prefix
window_id-show (WindowId.mk n) h = rw (parse_uint-decimal u32_bound n h)

pub session_id-show :
    (s : SessionId) → session_number s < u32_bound → session_id (show_session s) ≡ some s
unfolding session_id show_session strip_prefix
session_id-show (SessionId.mk n) h = rw (parse_uint-decimal u32_bound n h)

pub show_pane-Lacks : (p : PaneId) → Lacks b' ' (show_pane p)
unfolding show_pane
show_pane-Lacks (PaneId.mk n) = (omega arith, decimal-Lacks b' ' n (λ d. omega arith))

pub show_window-Lacks : (w : WindowId) → Lacks b' ' (show_window w)
unfolding show_window
show_window-Lacks (WindowId.mk n) = (omega arith, decimal-Lacks b' ' n (λ d. omega arith))

pub show_session-Lacks : (s : SessionId) → Lacks b' ' (show_session s)
unfolding show_session
show_session-Lacks (SessionId.mk n) = (omega arith, decimal-Lacks b' ' n (λ d. omega arith))

-- Nothing more on the line, or a space and anything.
abbrev pub Ends : Text → Type 0
Ends tail = (tail ≡ []) ⊎ ((t : Text) × (tail ≡ b' ' ∷ t))

pub first_part-Ends :
    (p tail : Text) → Lacks b' ' p → Ends tail → first_part (split b' ' (p ++ tail)) ≡ some p
unfolding first_part
first_part-Ends p tail h (inl e) = rw (e, append-nil, split-Lacks b' ' p h)
first_part-Ends p tail h (inr (t, e)) = rw (e, split-sep b' ' p t h)

pub first_window-Ends :
    (w : WindowId) (tail : Text)
    → window_number w < u32_bound
    → Ends tail
    → first_window (show_window w ++ tail) ≡ some w
unfolding first_window
first_window-Ends w tail h e =
    rw (first_part-Ends (show_window w) tail (show_window-Lacks w) e) (window_id-show w h)

pub first_pane-Ends :
    (p : PaneId) (tail : Text)
    → pane_number p < u32_bound
    → Ends tail
    → first_pane (show_pane p ++ tail) ≡ some p
unfolding first_pane
first_pane-Ends p tail h e =
    rw (first_part-Ends (show_pane p) tail (show_pane-Lacks p) e) (pane_id-show p h)

-- A separator does not start before a character that is no colon.
strip_prefix-colon : (c d : ℕ) (s : Text) → d ≢ b':' → strip_prefix (codes " : ") (c ∷ d ∷ s) ≡ none
unfolding strip_prefix
strip_prefix-colon c d s h = ground arith

split_once_text-skip :
    (needle : Text) (c : ℕ) (s : Text)
    → strip_prefix needle (c ∷ s) ≡ none
    → split_once_text needle (c ∷ s) ≡ Option.map (λ (a, b). (c ∷ a, b)) (split_once_text needle s)
unfolding split_once_text
split_once_text-skip needle c s h = rw (h, split_once_text)

-- The text before the first ` : `, where it holds no colon.
pub split_once_text-colon :
    (p v : Text)
    → Lacks b':' p
    → split_once_text (codes " : ") (p ++ (codes " : " ++ v)) ≡ some (p, v)
split_once_text-colon [] v h = unfold split_once_text strip_prefix in refl
split_once_text-colon (c ∷ []) v h =
    split_once_text-skip (codes " : ") c (codes " : " ++ v)
      (strip_prefix-colon c b' ' (codes ": " ++ v) (λ e. omega arith))
    ∙ rw (split_once_text-colon [] v tt)
split_once_text-colon (c ∷ d ∷ p) v h =
    split_once_text-skip (codes " : ") c (d ∷ (p ++ (codes " : " ++ v)))
      (strip_prefix-colon c d (p ++ (codes " : " ++ v)) h.1.0)
    ∙ ap (Option.map (λ (a, b). (c ∷ a, b))) (split_once_text-colon (d ∷ p) v h.1)
