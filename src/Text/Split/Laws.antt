-- ===== src/Text/Split/Laws.antt =====
-- Cutting a text at the first separator, where one is known.
use tmuxctl.Base.{
  ℕ, suc, ◌≡◌, ◌≢◌, refl, ap, sym, ◌∙◌, none, some, [], ◌∷◌, ◌++◌, arith, Text, Bytes, Lacks,
  length,
}
use mathlib.Core.Option
use tmuxctl.Text.Split.{split, split_once, strip_prefix, position, position_of}

pub split-Lacks : (sep : ℕ) (p : Text) → Lacks sep p → split sep p ≡ p ∷ []
unfolding split
split-Lacks sep [] h = refl
split-Lacks sep (c ∷ p) (ne, h) = ground (arith, split-Lacks sep p h)

pub split-sep : (sep : ℕ) (p s : Text) → Lacks sep p → split sep (p ++ sep ∷ s) ≡ p ∷ split sep s
unfolding split
split-sep sep [] s h = ground arith
split-sep sep (c ∷ p) s (ne, h) = ground (arith, split-sep sep p s h)

pub split_once-sep :
    (sep : ℕ) (p s : Text) → Lacks sep p → split_once sep (p ++ sep ∷ s) ≡ some (p, s)
unfolding split_once
split_once-sep sep [] s h = ground arith
split_once-sep sep (c ∷ p) s (ne, h) = ground (arith, split_once-sep sep p s h)

pub split_once-Lacks : (sep : ℕ) (p : Text) → Lacks sep p → split_once sep p ≡ none
unfolding split_once
split_once-Lacks sep [] h = refl
split_once-Lacks sep (c ∷ p) (ne, h) = ground (arith, split_once-Lacks sep p h)

pub position-sep :
    (sep : ℕ) (p s : Bytes) → Lacks sep p → position sep (p ++ sep ∷ s) ≡ some (length p)
unfolding position
position-sep sep [] s h = ground arith
position-sep sep (c ∷ p) s (ne, h) = ground (arith, position-sep sep p s h)

pub position-Lacks : (sep : ℕ) (p : Bytes) → Lacks sep p → position sep p ≡ none
unfolding position
position-Lacks sep [] h = refl
position-Lacks sep (c ∷ p) (ne, h) = ground (arith, position-Lacks sep p h)

pub strip_prefix-append : (p s : Text) → strip_prefix p (p ++ s) ≡ some s
unfolding strip_prefix
strip_prefix-append [] s = refl
strip_prefix-append (c ∷ p) s = ground (arith, strip_prefix-append p s)

strip_prefix-head : (c d : ℕ) (p s : Text) → c ≢ d → strip_prefix (c ∷ p) (d ∷ s) ≡ none
unfolding strip_prefix
strip_prefix-head c d p s h = ground arith

position_of-skip :
    (needle : Text) (c : ℕ) (s : Text)
    → strip_prefix needle (c ∷ s) ≡ none
    → position_of needle (c ∷ s) ≡ Option.map suc (position_of needle s)
unfolding position_of
position_of-skip needle c s h = rw (h, position_of)

position_of-here :
    (needle : Text) (c : ℕ) (s : Text) {rest : Text}
    → strip_prefix needle (c ∷ s) ≡ some rest
    → position_of needle (c ∷ s) ≡ some 0
unfolding position_of
position_of-here needle c s h = rw (h, position_of)

-- A needle is found behind text that lacks its first character.
pub position_of-Lacks :
    (sep : ℕ) (needle p s : Text)
    → Lacks sep p
    → position_of (sep ∷ needle) (p ++ sep ∷ (needle ++ s)) ≡ some (length p)
position_of-Lacks sep needle [] s h =
    position_of-here (sep ∷ needle) sep (needle ++ s) (strip_prefix-append (sep ∷ needle) s)
position_of-Lacks sep needle (c ∷ p) s (ne, h) =
    position_of-skip (sep ∷ needle) c (p ++ sep ∷ (needle ++ s))
      (strip_prefix-head sep c needle _ (λ e. ne (sym e)))
    ∙ ap (Option.map suc) (position_of-Lacks sep needle p s h)
