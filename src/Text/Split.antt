-- ===== src/Text/Split.antt =====
-- `str::split`, `split_once`, `strip_prefix`, `trim`, and the searches in byte slices, as the parser
-- calls them. A text is the list of its characters.
pub mod Laws
use tmuxctl.Base.{
  ℕ, zero, suc, ◌+◌, ◌≡◌, ◌≢◌, refl, ap, Bool, true, false, ◌&&◌, ◌||◌, Option, none, some, List,
  [], ◌∷◌, ◌++◌, arith, Text, Bytes, Lacks, leb, ◌==◌, if◌then◌else◌, length, take, drop, codes,
}
use mathlib.Core.Option
use mathlib.Core.List.{reverse}

-- `s.split(sep)`: the pieces between the separators, at least one.
cons_piece : ℕ → List Text → List Text
cons_piece c [] = (c ∷ []) ∷ []
cons_piece c (p ∷ ps) = (c ∷ p) ∷ ps

unfoldable pub split : ℕ → Text → List Text
unfolding cons_piece
split sep [] = [] ∷ []
split sep (c ∷ s) = if c == sep then [] ∷ split sep s else cons_piece c (split sep s)

-- `s.split_once(sep)`
unfoldable pub split_once : ℕ → Text → Option (Text × Text)
split_once sep [] = none
split_once sep (c ∷ s) =
    if c == sep then some ([], s) else Option.map (λ (a, b). (c ∷ a, b)) (split_once sep s)

-- `s.strip_prefix(p)` for a text, on bytes and on characters alike
unfoldable pub strip_prefix : Text → Text → Option Text
strip_prefix [] s = some s
strip_prefix (p ∷ ps) [] = none
strip_prefix (p ∷ ps) (c ∷ s) = if p == c then strip_prefix ps s else none

-- `s.split_once(p)` for a text `p`
unfoldable pub split_once_text : Text → Text → Option (Text × Text)
unfolding strip_prefix
split_once_text p [] = Option.map (λ rest. ([], rest)) (strip_prefix p [])
split_once_text p (c ∷ s) =
    let later = Option.map (λ (a, b). (c ∷ a, b)) (split_once_text p s) in
    elim (strip_prefix p (c ∷ s)) [ some rest ↦ some ([], rest) | none ↦ later ]

-- `bytes.iter().position(|&b| b == sep)`
unfoldable pub position : ℕ → Bytes → Option ℕ
position sep [] = none
position sep (c ∷ s) = if c == sep then some 0 else Option.map suc (position sep s)

-- `haystack.windows(needle.len()).position(|w| w == needle)`, for a needle that is not empty
unfoldable pub position_of : Bytes → Bytes → Option ℕ
unfolding strip_prefix
position_of needle [] = none
position_of needle (c ∷ s) =
    let later = Option.map suc (position_of needle s) in
    elim (strip_prefix needle (c ∷ s)) [ some _ ↦ some 0 | none ↦ later ]

-- `char::is_whitespace`: the code points with the property White_Space
is_whitespace : ℕ → Bool
is_whitespace c =
    leb 9 c && leb c 13
    || c == 32
    || c == 0x85
    || c == 0xA0
    || c == 0x1680
    || leb 0x2000 c && leb c 0x200A
    || c == 0x2028
    || c == 0x2029
    || c == 0x202F
    || c == 0x205F
    || c == 0x3000

trim_start : Text → Text
unfolding is_whitespace
trim_start [] = []
trim_start (c ∷ s) = if is_whitespace c then trim_start s else c ∷ s

-- `s.trim()`
unfoldable pub trim : Text → Text
unfolding trim_start
trim s = reverse (trim_start (reverse (trim_start s)))
