-- ===== src/Layout/Parse/Wire.antt =====
-- src/layout.rs: `Layout::parse` on the two forms that the module renders, with and without the
-- checksum.
use tmuxctl.Base.{
  ℕ, ◌+◌, ◌*◌, ◌/◌, ◌%◌, ◌≤◌, ◌<◌, ◌≡◌, ◌≢◌, refl, sym, ap, ◌∙◌, true, false, none, some, [], ◌∷◌,
  ◌++◌, append_assoc, arith, Text, Bytes, ==_refl, All, All-append, Lacks, if◌then◌else◌,
}
use tmuxctl.Text.Utf8.{as_bytes}
use tmuxctl.Text.Utf8.RoundTrip.{as_bytes_ascii}
use tmuxctl.Text.Split.{split_once}
use tmuxctl.Text.Split.Laws.{split_once-sep}
use tmuxctl.Text.Number.{u16_bound, decimal}
use tmuxctl.Text.Number.RoundTrip.{decimal-Lacks}
use tmuxctl.Layout.Checksum.{checksum, checksum_loop, checksum_step}
use tmuxctl.Layout.Checksum.Detect.{checksum_detects}
use tmuxctl.Layout.Tree.{
  Layout, leaf, split_h, split_v, write_cell, render, hex_digit, hex4, to_layout_string,
}
use tmuxctl.Layout.Parse.{
  ok, err, checksum_mismatch, contains, is_hex_digit, hex_value, from_hex, looks_like_checksum,
  split_checksum, parse, max_layout_depth,
}
use tmuxctl.Layout.Parse.RoundTrip.{Fits, depth, parse_body-render}

-- One hexadecimal digit.
pub hex_digit_lem :
    (n : ℕ)
    → n < 16
    → (is_hex_digit (hex_digit n) ≡ true)
      × (hex_value (hex_digit n) ≡ n)
      × (hex_digit n < 0x67)
      × (hex_digit n ≢ b',')
unfolding is_hex_digit hex_digit hex_value
hex_digit_lem n h = ground arith

contains-here : (c : ℕ) (p q : Text) → contains c (p ++ c ∷ q) ≡ true
unfolding contains
contains-here c [] q = ground arith
contains-here c (d ∷ p) q = ground (arith, contains-here c p q)

hex4_lem :
    (n : ℕ)
    → hex4 n
      ≡ hex_digit (n / 4096 % 16)
        ∷ hex_digit (n / 256 % 16)
        ∷ hex_digit (n / 16 % 16)
        ∷ hex_digit (n % 16)
        ∷ []
unfolding hex4
hex4_lem n = refl

looks_like_digits :
    (a b c d : ℕ)
    → All (λ x. (is_hex_digit x ≡ true) × (x < 0x67)) (a ∷ b ∷ c ∷ d ∷ [])
    → looks_like_checksum (a ∷ b ∷ c ∷ d ∷ []) ≡ true
unfolding looks_like_checksum
looks_like_digits a b c d h =
    rw (as_bytes_ascii (a ∷ b ∷ c ∷ d ∷ []) (omega arith), looks_like_checksum) (ground arith)

looks_like_checksum-hex4 : (n : ℕ) → looks_like_checksum (hex4 n) ≡ true
looks_like_checksum-hex4 n = rw hex4_lem (
    looks_like_digits _ _ _ _ (
      hex _ (omega arith),
      (hex _ (omega arith), (hex _ (omega arith), (hex _ (omega arith), tt))),
    ))
  where
    hex : (m : ℕ) → m < 16 → (is_hex_digit (hex_digit m) ≡ true) × (hex_digit m < 0x67)
    hex m h = let (x, _, l, _) = hex_digit_lem m h in (x, l)

hex4-Lacks : (n : ℕ) → Lacks b',' (hex4 n)
hex4-Lacks n = rw hex4_lem (
  other _ (omega arith),
  (other _ (omega arith), (other _ (omega arith), (other _ (omega arith), tt))),
)
  where
    other : (m : ℕ) → m < 16 → hex_digit m ≢ b','
    other m h = let (_, _, _, c) = hex_digit_lem m h in c

from_hex_step :
    (m n : ℕ) (s : Text)
    → m < 16
    → n * 16 + m < u16_bound
    → from_hex (hex_digit m ∷ s) n ≡ from_hex s (n * 16 + m)
unfolding from_hex
from_hex_step m n s h l = let (_, v, _, _) = hex_digit_lem m h in rw v (ground arith)

from_hex-hex4 : (n : ℕ) → n < u16_bound → from_hex (hex4 n) 0 ≡ some n
from_hex-hex4 n h =
    let n₁ = 0 * 16 + n / 4096 % 16 in
    let n₂ = n₁ * 16 + n / 256 % 16 in
    let n₃ = n₂ * 16 + n / 16 % 16 in
    let whole : n₃ * 16 + n % 16 ≡ n = omega arith in
    rw (hex4_lem n) (
      from_hex_step (n / 4096 % 16) 0 _ (omega arith) (omega arith)
      ∙ from_hex_step (n / 256 % 16) n₁ _ (omega arith) (omega arith)
      ∙ from_hex_step (n / 16 % 16) n₂ _ (omega arith) (omega arith)
      ∙ from_hex_step (n % 16) n₃ [] (omega arith) (omega arith)
      ∙ (unfold from_hex in ap some whole))

checksum_loop-lt : (csum : ℕ) (s : Bytes) → csum < u16_bound → checksum_loop csum s < u16_bound
unfolding checksum_loop checksum_step
checksum_loop-lt csum [] h = h
checksum_loop-lt csum (c ∷ s) h = checksum_loop-lt (checksum_step csum c) s (omega arith)

pub checksum-lt : (s : Text) → checksum s < u16_bound
unfolding checksum
checksum-lt s = checksum_loop-lt 0 (as_bytes s) (omega arith)

split_checksum-some :
    (s head tail : Text)
    → split_once b',' s ≡ some (head, tail)
    → split_checksum s ≡ (if looks_like_checksum head then (from_hex head 0, tail) else (none, s))
unfolding split_checksum
split_checksum-some s head tail h = rw (h, split_checksum)

pub split_checksum-hex4 :
    (n : ℕ) (tree : Text) → n < u16_bound → split_checksum (hex4 n ++ b',' ∷ tree) ≡ (some n, tree)
split_checksum-hex4 n tree h =
    split_checksum-some _ (hex4 n) tree (split_once-sep b',' (hex4 n) tree (hex4-Lacks n))
    ∙ rw (looks_like_checksum-hex4 n, from_hex-hex4 n h)

-- Every layout whose numbers fit their types, whose splits have children and nest at most 128 deep,
-- is parsed back from its checksummed wire string.
pub parse-to_layout_string :
    (l : Layout) → Fits l → depth l ≤ max_layout_depth → parse (to_layout_string l) ≡ ok l
unfolding parse to_layout_string
parse-to_layout_string l fits deep =
    rw (split_checksum-hex4 (checksum (render l)) (render l) (checksum-lt (render l)), ==_refl)
      (parse_body-render l fits deep)

-- A wire string whose four digits are not the checksum of what follows is refused with both
-- values, whatever follows.
pub parse_mismatch :
    (n : ℕ) (body : Text)
    → n < u16_bound
    → checksum body ≢ n
    → parse (hex4 n ++ b',' ∷ body) ≡ err (checksum_mismatch (checksum body) n)
unfolding parse
parse_mismatch n body h ne = rw (split_checksum-hex4 n body h) (ground arith)

looks_like_x : (p q : Text) → looks_like_checksum (p ++ b'x' ∷ q) ≡ false
unfolding looks_like_checksum
looks_like_x p q = rw (contains-here b'x' p q) (ground arith)

-- A rendered tree begins with the width, an `x` and the height, before the first comma.
render-head :
    (l : Layout)
    → (w h : ℕ) × (rest : Text) × (render l ≡ (decimal w ++ b'x' ∷ decimal h) ++ b',' ∷ rest)
unfolding render write_cell
render-head (leaf w h x y pane) = (w, h, _, sym (append_assoc (decimal w) _ _))
render-head (split_h w h x y ls) = (w, h, _, sym (append_assoc (decimal w) _ _))
render-head (split_v w h x y ls) = (w, h, _, sym (append_assoc (decimal w) _ _))

pub split_checksum-render : (l : Layout) → split_checksum (render l) ≡ (none, render l)
split_checksum-render l =
    let (w, h, rest, e) = render-head l in
    let head = decimal w ++ b'x' ∷ decimal h in
    let lacks =
      All-append _ (decimal w) (b'x' ∷ decimal h) (decimal-Lacks b',' w (λ d. omega arith))
        (omega arith, decimal-Lacks b',' h (λ d. omega arith)) in
    split_checksum-some (render l) head rest
      (ap (split_once b',') e ∙ split_once-sep b',' head rest lacks)
    ∙ rw (looks_like_x (decimal w) (decimal h))

-- Without its checksum it is parsed back too: a cell holds an `x`, so no part of a bare tree is
-- taken for a checksum.
pub parse-render : (l : Layout) → Fits l → depth l ≤ max_layout_depth → parse (render l) ≡ ok l
unfolding parse
parse-render l fits deep = rw (split_checksum-render l) (parse_body-render l fits deep)

-- A wire string with one character of its tree changed is refused: its digits are the checksum of
-- the tree as it was, and the error holds both checksums.
pub parse_corrupt :
    (p q : Text) (a b : ℕ)
    → All (λ c. c < 0x80) (p ++ a ∷ q)
    → All (λ c. c < 0x80) (p ++ b ∷ q)
    → a ≢ b
    → parse (hex4 (checksum (p ++ a ∷ q)) ++ b',' ∷ (p ++ b ∷ q))
      ≡ err (checksum_mismatch (checksum (p ++ b ∷ q)) (checksum (p ++ a ∷ q)))
parse_corrupt p q a b ha hb ne =
    parse_mismatch (checksum (p ++ a ∷ q)) (p ++ b ∷ q) (checksum-lt (p ++ a ∷ q))
      (λ e. checksum_detects p q a b ha hb ne (sym e))
