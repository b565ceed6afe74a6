-- ===== src/Layout/Parse.antt =====
-- src/layout.rs: `Layout::parse`, the recursive descent, on fuel that the input's length bounds.
-- An error keeps the values that its message prints.
pub mod Cell
pub mod RoundTrip
pub mod Wire
pub mod Sound
pub mod Deep
use tmuxctl.Base.{
  ℕ, zero, suc, ◌+◌, ◌-◌, ◌*◌, ◌≡◌, refl, Bool, true, false, not, ◌&&◌, ◌||◌, Option, none, some,
  List, [], ◌∷◌, ◌++◌, Text, ltb, leb, ◌==◌, if◌then◌else◌, length, codes,
}
use tmuxctl.Text.Utf8.{as_bytes}
use tmuxctl.Text.Split.{split_once}
use tmuxctl.Text.Number.{u16_bound, u32_bound, is_digit, parse_uint}
use tmuxctl.Ids.{PaneId}
use tmuxctl.Layout.Checksum.{checksum}
use tmuxctl.Layout.Tree.{Layout, Layouts, leaf, split_h, split_v, nil, cons}

pub data LayoutError : Type 0 where
  checksum_mismatch : (computed expected : ℕ) → LayoutError
  trailing_input : Text → LayoutError
  too_deep : LayoutError
  no_pane_or_split : Text → LayoutError
  bad_separator : (close got : ℕ) → LayoutError
  unterminated : (close : ℕ) → LayoutError
  no_delimiter : (delim : ℕ) → Text → LayoutError
  no_number : Text → LayoutError
  number_range : Text → LayoutError
  no_pane_id : Text → LayoutError
  pane_range : Text → LayoutError

-- `Result<A, Error>`; `out_of_fuel` has no counterpart in the program.
pub data Parsed {ℓ} (A : Type ℓ) : Type ℓ where
  ok : A → Parsed A
  err : LayoutError → Parsed A
  out_of_fuel : Parsed A

infixl 5 ◌>>=◌
abbrev pub ◌>>=◌ {ℓ κ} : {A : Type ℓ} {B : Type κ} → Parsed A → (A → Parsed B) → Parsed B
ok a >>= f = f a
err e >>= f = err e
out_of_fuel >>= f = out_of_fuel

-- `s.find(|c| !c.is_ascii_digit())`, as the digits before it and the text from it on
unfoldable pub span_digits : Text → Text × Text
span_digits [] = ([], [])
span_digits (c ∷ s) =
    let (digits, rest) = span_digits s in if is_digit c then (c ∷ digits, rest) else ([], c ∷ s)

-- `s[..end].parse()` at a type of `bound` values, for `end > 0`
number_of : ℕ → Text → LayoutError → Parsed ℕ
number_of bound digits e = elim (parse_uint bound digits) [ some n ↦ ok n | none ↦ err e ]

pub is_separator : ℕ → Bool
is_separator c = c == b'x' || c == b',' || c == b'{' || c == b'['

-- The delimiter behind a number, consumed if it is one of `x , { [`.
split_separator : ℕ → Text → ℕ × Text × Option ℕ
unfolding is_separator
split_separator value [] = (value, [], none)
split_separator value (c ∷ rest) =
    if is_separator c then (value, rest, some c) else (value, c ∷ rest, none)

unfoldable pub take_dimension : Text → Parsed (ℕ × Text × Option ℕ)
unfolding span_digits number_of split_separator
take_dimension s =
    let (digits, rest) = span_digits s in
    let found = (do
      value ← number_of u16_bound digits (number_range digits)
      ok (split_separator value rest)) in
    if length digits == 0 then err (no_number s) else found

check_delim : ℕ → Text → ℕ × Text × Option ℕ → Parsed (ℕ × Text)
check_delim delim s (value, rest, none) = err (no_delimiter delim s)
check_delim delim s (value, rest, some c) =
    if c == delim then ok (value, rest) else err (no_delimiter delim s)

unfoldable pub take_number : Text → ℕ → Parsed (ℕ × Text)
unfolding take_dimension check_delim
take_number s delim = do taken ← take_dimension s; check_delim delim s taken

unfoldable pub take_pane : Text → Parsed (PaneId × Text)
unfolding span_digits number_of
take_pane s =
    let (digits, rest) = span_digits s in
    let found = (do id ← number_of u32_bound digits (pane_range digits); ok (PaneId.mk id, rest)) in
    if length digits == 0 then err (no_pane_id s) else found

abbrev pub max_layout_depth : ℕ
max_layout_depth = 128

-- What stands behind a cell. The two arguments that are functions parse the children up to a
-- closing bracket, and hold the recursive calls.
pub after_cell :
    (w h x y : ℕ) → Option ℕ → Text → (ℕ → Parsed (Layouts × Text)) → Parsed (Layout × Text)
unfolding take_pane
after_cell w h x y none s children = err (no_pane_or_split s)
after_cell w h x y (some c) s children =
    if c == b'{'
    then (do (inner, rest) ← children b'}'; ok (split_h w h x y inner, rest))
    else if c == b'['
    then (do (inner, rest) ← children b']'; ok (split_v w h x y inner, rest))
    else if c == b','
    then (do (pane, rest) ← take_pane s; ok (leaf w h x y pane, rest))
    else err (no_pane_or_split s)

-- What stands behind a child; `more` parses the children after a comma.
pub after_child : ℕ → Layout → Text → (Text → Parsed (Layouts × Text)) → Parsed (Layouts × Text)
after_child close child [] more = err (unterminated close)
after_child close child (c ∷ s) more =
    if c == close
    then ok (cons child nil, s)
    else if c == b','
    then (do (children, rest) ← more s; ok (cons child children, rest))
    else err (bad_separator close c)

unfoldable mutual
  unfolding take_number take_dimension after_cell after_child

  pub parse_node : ℕ → Text → ℕ → Parsed (Layout × Text)
  parse_node zero s depth = out_of_fuel
  parse_node (suc f) s depth =
      let node = do
        (w, s₁) ← take_number s b'x'
        (h, s₂) ← take_number s₁ b','
        (x, s₃) ← take_number s₂ b','
        (y, s₄, sep) ← take_dimension s₃
        after_cell w h x y sep s₄ (λ close. parse_children f s₄ close (depth + 1))
      in if ltb max_layout_depth depth then err too_deep else node

  pub parse_children : ℕ → Text → ℕ → ℕ → Parsed (Layouts × Text)
  parse_children zero s close depth = out_of_fuel
  parse_children (suc f) s close depth = do
    (child, rest) ← parse_node f s depth
    after_child close child rest (λ t. parse_children f t close depth)

-- `b.is_ascii_hexdigit()`
pub is_hex_digit : ℕ → Bool
is_hex_digit c = is_digit c || leb b'a' c && leb c b'f' || leb b'A' c && leb c b'F'

all_hex : Text → Bool
unfolding is_hex_digit
all_hex [] = true
all_hex (c ∷ s) = is_hex_digit c && all_hex s

contains : ℕ → Text → Bool
contains c [] = false
contains c (d ∷ s) = d == c || contains c s

pub hex_value : ℕ → ℕ
hex_value c = if is_digit c then c - b'0' else if leb b'a' c then c - 87 else c - 55

-- `u16::from_str_radix(head, 16).ok()`, for hexadecimal digits
unfoldable pub from_hex : Text → ℕ → Option ℕ
unfolding hex_value
from_hex [] n = some n
from_hex (c ∷ s) n = let m = n * 16 + hex_value c in if ltb m u16_bound then from_hex s m else none

unfoldable pub looks_like_checksum : Text → Bool
unfolding contains all_hex
looks_like_checksum head =
    length (as_bytes head) == 4 && (not (contains b'x' head) && all_hex (as_bytes head))

unfoldable pub split_checksum : Text → Option ℕ × Text
unfolding looks_like_checksum from_hex
split_checksum s = elim (split_once b',' s) [
  | none ↦ (none, s)
  | some (head, tail) ↦ if looks_like_checksum head then (from_hex head 0, tail) else (none, s)
]

finish : Layout × Text → Parsed Layout
finish (layout, []) = ok layout
finish (layout, c ∷ rest) = err (trailing_input (c ∷ rest))

unfoldable pub parse_body : Text → Parsed Layout
unfolding parse_node finish
parse_body body = do node ← parse_node (2 * length body + 1) body 0; finish node

check_body : Option ℕ → Text → Parsed Layout
check_body none body = parse_body body
check_body (some expected) body =
    let actual = checksum body in
    if actual == expected then parse_body body else err (checksum_mismatch actual expected)

-- `Layout::parse`
unfoldable pub parse : Text → Parsed Layout
unfolding split_checksum check_body
parse s = let (expected, body) = split_checksum s in check_body expected body

parse_reference :
    parse (codes "08c7,2x3,0,0{1x3,0,0,4,1x3,2,0,5}") ≡ err (checksum_mismatch 0xd832 0x08c7)
unfolding parse parse_body split_once parse_uint checksum as_bytes
parse_reference = refl
