-- ===== src/Layout/Parse/Cell.antt =====
-- src/layout.rs: what the parser makes of rendered numbers and of a rendered cell.
use tmuxctl.Base.{
  ℕ, suc, ◌+◌, ◌≤◌, ◌<◌, ◌≡◌, refl, true, false, some, [], ◌∷◌, ◌++◌, arith, Text, All, ◌==◌,
  length, le→ltb,
}
use tmuxctl.Text.Number.{u16_bound, u32_bound, decimal}
use tmuxctl.Text.Number.RoundTrip.{IsDigit, decimal-digits, decimal-cons, parse_uint-decimal}
use tmuxctl.Ids.{PaneId}
use tmuxctl.Layout.Tree.{write_cell}
use tmuxctl.Layout.Parse.{
  LayoutError, ok, span_digits, number_of, is_separator, take_dimension, take_number, take_pane,
  after_cell, parse_node, parse_children, max_layout_depth,
}

-- The text does not go on with a digit.
abbrev pub NoDigit : Text → Type 0
NoDigit [] = Unit
NoDigit (c ∷ s) = ¬ IsDigit c

span_digits-append :
    (p rest : Text) → All IsDigit p → NoDigit rest → span_digits (p ++ rest) ≡ (p, rest)
unfolding span_digits
span_digits-append [] [] d n = refl
span_digits-append [] (c ∷ rest) d n = ground arith
span_digits-append (c ∷ p) rest (dc, d) n = ground (arith, span_digits-append p rest d n)

number_of-decimal :
    (bound n : ℕ) (e : LayoutError) → n < bound → number_of bound (decimal n) e ≡ ok n
unfolding number_of
number_of-decimal bound n e h = rw (parse_uint-decimal bound n h, number_of)

length-decimal : (n : ℕ) → (length (decimal n) == 0) ≡ false
length-decimal n = let (c, t, e, _, _) = decimal-cons n in rw e (ground arith)

separator-NoDigit : (c : ℕ) → is_separator c ≡ true → ¬ IsDigit c
unfolding is_separator
separator-NoDigit c s = ground arith

sep_x : is_separator b'x' ≡ true
unfolding is_separator
sep_x = refl

sep_comma : is_separator b',' ≡ true
unfolding is_separator
sep_comma = refl

-- A rendered dimension and the separator behind it.
take_dimension-decimal :
    (n c : ℕ) (rest : Text)
    → n < u16_bound
    → is_separator c ≡ true
    → take_dimension (decimal n ++ c ∷ rest) ≡ ok (n, rest, some c)
unfolding take_dimension
take_dimension-decimal n c rest h s =
    rw
      (
        span_digits-append (decimal n) (c ∷ rest) (decimal-digits n) (separator-NoDigit c s),
        take_dimension,
      )
      (rw (length-decimal n, number_of-decimal u16_bound n _ h) (rw s))

take_number-decimal :
    (n delim : ℕ) (rest : Text)
    → n < u16_bound
    → is_separator delim ≡ true
    → take_number (decimal n ++ delim ∷ rest) delim ≡ ok (n, rest)
unfolding take_number
take_number-decimal n delim rest h s = rw (take_dimension-decimal n delim rest h s) (ground arith)

-- A rendered pane id, where no digit follows.
pub take_pane-decimal :
    (n : ℕ) (rest : Text)
    → n < u32_bound
    → NoDigit rest
    → take_pane (decimal n ++ rest) ≡ ok (PaneId.mk n, rest)
unfolding take_pane
take_pane-decimal n rest h d =
    rw (span_digits-append (decimal n) rest (decimal-digits n) d, take_pane)
      (rw (length-decimal n, number_of-decimal u32_bound n _ h))

-- The node behind a rendered cell is what stands behind the separator.
pub parse_node-cell :
    (f w h x y c : ℕ) (rest : Text) (depth : ℕ)
    → (w < u16_bound) × (h < u16_bound) × (x < u16_bound) × (y < u16_bound)
    → depth ≤ max_layout_depth
    → is_separator c ≡ true
    → parse_node (suc f) (write_cell w h x y (c ∷ rest)) depth
      ≡ after_cell w h x y (some c) rest (λ close. parse_children f rest close (depth + 1))
unfolding parse_node write_cell
parse_node-cell f w h x y c rest depth b d s = rw (
  le→ltb max_layout_depth depth d,
  take_number-decimal w b'x' _ b.0 sep_x,
  take_number-decimal h b',' _ b.1 sep_comma,
  take_number-decimal x b',' _ b.2 sep_comma,
  take_dimension-decimal y c rest b.3 s,
)
