-- ===== src/Text/Number.antt =====
-- `FromStr` and `Display` of the unsigned integers.
pub mod RoundTrip
use tmuxctl.Base.{
  ℕ, zero, suc, ◌+◌, ◌-◌, ◌*◌, ◌/◌, ◌%◌, ◌^◌, ◌≤◌, ◌<◌, ◌≡◌, refl, Bool, true, false, ◌&&◌, ◌||◌,
  Option, none, some, List, [], ◌∷◌, ◌++◌, append_assoc, arith, Text, All, leb, ltb, ◌==◌,
  if◌then◌else◌, codes,
}

abbrev pub u16_bound : ℕ
u16_bound = 65536

abbrev pub u32_bound : ℕ
u32_bound = 4294967296

abbrev pub u64_bound : ℕ
u64_bound = 18446744073709551616

-- `char::is_ascii_digit`
abbrev pub is_digit : ℕ → Bool
is_digit c = leb b'0' c && leb c b'9'

-- The digits of a number below `bound`: each `checked_mul`, `checked_add` refuses a larger one.
unfoldable pub scan : ℕ → Text → ℕ → Option ℕ
scan bound [] n = some n
scan bound (c ∷ s) n =
    let m = n * 10 + (c - b'0') in if is_digit c && ltb m bound then scan bound s m else none

scan_some : ℕ → Text → Option ℕ
unfolding scan
scan_some bound [] = none
scan_some bound (c ∷ s) = scan bound (c ∷ s) 0

-- `s.parse()` at an unsigned type of `bound` values: an optional `+`, then at least one digit
unfoldable pub parse_uint : ℕ → Text → Option ℕ
unfolding scan_some
parse_uint bound [] = none
parse_uint bound (c ∷ s) = if c == b'+' then scan_some bound s else scan_some bound (c ∷ s)

-- Decimal digits, most significant first; a number has at most as many as its value plus one.
show : ℕ → ℕ → Text
show zero n = []
show (suc f) n =
    let more = show f (n / 10) ++ (b'0' + n % 10) ∷ [] in if ltb n 10 then (b'0' + n) ∷ [] else more

-- `Display` of an unsigned integer
unfoldable pub decimal : ℕ → Text
unfolding show
decimal n = show (suc n) n

decimal_u32 : decimal 4294967295 ≡ codes "4294967295"
unfolding decimal
decimal_u32 = refl

parse_plus : parse_uint u32_bound (codes "+42") ≡ some 42
unfolding parse_uint
parse_plus = refl

parse_over : parse_uint u16_bound (codes "65536") ≡ none
unfolding parse_uint
parse_over = refl
