-- ===== src/Output.antt =====
-- src/output.rs: decoding the payload of `%output` and `%extended-output`.
pub mod Decodes
use tmuxctl.Base.{
  ℕ, zero, suc, ◌+◌, ◌-◌, ◌*◌, ◌<◌, ◌≡◌, refl, Bool, true, false, ◌&&◌, ◌||◌, not, Option, none,
  some, List, [], ◌∷◌, ◌++◌, arith, Bytes, ltb, leb, ◌==◌, if◌then◌else◌, codes,
}
use tmuxctl.Text.Number.{is_digit}

abbrev pub backslash : ℕ
backslash = b'\\'

-- `u8::try_from(value).ok()`
to_u8 : ℕ → Option ℕ
to_u8 value = if ltb value 256 then some value else none

-- The loop of `parse_octal`. Three digits stay below 2^16, so `value * 8 + d` does not wrap.
octal_loop : Bytes → ℕ → Option ℕ
unfolding to_u8
octal_loop [] value = to_u8 value
octal_loop (d ∷ ds) value =
    if not (is_digit d) || ltb b'7' d then none else octal_loop ds (value * 8 + (d - b'0'))

pub parse_octal : Bytes → Option ℕ
unfolding octal_loop
parse_octal digits = octal_loop digits 0

-- The loop at `i`, by what `escaped[i..]` holds: `i + 3 < len` says that there are four bytes.
unfoldable pub decode_output : Bytes → Bytes
unfolding parse_octal
decode_output (c ∷ d₁ ∷ d₂ ∷ d₃ ∷ rest) =
    let literal = c ∷ decode_output (d₁ ∷ d₂ ∷ d₃ ∷ rest) in
    let escape = λ (byte : ℕ). byte ∷ decode_output rest in
    elim (if c == backslash then parse_octal (d₁ ∷ d₂ ∷ d₃ ∷ []) else none) [
      | some byte ↦ escape byte
      | none ↦ literal
    ]
decode_output (c ∷ rest) = c ∷ decode_output rest
decode_output [] = []

decode_esc : decode_output (codes "a\\033[0m\\") ≡ b'a' ∷ 27 ∷ codes "[0m\\"
unfolding decode_output
decode_esc = refl
