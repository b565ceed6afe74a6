-- ===== src/Text/Utf8.antt =====
-- UTF-8 as `String::from_utf8_lossy`, `str::from_utf8` and `str::as_bytes` read and write it.
pub mod RoundTrip
use tmuxctl.Base.{
  ℕ, zero, suc, ◌+◌, ◌-◌, ◌*◌, ◌/◌, ◌%◌, ◌≡◌, refl, Bool, true, false, ◌&&◌, Option, none, some,
  List, [], ◌∷◌, ◌++◌, Text, Bytes, ltb, leb, ◌==◌, if◌then◌else◌,
}
use mathlib.Core.Option

-- The bytes of one character.
encode : ℕ → Bytes
encode c =
    if ltb c 0x80
    then c ∷ []
    else if ltb c 0x800
    then (0xC0 + c / 64) ∷ (0x80 + c % 64) ∷ []
    else if ltb c 0x10000
    then (0xE0 + c / 4096) ∷ (0x80 + c / 64 % 64) ∷ (0x80 + c % 64) ∷ []
    else (0xF0 + c / 262144) ∷ (0x80 + c / 4096 % 64) ∷ (0x80 + c / 64 % 64) ∷ (0x80 + c % 64) ∷ []

-- `s.as_bytes()`
unfoldable pub as_bytes : Text → Bytes
unfolding encode
as_bytes [] = []
as_bytes (c ∷ s) = encode c ++ as_bytes s

abbrev pub replacement : ℕ
replacement = 0xFFFD

-- Between two bytes: at the start of a character, or inside one, where the next byte must lie from
-- `lo` to `hi`, `left` more bytes follow it, and `acc` holds the bits so far.
pub data Place : Type 0 where
  start : Place
  inside : (left lo hi acc : ℕ) → Place

-- What one byte does: the characters it completes, whether the bytes are well-formed so far, and
-- the place after it.
pub record Taken : Type 0 where
  pub chars : Text
  pub valid : Bool
  pub next : Place

first_byte : ℕ → Taken
first_byte b =
    if ltb b 0x80
    then record { chars = b ∷ []; valid = true; next = start }
    else if leb 0xC2 b && leb b 0xDF
    then record { chars = []; valid = true; next = inside 0 0x80 0xBF (b - 0xC0) }
    else if b == 0xE0
    then record { chars = []; valid = true; next = inside 1 0xA0 0xBF 0 }
    else if b == 0xED
    then record { chars = []; valid = true; next = inside 1 0x80 0x9F 13 }
    else if leb 0xE1 b && leb b 0xEF
    then record { chars = []; valid = true; next = inside 1 0x80 0xBF (b - 0xE0) }
    else if b == 0xF0
    then record { chars = []; valid = true; next = inside 2 0x90 0xBF 0 }
    else if leb 0xF1 b && leb b 0xF3
    then record { chars = []; valid = true; next = inside 2 0x80 0xBF (b - 0xF0) }
    else if b == 0xF4
    then record { chars = []; valid = true; next = inside 2 0x80 0x8F 4 }
    else record { chars = replacement ∷ []; valid = false; next = start }

-- A byte that cannot go on ends the character with a replacement and starts the next one.
broken : Taken → Taken
broken t = record { chars = replacement ∷ t.chars; valid = false; next = t.next }

pub take_byte : Place → ℕ → Taken
unfolding first_byte broken
take_byte start b = first_byte b
take_byte (inside zero lo hi acc) b =
    if leb lo b && leb b hi
    then record { chars = (acc * 64 + (b - 0x80)) ∷ []; valid = true; next = start }
    else broken (first_byte b)
take_byte (inside (suc left) lo hi acc) b =
    if leb lo b && leb b hi
    then record { chars = []; valid = true; next = inside left 0x80 0xBF (acc * 64 + (b - 0x80)) }
    else broken (first_byte b)

pub lossy_from : Place → Bytes → Text
lossy_from start [] = []
lossy_from (inside left lo hi acc) [] = replacement ∷ []
lossy_from p (b ∷ s) = (take_byte p b).chars ++ lossy_from (take_byte p b).next s

-- `String::from_utf8_lossy(bytes)`: each maximal ill-formed run becomes one U+FFFD.
unfoldable pub from_utf8_lossy : Bytes → Text
unfolding lossy_from take_byte
from_utf8_lossy s = lossy_from start s

pub strict_from : Place → Bytes → Option Text
strict_from start [] = some []
strict_from (inside left lo hi acc) [] = none
strict_from p (b ∷ s) =
    let t = take_byte p b in
    if t.valid then Option.map (λ rest. t.chars ++ rest) (strict_from t.next s) else none

-- `std::str::from_utf8(bytes).ok()`
unfoldable pub from_utf8 : Bytes → Option Text
unfolding strict_from take_byte
from_utf8 s = strict_from start s

lossy_mixed :
    from_utf8_lossy (b'a' ∷ 0xC3 ∷ 0xA9 ∷ 0xE2 ∷ 0x82 ∷ b'b' ∷ 0xFF ∷ [])
    ≡ b'a' ∷ 0xE9 ∷ replacement ∷ b'b' ∷ replacement ∷ []
unfolding from_utf8_lossy
lossy_mixed = refl
