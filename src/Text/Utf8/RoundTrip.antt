-- ===== src/Text/Utf8/RoundTrip.antt =====
-- Encoded text decodes to itself.
use tmuxctl.Base.{
  ℕ, ◌≤◌, ◌<◌, ◌≡◌, ◌⊎◌, refl, ap, some, [], ◌∷◌, ◌++◌, append_assoc, ◌∙◌, inl, sym, All-map, arith,
  Text, Bytes, All, All-append,
}
use tmuxctl.Text.Utf8.{
  Place, encode, as_bytes, start, inside, take_byte, lossy_from, strict_from, from_utf8_lossy,
  from_utf8,
}

-- A Unicode scalar value: a code point that is no surrogate.
abbrev pub IsScalar : ℕ → Type 0
IsScalar c = (c < 0xD800) ⊎ ((0xE000 ≤ c) × (c < 0x110000))

lossy-encode :
    (c : ℕ) (s : Bytes) → IsScalar c → lossy_from start (encode c ++ s) ≡ c ∷ lossy_from start s
unfolding encode lossy_from take_byte
lossy-encode c s h = ground arith

strict-encode :
    (c : ℕ) (s : Bytes) (t : Text)
    → IsScalar c
    → strict_from start s ≡ some t
    → strict_from start (encode c ++ s) ≡ some (c ∷ t)
unfolding encode strict_from take_byte
strict-encode c s t h e = ground arith

-- Decoding the bytes of a text gives the text, strictly and lossily.
pub from_utf8-as_bytes : (t : Text) → All IsScalar t → from_utf8 (as_bytes t) ≡ some t
unfolding from_utf8 as_bytes
from_utf8-as_bytes [] h = refl
from_utf8-as_bytes (c ∷ t) (hc, h) = strict-encode c (as_bytes t) t hc (from_utf8-as_bytes t h)

pub from_utf8_lossy-as_bytes : (t : Text) → All IsScalar t → from_utf8_lossy (as_bytes t) ≡ t
unfolding from_utf8_lossy as_bytes
from_utf8_lossy-as_bytes [] h = refl
from_utf8_lossy-as_bytes (c ∷ t) (hc, h) =
    lossy-encode c (as_bytes t) hc ∙ ap (◌∷◌ c) (from_utf8_lossy-as_bytes t h)

-- A well-formed byte is taken alike by both decoders, whatever the place.
strict_from-cons :
    (p : Place) (b : ℕ) (s : Bytes) {t : Text}
    → strict_from p (b ∷ s) ≡ some t
    → (u : Text) × (strict_from (take_byte p b).next s ≡ some u) × (t ≡ (take_byte p b).chars ++ u)
unfolding strict_from
strict_from-cons start b s e = ground arith
strict_from-cons (inside l lo hi acc) b s e = ground arith

lossy_from-cons :
    (p : Place) (b : ℕ) (s : Bytes)
    → lossy_from p (b ∷ s) ≡ (take_byte p b).chars ++ lossy_from (take_byte p b).next s
unfolding lossy_from
lossy_from-cons start b s = refl
lossy_from-cons (inside l lo hi acc) b s = refl

strict_from_agrees :
    (p : Place) (s : Bytes) {t : Text} → strict_from p s ≡ some t → lossy_from p s ≡ t
strict_from_agrees start [] e = unfold strict_from lossy_from in cc
strict_from_agrees (inside l lo hi acc) [] e = unfold strict_from lossy_from in cc
strict_from_agrees p (b ∷ s) e =
    let (u, later, whole) = strict_from-cons p b s e in
    rw (lossy_from-cons, whole, strict_from_agrees (take_byte p b).next s later)

-- Where the strict decoder succeeds, the lossy one gives the same text.
pub from_utf8_agrees : (s : Bytes) {t : Text} → from_utf8 s ≡ some t → from_utf8_lossy s ≡ t
unfolding from_utf8 from_utf8_lossy
from_utf8_agrees s e = strict_from_agrees start s e

encode-bytes : (c : ℕ) → IsScalar c → All (λ b. b < 256) (encode c)
unfolding encode
encode-bytes c h = ground arith

-- The bytes of a text are bytes.
pub as_bytes-bytes : (t : Text) → All IsScalar t → All (λ b. b < 256) (as_bytes t)
unfolding as_bytes
as_bytes-bytes [] h = tt
as_bytes-bytes (c ∷ t) (hc, h) =
    All-append (λ b. b < 256) (encode c) (as_bytes t) (encode-bytes c hc) (as_bytes-bytes t h)

-- ASCII text is its own bytes.
pub as_bytes_ascii : (t : Text) → All (λ c. c < 0x80) t → as_bytes t ≡ t
unfolding as_bytes
as_bytes_ascii [] h = refl
as_bytes_ascii (c ∷ t) (hc, h) = ground (arith, as_bytes_ascii t h)

pub as_bytes-append : (s t : Text) → as_bytes (s ++ t) ≡ as_bytes s ++ as_bytes t
unfolding as_bytes
as_bytes-append [] t = refl
as_bytes-append (c ∷ s) t = simp (as_bytes-append s t, append_assoc)

-- ASCII bytes are their own characters.
pub from_utf8_lossy_ascii : (t : Text) → All (λ c. c < 0x80) t → from_utf8_lossy t ≡ t
from_utf8_lossy_ascii t h =
    ap from_utf8_lossy (sym (as_bytes_ascii t h))
    ∙ from_utf8_lossy-as_bytes t (All-map (λ c l. inl (omega arith)) t h)

pub from_utf8_ascii : (t : Text) → All (λ c. c < 0x80) t → from_utf8 t ≡ some t
from_utf8_ascii t h =
    ap from_utf8 (sym (as_bytes_ascii t h))
    ∙ from_utf8-as_bytes t (All-map (λ c l. inl (omega arith)) t h)
