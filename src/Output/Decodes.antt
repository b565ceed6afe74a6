-- ===== src/Output/Decodes.antt =====
-- src/output.rs: `decode_output` against the wire escaping that its comment describes.
use tmuxctl.Base.{
  ℕ, ◌+◌, ◌-◌, ◌*◌, ◌/◌, ◌%◌, ◌≤◌, ◌<◌, ◌≡◌, ◌≢◌, ◌↔◌, refl, some, Option-cases, Bool-cases, inl,
  inr, ◌||◌, [], ◌∷◌, arith, ap, subst, Bytes, ltb, ◌==◌, if◌then◌else◌, All, length,
}
use native.Mathlib.Decide.{ℕ_discrete}
use tmuxctl.Output.{backslash, parse_octal, decode_output}

-- An octal digit.
abbrev pub IsOctal : ℕ → Type 0
IsOctal d = (b'0' ≤ d) × (d ≤ b'7')

-- The number that three octal digits spell.
abbrev pub octal_value : ℕ → ℕ → ℕ → ℕ
octal_value d₁ d₂ d₃ = (d₁ - b'0') * 64 + (d₂ - b'0') * 8 + (d₃ - b'0')

-- The bytes begin with three octal digits that spell a byte.
abbrev pub StartsOctal : Bytes → Type 0
StartsOctal (d₁ ∷ d₂ ∷ d₃ ∷ rest) =
    IsOctal d₁ × IsOctal d₂ × IsOctal d₃ × (octal_value d₁ d₂ d₃ < 256)
StartsOctal _ = ⊥

-- A payload and the bytes that it stands for: an escape is a backslash and three octal digits of a
-- byte, and everything else stands for itself.
pub data Decodes : Bytes → Bytes → Type 0 where
  done : Decodes [] []
  plain : {s out : Bytes} (c : ℕ) → c ≢ backslash → Decodes s out → Decodes (c ∷ s) (c ∷ out)
  octal :
      {s out : Bytes} (c d₁ d₂ d₃ v : ℕ)
      → c ≡ backslash
      → StartsOctal (d₁ ∷ d₂ ∷ d₃ ∷ s)
      → v ≡ octal_value d₁ d₂ d₃
      → Decodes s out
      → Decodes (c ∷ d₁ ∷ d₂ ∷ d₃ ∷ s) (v ∷ out)
  stray :
      {s out : Bytes} (c : ℕ)
      → c ≡ backslash
      → ¬ StartsOctal s
      → Decodes s out
      → Decodes (c ∷ s) (c ∷ out)

-- tmux's escaping: a byte below 0x20 and the backslash become a backslash and three octal digits.
abbrev pub escape : Bytes → Bytes
escape [] = []
escape (c ∷ s) =
    if ltb c 0x20 || c == backslash
    then backslash ∷ (b'0' + c / 64) ∷ (b'0' + c / 8 % 8) ∷ (b'0' + c % 8) ∷ escape s
    else c ∷ escape s

parse_octal_lem :
    (d₁ d₂ d₃ : ℕ)
    → IsOctal d₁ × IsOctal d₂ × IsOctal d₃ × (octal_value d₁ d₂ d₃ < 256)
    → parse_octal (d₁ ∷ d₂ ∷ d₃ ∷ []) ≡ some (octal_value d₁ d₂ d₃)
unfolding parse_octal
parse_octal_lem d₁ d₂ d₃ h = ground arith

parse_octal_sound :
    (d₁ d₂ d₃ : ℕ) {v : ℕ}
    → parse_octal (d₁ ∷ d₂ ∷ d₃ ∷ []) ≡ some v
    → IsOctal d₁
      × IsOctal d₂
      × IsOctal d₃
      × (octal_value d₁ d₂ d₃ < 256)
      × (v ≡ octal_value d₁ d₂ d₃)
unfolding parse_octal
parse_octal_sound d₁ d₂ d₃ h = ground arith

decode_octal :
    (d₁ d₂ d₃ : ℕ) (s : Bytes)
    → StartsOctal (d₁ ∷ d₂ ∷ d₃ ∷ s)
    → decode_output (backslash ∷ d₁ ∷ d₂ ∷ d₃ ∷ s) ≡ octal_value d₁ d₂ d₃ ∷ decode_output s
unfolding decode_output
decode_octal d₁ d₂ d₃ s h = rw (parse_octal_lem d₁ d₂ d₃ h, decode_output)

decode_plain : (c : ℕ) (s : Bytes) → c ≢ backslash → decode_output (c ∷ s) ≡ c ∷ decode_output s
unfolding decode_output
decode_plain c [] h = refl
decode_plain c (d₁ ∷ []) h = refl
decode_plain c (d₁ ∷ d₂ ∷ []) h = refl
decode_plain c (d₁ ∷ d₂ ∷ d₃ ∷ s) h = ground arith

decode_stray :
    (s : Bytes) → ¬ StartsOctal s → decode_output (backslash ∷ s) ≡ backslash ∷ decode_output s
unfolding decode_output
decode_stray [] h = refl
decode_stray (d₁ ∷ []) h = refl
decode_stray (d₁ ∷ d₂ ∷ []) h = refl
decode_stray (d₁ ∷ d₂ ∷ d₃ ∷ s) h = ground (arith, parse_octal_sound d₁ d₂ d₃)

StartsOctal-dec : (s : Bytes) → Dec (StartsOctal s)
StartsOctal-dec [] = no (λ h. h)
StartsOctal-dec (d₁ ∷ []) = no (λ h. h)
StartsOctal-dec (d₁ ∷ d₂ ∷ []) = no (λ h. h)
StartsOctal-dec (d₁ ∷ d₂ ∷ d₃ ∷ s) = elim (Option-cases (parse_octal (d₁ ∷ d₂ ∷ d₃ ∷ []))) [
  | inl e ↦ no (λ h. cc (e, parse_octal_lem d₁ d₂ d₃ h))
  | inr (v, e) ↦ yes (let (a, b, c, d, _) = parse_octal_sound d₁ d₂ d₃ e in (a, b, c, d))
]

decode-Decodes_of : {s out : Bytes} → Decodes s out → decode_output s ≡ out
decode-Decodes_of done = unfold decode_output in refl
decode-Decodes_of (plain {s} c h d) = rw (decode_plain c s h) (ap (◌∷◌ c) (decode-Decodes_of d))
decode-Decodes_of (octal {s} {out} c d₁ d₂ d₃ v e h ev d) =
    rw (e, decode_octal d₁ d₂ d₃ s h, ev) (ap (◌∷◌ (octal_value d₁ d₂ d₃)) (decode-Decodes_of d))
decode-Decodes_of (stray {s} c e h d) =
    rw (e, decode_stray s h) (ap (◌∷◌ backslash) (decode-Decodes_of d))

-- A byte before text that is no octal escape decodes to itself.
Decodes-cons :
    (c : ℕ) (s : Bytes)
    → ¬ StartsOctal s
    → Decodes s (decode_output s)
    → Decodes (c ∷ s) (decode_output (c ∷ s))
Decodes-cons c s h d = elim (ℕ_discrete c backslash) [
  | yes e ↦
      let shape : decode_output (c ∷ s) ≡ c ∷ decode_output s = rw e (decode_stray s h) in
      rw shape (stray c e h d)
  | no ne ↦ rw (decode_plain c s ne) (plain c ne d)
]

Decodes-escape :
    (c d₁ d₂ d₃ : ℕ) (s : Bytes)
    → StartsOctal (d₁ ∷ d₂ ∷ d₃ ∷ s)
    → Decodes (d₁ ∷ d₂ ∷ d₃ ∷ s) (decode_output (d₁ ∷ d₂ ∷ d₃ ∷ s))
    → Decodes s (decode_output s)
    → Decodes (c ∷ d₁ ∷ d₂ ∷ d₃ ∷ s) (decode_output (c ∷ d₁ ∷ d₂ ∷ d₃ ∷ s))
Decodes-escape c d₁ d₂ d₃ s h later rest = elim (ℕ_discrete c backslash) [
  | yes e ↦
      let shape : decode_output (c ∷ d₁ ∷ d₂ ∷ d₃ ∷ s) ≡ octal_value d₁ d₂ d₃ ∷ decode_output s =
        rw e (decode_octal d₁ d₂ d₃ s h) in
      rw shape (octal c d₁ d₂ d₃ _ e h refl rest)
  | no ne ↦ rw (decode_plain c (d₁ ∷ d₂ ∷ d₃ ∷ s) ne) (plain c ne later)
]

decode-Decodes : (s : Bytes) → Decodes s (decode_output s)
decode-Decodes [] = unfold decode_output in done
decode-Decodes (c ∷ []) = Decodes-cons c [] (λ h. h) (unfold decode_output in done)
decode-Decodes (c ∷ d₁ ∷ []) = Decodes-cons c _ (λ h. h) (decode-Decodes (d₁ ∷ []))
decode-Decodes (c ∷ d₁ ∷ d₂ ∷ []) = Decodes-cons c _ (λ h. h) (decode-Decodes (d₁ ∷ d₂ ∷ []))
decode-Decodes (c ∷ d₁ ∷ d₂ ∷ d₃ ∷ s) =
    let later = decode-Decodes (d₁ ∷ d₂ ∷ d₃ ∷ s) in
    let rest = decode-Decodes s in
    elim (StartsOctal-dec (d₁ ∷ d₂ ∷ d₃ ∷ s)) [
      | yes h ↦ Decodes-escape c d₁ d₂ d₃ s h later rest
      | no h ↦ Decodes-cons c _ h later
    ]

escape-Decodes : (s : Bytes) → Decodes (escape s) s
escape-Decodes [] = done
escape-Decodes (c ∷ s) = elim (Bool-cases (ltb c 0x20 || c == backslash)) [
  | inl e ↦ rw e (
      octal backslash _ _ _ c refl (ground arith, ground arith, ground arith, ground arith)
        (ground arith) (escape-Decodes s))
  | inr e ↦ rw e (plain c (ground arith) (escape-Decodes s))
]

Decodes-bounds :
    {s out : Bytes}
    → Decodes s out
    → All (λ c. c < 256) s
    → (length out ≤ length s) × All (λ c. c < 256) out
Decodes-bounds done h = (omega arith, tt)
Decodes-bounds (plain c ne d) h = let (l, b) = Decodes-bounds d h.1 in (omega arith, (h.0, b))
Decodes-bounds (octal c d₁ d₂ d₃ v e o ev d) h =
    let (l, b) = Decodes-bounds d h.1.1.1.1 in (omega arith, (omega arith, b))
Decodes-bounds (stray c e n d) h = let (l, b) = Decodes-bounds d h.1 in (omega arith, (h.0, b))

-- `decode_output` returns `out` exactly when `out` is what the payload stands for: an escape is a
-- backslash with three octal digits that spell a byte, any other byte stands for itself, and so
-- does a backslash before anything else.
pub decode_output_iff : (s out : Bytes) → (decode_output s ≡ out) ↔ Decodes s out
decode_output_iff s out = (λ e. subst (λ o. Decodes s o) e (decode-Decodes s), decode-Decodes_of)

-- Whatever bytes tmux escapes, the decoder gives them back.
pub decode_output-escape : (s : Bytes) → decode_output (escape s) ≡ s
decode_output-escape s = decode-Decodes_of (escape-Decodes s)

-- Decoding makes a payload no longer, and its bytes stay bytes.
pub decode_output_bounds :
    (s : Bytes)
    → All (λ c. c < 256) s
    → (length (decode_output s) ≤ length s) × All (λ c. c < 256) (decode_output s)
decode_output_bounds s h = Decodes-bounds (decode-Decodes s) h
