-- ===== src/Text/Number/RoundTrip.antt =====
-- Decimal numerals are read back, by `parse_uint` and digit by digit.
use tmuxctl.Base.{
  ℕ, zero, suc, ◌+◌, ◌-◌, ◌*◌, ◌/◌, ◌%◌, ◌≤◌, ◌<◌, ◌≡◌, ◌≢◌, ◌⊎◌, ◌↔◌, refl, sym, ap, subst, ◌∙◌,
  some, [], ◌∷◌, ◌++◌, append_assoc, append-nil, arith, Text, All, All-append, All-map, Lacks, ltb,
  Bool-cases, inl, inr,
}
use native.Mathlib.Decide.{ℕ_discrete}
use mathlib.Core.List.{cons-ne-nil, concat-ne-nil}
use tmuxctl.Text.Number.{scan, scan_some, parse_uint, show, decimal}

abbrev pub IsDigit : ℕ → Type 0
IsDigit c = (b'0' ≤ c) × (c ≤ b'9')

show-digits : (f n : ℕ) → All IsDigit (show f n)
unfolding show
show-digits zero n = tt
show-digits (suc f) n = elim (Bool-cases (ltb n 10)) [
  | inl h ↦ rw h (ground arith, tt)
  | inr h ↦ rw h (All-append IsDigit (show f (n / 10)) _ (show-digits f (n / 10)) (omega arith, tt))
]

-- A numeral consists of digits.
pub decimal-digits : (n : ℕ) → All IsDigit (decimal n)
unfolding decimal
decimal-digits n = show-digits (suc n) n

-- A numeral holds no other character.
pub decimal-Lacks : (c n : ℕ) → ¬ IsDigit c → Lacks c (decimal n)
decimal-Lacks c n h = All-map (λ x d e. h (subst IsDigit e d)) (decimal n) (decimal-digits n)

scan_digit :
    (bound c n : ℕ) (s : Text)
    → IsDigit c
    → n * 10 + (c - b'0') < bound
    → scan bound (c ∷ s) n ≡ scan bound s (n * 10 + (c - b'0'))
unfolding scan
scan_digit bound c n s d h = ground arith

scan-show :
    (bound f n : ℕ) (s : Text) → n < f → n < bound → scan bound (show f n ++ s) 0 ≡ scan bound s n
unfolding show
scan-show bound zero n s h k = absurd (omega arith)
scan-show bound (suc f) n s h k = elim (Bool-cases (ltb n 10)) [
  | inl e ↦
      let value : 0 * 10 + (b'0' + n - b'0') ≡ n = omega arith in
      rw e (scan_digit bound (b'0' + n) 0 s (ground arith) (ground arith) ∙ ap (scan bound s) value)
  | inr e ↦
      let value : n / 10 * 10 + (b'0' + n % 10 - b'0') ≡ n = omega arith in
      rw (e, append_assoc)
        (scan-show bound f (n / 10) ((b'0' + n % 10) ∷ s) (ground arith) (omega arith)
          ∙ scan_digit bound (b'0' + n % 10) (n / 10) s (omega arith) (omega arith)
          ∙ ap (scan bound s) value)
]

show-ne-nil : (f n : ℕ) → show (suc f) n ≢ []
unfolding show
show-ne-nil f n = elim (Bool-cases (ltb n 10)) [
  | inl h ↦ rw h (cons-ne-nil (b'0' + n) [])
  | inr h ↦ rw h (concat-ne-nil (b'0' + n % 10) (show f (n / 10)))
]

digits-cons :
    (s : Text)
    → s ≢ []
    → All IsDigit s
    → (c : ℕ) × (t : Text) × (s ≡ c ∷ t) × IsDigit c × All IsDigit t
digits-cons [] h d = absurd (h refl)
digits-cons (c ∷ t) h (dc, d) = (c, t, refl, dc, d)

-- A numeral is a digit and more digits.
pub decimal-cons : (n : ℕ) → (c : ℕ) × (t : Text) × (decimal n ≡ c ∷ t) × IsDigit c × All IsDigit t
unfolding decimal
decimal-cons n = digits-cons (show (suc n) n) (show-ne-nil n n) (show-digits (suc n) n)

parse_uint-digit :
    (bound c : ℕ) (s : Text) → IsDigit c → parse_uint bound (c ∷ s) ≡ scan bound (c ∷ s) 0
unfolding parse_uint
parse_uint-digit bound c s d = ground arith

scan-decimal : (bound n : ℕ) → n < bound → scan bound (decimal n) 0 ≡ some n
unfolding decimal scan
scan-decimal bound n h =
    ap (λ s. scan bound s 0) (sym (append-nil (show (suc n) n)))
    ∙ scan-show bound (suc n) n [] (omega arith) h

-- Every number below the bound is read back from its numeral.
pub parse_uint-decimal : (bound n : ℕ) → n < bound → parse_uint bound (decimal n) ≡ some n
parse_uint-decimal bound n h =
    let (c, t, e, d, _) = decimal-cons n in
    ap (parse_uint bound) e
    ∙ parse_uint-digit bound c t d
    ∙ ap (λ s. scan bound s 0) (sym e)
    ∙ scan-decimal bound n h

-- The number that digits spell behind `n`, with no bound.
abbrev pub value_from : ℕ → Text → ℕ
value_from n [] = n
value_from n (c ∷ s) = value_from (n * 10 + (c - b'0')) s

-- One or more digits that spell `n`.
abbrev pub Digits : Text → ℕ → Type 0
Digits s n = (s ≢ []) × All IsDigit s × (value_from 0 s ≡ n)

-- Digits behind an optional plus sign.
abbrev pub Numeral : Text → ℕ → Type 0
Numeral s n = (digits : Text) × ((s ≡ digits) ⊎ (s ≡ b'+' ∷ digits)) × Digits digits n

scan_sound :
    (bound : ℕ) (s : Text) (n m : ℕ)
    → n < bound
    → scan bound s n ≡ some m
    → All IsDigit s × (value_from n s ≡ m) × (m < bound)
unfolding scan
scan_sound bound [] n m h e = ground arith
scan_sound bound (c ∷ s) n m h e = ground (arith, scan_sound bound s (n * 10 + (c - b'0')) m)

le-value_from : (s : Text) (n : ℕ) → n ≤ value_from n s
le-value_from [] n = omega arith
le-value_from (c ∷ s) n = omega (arith, le-value_from s (n * 10 + (c - b'0')))

scan_complete :
    (bound : ℕ) (s : Text) (n : ℕ)
    → All IsDigit s
    → value_from n s < bound
    → scan bound s n ≡ some (value_from n s)
unfolding scan
scan_complete bound [] n d h = refl
scan_complete bound (c ∷ s) n (dc, d) h =
    let m = n * 10 + (c - b'0') in ground (arith, scan_complete bound s m d h, le-value_from s m)

scan_some_sound :
    (bound : ℕ) (s : Text) (n : ℕ)
    → 0 < bound
    → scan_some bound s ≡ some n
    → Digits s n × (n < bound)
unfolding scan_some
scan_some_sound bound [] n h e = cc
scan_some_sound bound (c ∷ s) n h e =
    let (d, v, l) = scan_sound bound (c ∷ s) 0 n h e in ((cons-ne-nil c s, d, v), l)

scan_some_complete :
    (bound : ℕ) (s : Text) (n : ℕ) → Digits s n → n < bound → scan_some bound s ≡ some n
unfolding scan_some
scan_some_complete bound [] n (ne, _, _) h = absurd (ne refl)
scan_some_complete bound (c ∷ s) n (_, d, v) h =
    scan_complete bound (c ∷ s) 0 d (omega (arith, v)) ∙ ap some v

parse_uint_sound :
    (bound : ℕ) (s : Text) (n : ℕ)
    → 0 < bound
    → parse_uint bound s ≡ some n
    → Numeral s n × (n < bound)
unfolding parse_uint
parse_uint_sound bound [] n h e = cc
parse_uint_sound bound (c ∷ s) n h e = elim (ℕ_discrete c b'+') [
  | yes p ↦
      let (d, l) = scan_some_sound bound s n h (ground arith) in
      ((s, inr (ap (λ x. x ∷ s) p), d), l)
  | no p ↦
      let (d, l) = scan_some_sound bound (c ∷ s) n h (ground arith) in ((c ∷ s, inl refl, d), l)
]

parse_uint-Digits :
    (bound : ℕ) (s : Text) (n : ℕ) → Digits s n → n < bound → parse_uint bound s ≡ some n
parse_uint-Digits bound [] n (ne, _, _) h = absurd (ne refl)
parse_uint-Digits bound (c ∷ s) n d h =
    parse_uint-digit bound c s d.1.0 ∙ (unfold scan_some in scan_some_complete bound (c ∷ s) n d h)

parse_uint_plus :
    (bound : ℕ) (s : Text) (n : ℕ) → Digits s n → n < bound → parse_uint bound (b'+' ∷ s) ≡ some n
unfolding parse_uint
parse_uint_plus bound s n d h = scan_some_complete bound s n d h

-- An unsigned number is read exactly where the text is an optional plus sign and one or more
-- digits, they spell that number, and it lies below the bound of the type: nothing wraps around,
-- and nothing that fits is refused.
pub parse_uint_iff :
    (bound : ℕ) (s : Text) (n : ℕ)
    → 0 < bound
    → (parse_uint bound s ≡ some n) ↔ (Numeral s n × (n < bound))
parse_uint_iff bound s n h = (parse_uint_sound bound s n h, λ p. back p.0.1 p.0.2 p.1)
  where
    back :
        {digits : Text}
        → (s ≡ digits) ⊎ (s ≡ b'+' ∷ digits)
        → Digits digits n
        → n < bound
        → parse_uint bound s ≡ some n
    back (inl e) d l = rw e (parse_uint-Digits bound _ n d l)
    back (inr e) d l = rw e (parse_uint_plus bound _ n d l)
