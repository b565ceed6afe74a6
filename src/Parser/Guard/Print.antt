-- ===== src/Parser/Guard/Print.antt =====
-- src/parser.rs: a guard line as tmux writes it is recognised.
use tmuxctl.Base.{
  ℕ, ◌<◌, ◌≡◌, refl, ap, ◌∙◌, not, some, [], ◌∷◌, ◌++◌, Text, All, All-append, All-map, Lacks,
  arith, codes, ◌==◌,
}
use tmuxctl.Text.Split.{split, strip_prefix}
use tmuxctl.Text.Split.Laws.{split-sep, split-Lacks}
use tmuxctl.Text.Number.{u32_bound, u64_bound, decimal}
use tmuxctl.Text.Number.RoundTrip.{decimal-digits, decimal-Lacks, parse_uint-decimal}
use tmuxctl.Parser.Guard.{GuardKind, begin, end, error, guard_kind, parse_guard}

abbrev pub word : GuardKind → Text
word begin = codes "begin"
word end = codes "end"
word error = codes "error"

-- `%<kind> <ts> <number> <flags>`
abbrev pub guard_line : GuardKind → ℕ → ℕ → ℕ → Text
guard_line k ts number flags =
    b'%' ∷ (word k ++ b' ' ∷ (decimal ts ++ b' ' ∷ (decimal number ++ b' ' ∷ decimal flags)))

word-Lacks : (k : GuardKind) → Lacks b' ' (word k)
word-Lacks begin = omega arith
word-Lacks end = omega arith
word-Lacks error = omega arith

guard_kind-word : (k : GuardKind) → guard_kind (word k) ≡ some k
unfolding guard_kind
guard_kind-word begin = refl
guard_kind-word end = refl
guard_kind-word error = refl

numeral-Lacks : (n : ℕ) → Lacks b' ' (decimal n)
numeral-Lacks n = decimal-Lacks b' ' n (λ d. omega arith)

split-guard_line :
    (k : GuardKind) (ts number flags : ℕ)
    → split b' ' (word k ++ b' ' ∷ (decimal ts ++ b' ' ∷ (decimal number ++ b' ' ∷ decimal flags)))
      ≡ word k ∷ decimal ts ∷ decimal number ∷ decimal flags ∷ []
split-guard_line k ts number flags =
    split-sep b' ' (word k) _ (word-Lacks k)
    ∙ ap (◌∷◌ (word k)) (
        split-sep b' ' (decimal ts) _ (numeral-Lacks ts)
        ∙ ap (◌∷◌ (decimal ts)) (
            split-sep b' ' (decimal number) _ (numeral-Lacks number)
            ∙ ap (◌∷◌ (decimal number)) (split-Lacks b' ' (decimal flags) (numeral-Lacks flags))))

-- A guard line whose number fits a `u64` and whose flags fit a `u32` is recognised, with its kind,
-- its number, and the control mark exactly where the flags are not zero.
pub parse_guard-guard_line :
    (k : GuardKind) (ts number flags : ℕ)
    → number < u64_bound
    → flags < u32_bound
    → parse_guard (guard_line k ts number flags)
      ≡ some (record { kind = k; number = number; control = not (flags == 0) })
unfolding parse_guard strip_prefix
parse_guard-guard_line k ts number flags hn hf = rw (
  split-guard_line k ts number flags,
  guard_kind-word k,
  parse_uint-decimal u64_bound number hn,
  parse_uint-decimal u32_bound flags hf,
)

numeral-ascii : (n : ℕ) → All (λ c. c < 0x80) (decimal n)
numeral-ascii n = All-map (λ c d. omega arith) (decimal n) (decimal-digits n)

word-ascii : (k : GuardKind) → All (λ c. c < 0x80) (word k)
word-ascii begin = omega arith
word-ascii end = omega arith
word-ascii error = omega arith

pub guard_line-ascii :
    (k : GuardKind) (ts number flags : ℕ) → All (λ c. c < 0x80) (guard_line k ts number flags)
guard_line-ascii k ts number flags = (
  omega arith,
  All-append _ (word k) _ (word-ascii k) (
    omega arith,
    All-append _ (decimal ts) _ (numeral-ascii ts) (
      omega arith,
      All-append _ (decimal number) _ (numeral-ascii number) (omega arith, numeral-ascii flags),
    ),
  ),
)

word-newline : (k : GuardKind) → Lacks b'\n' (word k)
word-newline begin = omega arith
word-newline end = omega arith
word-newline error = omega arith

pub guard_line-newline :
    (k : GuardKind) (ts number flags : ℕ) → Lacks b'\n' (guard_line k ts number flags)
guard_line-newline k ts number flags =
    let digits : (n : ℕ) → Lacks b'\n' (decimal n) = λ n. decimal-Lacks b'\n' n (omega arith) in
    (
      omega arith,
      All-append _ (word k) _ (word-newline k) (
        omega arith,
        All-append _ (decimal ts) _ (digits ts) (
          omega arith,
          All-append _ (decimal number) _ (digits number) (omega arith, digits flags),
        ),
      ),
    )
