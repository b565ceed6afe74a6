-- ===== src/Parser/Guard.antt =====
-- src/parser.rs: guard lines, `%begin`, `%end` and `%error <ts> <number> <flags>`.
pub mod Print
use tmuxctl.Base.{
  ℕ, ◌≡◌, refl, Bool, not, Option, none, some, List, [], ◌∷◌, Text, ◌==◌, if◌then◌else◌, ◌>>=◌,
  codes, text_eq,
}
use tmuxctl.Text.Split.{split, strip_prefix}
use tmuxctl.Text.Number.{u32_bound, u64_bound, parse_uint}

pub data GuardKind : Type 0 where
  begin end error : GuardKind

pub record Guard : Type 0 where
  pub kind : GuardKind
  pub number : ℕ
  pub control : Bool

unfoldable pub guard_kind : Text → Option GuardKind
guard_kind word =
    if text_eq word (codes "begin")
    then some begin
    else if text_eq word (codes "end")
    then some end
    else if text_eq word (codes "error")
    then some error
    else none

-- `parts.next()?` four times, then no more: exactly a kind, a timestamp, a number and flags.
unfoldable pub guard_parts : List Text → Option Guard
unfolding guard_kind
guard_parts (word ∷ timestamp ∷ number ∷ flags ∷ []) = do
  k ← guard_kind word
  n ← parse_uint u64_bound number
  f ← parse_uint u32_bound flags
  some (record { kind = k; number = n; control = not (f == 0) })
guard_parts _ = none

unfoldable pub parse_guard : Text → Option Guard
unfolding guard_parts
parse_guard line = do rest ← strip_prefix (b'%' ∷ []) line; guard_parts (split b' ' rest)

guard_begin :
    parse_guard (codes "%begin 1700000000 7 1")
    ≡ some (record { kind = begin; number = 7; control = not (1 == 0) })
unfolding parse_guard split strip_prefix parse_uint
guard_begin = refl

guard_trailing : parse_guard (codes "%begin 1 7 1 garbage") ≡ none
unfolding parse_guard split strip_prefix parse_uint
guard_trailing = refl
