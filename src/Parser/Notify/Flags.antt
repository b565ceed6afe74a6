-- ===== src/Parser/Notify/Flags.antt =====
-- src/parser.rs: `parse_window_flags` against what its comment promises.
use tmuxctl.Base.{
  ℕ, ◌≡◌, refl, sym, ap, ◌∙◌, Bool, true, false, ◌||◌, [], ◌∷◌, ◌++◌, append_assoc, append-nil,
  Text, arith, ◌==◌, if◌then◌else◌,
}
use tmuxctl.Notification.{WindowFlags, no_flags}
use tmuxctl.Parser.Notify.{set_flag, set_flags, parse_window_flags}

-- The character stands in the field.
abbrev pub has : ℕ → Text → Bool
has c [] = false
has c (d ∷ s) = d == c || has c s

-- The characters that are none of the seven flags.
abbrev pub is_known : ℕ → Bool
is_known c =
    c == b'*'
    || (c == b'-' || (c == b'#' || (c == b'!' || (c == b'~' || (c == b'M' || c == b'Z')))))

abbrev pub others : Text → Text
others [] = []
others (c ∷ s) = if is_known c then others s else c ∷ others s

-- The flags of a field, read off it all at once.
abbrev pub flags_of : Text → WindowFlags
flags_of field = record {
  current = has b'*' field;
  last = has b'-' field;
  activity = has b'#' field;
  bell = has b'!' field;
  silence = has b'~' field;
  marked = has b'M' field;
  zoomed = has b'Z' field;
  unknown = others field;
}

-- The flags set already, with those of a field.
abbrev pub merge : WindowFlags → WindowFlags → WindowFlags
merge f g = record {
  current = g.current || f.current;
  last = g.last || f.last;
  activity = g.activity || f.activity;
  bell = g.bell || f.bell;
  silence = g.silence || f.silence;
  marked = g.marked || f.marked;
  zoomed = g.zoomed || f.zoomed;
  unknown = f.unknown ++ g.unknown;
}

or_exchange : (a b c : Bool) → a || (b || c) ≡ (b || a) || c
or_exchange true true c = refl
or_exchange true false c = refl
or_exchange false true c = refl
or_exchange false false c = refl

module _ (f : WindowFlags) (c : ℕ) where
  current : (set_flag f c).current ≡ c == b'*' || f.current
  unfolding set_flag
  current = ground arith

  last : (set_flag f c).last ≡ c == b'-' || f.last
  unfolding set_flag
  last = ground arith

  activity : (set_flag f c).activity ≡ c == b'#' || f.activity
  unfolding set_flag
  activity = ground arith

  bell : (set_flag f c).bell ≡ c == b'!' || f.bell
  unfolding set_flag
  bell = ground arith

  silence : (set_flag f c).silence ≡ c == b'~' || f.silence
  unfolding set_flag
  silence = ground arith

  marked : (set_flag f c).marked ≡ c == b'M' || f.marked
  unfolding set_flag
  marked = ground arith

  zoomed : (set_flag f c).zoomed ≡ c == b'Z' || f.zoomed
  unfolding set_flag
  zoomed = ground arith

  unknown : (s : Text) → (set_flag f c).unknown ++ others s ≡ f.unknown ++ others (c ∷ s)
  unfolding set_flag
  unknown s = ground (arith, append_assoc f.unknown (c ∷ []) (others s))

-- Reading a field adds to each flag whether its character stands in the field.
set_flags-merge : (f : WindowFlags) (s : Text) → set_flags f s ≡ merge f (flags_of s)
unfolding set_flags
set_flags-merge f [] = λ i. record {
  current = f.current;
  last = f.last;
  activity = f.activity;
  bell = f.bell;
  silence = f.silence;
  marked = f.marked;
  zoomed = f.zoomed;
  unknown = sym (append-nil f.unknown) i;
}
set_flags-merge f (c ∷ s) = set_flags-merge (set_flag f c) s ∙ λ i. record {
  current =
      (ap (◌||◌ (has b'*' s)) (current f c) ∙ or_exchange (has b'*' s) (c == b'*') f.current) i;
  last = (ap (◌||◌ (has b'-' s)) (last f c) ∙ or_exchange (has b'-' s) (c == b'-') f.last) i;
  activity =
      (ap (◌||◌ (has b'#' s)) (activity f c) ∙ or_exchange (has b'#' s) (c == b'#') f.activity) i;
  bell = (ap (◌||◌ (has b'!' s)) (bell f c) ∙ or_exchange (has b'!' s) (c == b'!') f.bell) i;
  silence =
      (ap (◌||◌ (has b'~' s)) (silence f c) ∙ or_exchange (has b'~' s) (c == b'~') f.silence) i;
  marked = (ap (◌||◌ (has b'M' s)) (marked f c) ∙ or_exchange (has b'M' s) (c == b'M') f.marked) i;
  zoomed = (ap (◌||◌ (has b'Z' s)) (zoomed f c) ∙ or_exchange (has b'Z' s) (c == b'Z') f.zoomed) i;
  unknown = unknown f c s i;
}

or_false : (b : Bool) → b || false ≡ b
or_false true = refl
or_false false = refl

-- The flags of a field: each of the seven is set exactly if its character stands somewhere in the
-- field, in any order and however often, and the unknown characters are kept, in order.
pub parse_window_flags_lem : (field : Text) → parse_window_flags field ≡ flags_of field
unfolding parse_window_flags
parse_window_flags_lem field = set_flags-merge no_flags field ∙ λ i. record {
  current = or_false (has b'*' field) i;
  last = or_false (has b'-' field) i;
  activity = or_false (has b'#' field) i;
  bell = or_false (has b'!' field) i;
  silence = or_false (has b'~' field) i;
  marked = or_false (has b'M' field) i;
  zoomed = or_false (has b'Z' field) i;
  unknown = others field;
}
