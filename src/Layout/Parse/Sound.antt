-- ===== src/Layout/Parse/Sound.antt =====
-- src/layout.rs: the parser always ends, and what it accepts is within the machine types and the
-- depth limit.
use tmuxctl.Base.{
  ℕ, zero, suc, ◌+◌, ◌*◌, ◌≤◌, ◌<◌, ◌≡◌, ◌≢◌, refl, Bool, true, false, Option, none, some, [], ◌∷◌,
  arith, Text, length, ltb, ◌==◌, if◌then◌else◌,
}
use tmuxctl.Text.Number.{u16_bound, u32_bound, parse_uint}
use tmuxctl.Text.Number.RoundTrip.{parse_uint_iff}
use tmuxctl.Ids.{PaneId, pane_number}
use tmuxctl.Layout.Checksum.{checksum}
use tmuxctl.Layout.Tree.{Layout, Layouts, nil, render, to_layout_string}
use tmuxctl.Layout.Parse.{
  LayoutError, Parsed, ok, err, out_of_fuel, ◌>>=◌, span_digits, number_of, split_separator,
  take_dimension, take_number, check_delim, take_pane, after_cell, after_child, parse_node,
  parse_children, max_layout_depth, finish, parse_body, split_checksum, check_body, parse,
  number_range, pane_range,
}
use tmuxctl.Layout.Parse.RoundTrip.{Fits, FitsAll, depth, depth_children}
use tmuxctl.Layout.Parse.Wire.{parse-to_layout_string, parse-render}

-- The run ends within its fuel, and what it accepts satisfies `P`.
abbrev pub Ends {ℓ} : {A : Type ℓ} → (A → Type 0) → Parsed A → Type 0
Ends P (ok a) = P a
Ends P (err e) = Unit
Ends P out_of_fuel = ⊥

Ends-bind {ℓ κ} :
    {A : Type ℓ} {B : Type κ} (P : A → Type 0) (Q : B → Type 0) (m : Parsed A) (f : A → Parsed B)
    → Ends P m
    → ((a : A) → P a → Ends Q (f a))
    → Ends Q (m >>= f)
Ends-bind P Q (ok a) f h k = k a h
Ends-bind P Q (err e) f h k = tt
Ends-bind P Q out_of_fuel f h k = elim h [ ]

Ends-if {ℓ} :
    {A : Type ℓ} (P : A → Type 0) (b : Bool) (x y : Parsed A)
    → (b ≡ true → Ends P x)
    → (b ≡ false → Ends P y)
    → Ends P (if b then x else y)
Ends-if P true x y hx hy = hx refl
Ends-if P false x y hx hy = hy refl

number_of-Ends :
    (bound : ℕ) (digits : Text) (e : LayoutError)
    → 0 < bound
    → Ends (λ n. n < bound) (number_of bound digits e)
unfolding number_of
number_of-Ends bound digits e h = read (parse_uint bound digits) refl
  where
    read :
        (o : Option ℕ)
        → parse_uint bound digits ≡ o
        → Ends (λ n. n < bound) (elim o [ some n ↦ ok n | none ↦ err e ])
    read none p = tt
    read (some n) p = ((parse_uint_iff bound digits n h).0 p).1

length-span_digits : (s : Text) → length (span_digits s).0 + length (span_digits s).1 ≡ length s
unfolding span_digits
length-span_digits [] = refl
length-span_digits (c ∷ s) = ground (arith, length-span_digits s)

abbrev Within : Text → ℕ × Text × Option ℕ → Type 0
Within s (value, rest, sep) = (value < u16_bound) × (length rest < length s)

split_separator-length : (v : ℕ) (s : Text) → length (split_separator v s).1 ≤ length s
unfolding split_separator
split_separator-length v [] = omega arith
split_separator-length v (c ∷ s) = ground arith

split_separator-value : (v : ℕ) (s : Text) → (split_separator v s).0 ≡ v
unfolding split_separator
split_separator-value v [] = refl
split_separator-value v (c ∷ s) = ground arith

take_dimension-Ends : (s : Text) → Ends (Within s) (take_dimension s)
unfolding take_dimension
take_dimension-Ends s =
    let digits = (span_digits s).0 in
    let rest = (span_digits s).1 in
    Ends-if (Within s) (length digits == 0) _ _ (λ e. tt)
      (λ e.
        Ends-bind (λ n. n < u16_bound) (Within s) (number_of u16_bound digits (number_range digits))
          _ (number_of-Ends u16_bound digits (number_range digits) (omega arith))
          (λ n h. (
            rw (split_separator-value n rest) h,
            ground (arith, split_separator-length n rest, length-span_digits s),
          )))

abbrev WithinNumber : Text → ℕ × Text → Type 0
WithinNumber s (value, rest) = (value < u16_bound) × (length rest < length s)

check_delim-Ends :
    (delim : ℕ) (s : Text) (t : ℕ × Text × Option ℕ)
    → Within s t
    → Ends (WithinNumber s) (check_delim delim s t)
unfolding check_delim
check_delim-Ends delim s (v, rest, none) h = tt
check_delim-Ends delim s (v, rest, some c) h =
    Ends-if (WithinNumber s) (c == delim) _ _ (λ _. h) (λ _. tt)

take_number-Ends : (s : Text) (delim : ℕ) → Ends (WithinNumber s) (take_number s delim)
unfolding take_number
take_number-Ends s delim =
    Ends-bind (Within s) (WithinNumber s) (take_dimension s) _ (take_dimension-Ends s)
      (check_delim-Ends delim s)

abbrev WithinPane : Text → PaneId × Text → Type 0
WithinPane s (pane, rest) = (pane_number pane < u32_bound) × (length rest < length s)

take_pane-Ends : (s : Text) → Ends (WithinPane s) (take_pane s)
unfolding take_pane
take_pane-Ends s =
    let digits = (span_digits s).0 in
    Ends-if (WithinPane s) (length digits == 0) _ _ (λ e. tt)
      (λ e.
        Ends-bind (λ n. n < u32_bound) (WithinPane s)
          (number_of u32_bound digits (pane_range digits)) _
          (number_of-Ends u32_bound digits (pane_range digits) (omega arith))
          (λ n h. (h, ground (arith, length-span_digits s))))

-- What a node and the children of a split come to, at nesting depth `d`.
abbrev GoodNode : ℕ → Text → Layout × Text → Type 0
GoodNode d s (l, rest) = Fits l × (d + depth l ≤ max_layout_depth) × (length rest < length s)

abbrev GoodChildren : ℕ → Text → Layouts × Text → Type 0
GoodChildren d s (ls, rest) =
    FitsAll ls × (ls ≢ nil) × (d + depth_children ls ≤ max_layout_depth) × (length rest < length s)

after_child-Ends :
    (d close : ℕ) (s : Text) (l : Layout) (rest : Text) (more : Text → Parsed (Layouts × Text))
    → GoodNode d s (l, rest)
    → ((t : Text) → length t < length rest → Ends (GoodChildren d t) (more t))
    → Ends (GoodChildren d s) (after_child close l rest more)
unfolding after_child
after_child-Ends d close s l [] more g k = tt
after_child-Ends d close s l (c ∷ t) more g k =
    Ends-if (GoodChildren d s) (c == close) _ _
      (λ _. ((g.0, tt), (λ e. cc), omega arith, omega arith))
      (λ _.
        Ends-if (GoodChildren d s) (c == b',') _ _
          (λ _.
            Ends-bind (GoodChildren d t) (GoodChildren d s) (more t) _ (k t (omega arith))
              (λ (ls, rest) h. ((g.0, h.0), (λ e. cc), omega arith, omega arith)))
          (λ _. tt))

after_cell-Ends :
    (w h x y d : ℕ) (s₀ s : Text) (sep : Option ℕ) (children : ℕ → Parsed (Layouts × Text))
    → (w < u16_bound) × (h < u16_bound) × (x < u16_bound) × (y < u16_bound)
    → d ≤ max_layout_depth
    → length s < length s₀
    → ((close : ℕ) → Ends (GoodChildren (d + 1) s) (children close))
    → Ends (GoodNode d s₀) (after_cell w h x y sep s children)
unfolding after_cell
after_cell-Ends w h x y d s₀ s none children b dd l k = tt
after_cell-Ends w h x y d s₀ s (some c) children b dd l k =
    Ends-if (GoodNode d s₀) (c == b'{') _ _
      (λ _.
        Ends-bind (GoodChildren (d + 1) s) (GoodNode d s₀) (children b'}') _ (k b'}')
          (λ (ls, rest) g. ((b, g.1, g.0), omega arith, omega arith)))
      (λ _.
        Ends-if (GoodNode d s₀) (c == b'[') _ _
          (λ _.
            Ends-bind (GoodChildren (d + 1) s) (GoodNode d s₀) (children b']') _ (k b']')
              (λ (ls, rest) g. ((b, g.1, g.0), omega arith, omega arith)))
          (λ _.
            Ends-if (GoodNode d s₀) (c == b',') _ _
              (λ _.
                Ends-bind (WithinPane s) (GoodNode d s₀) (take_pane s) _ (take_pane-Ends s)
                  (λ (pane, rest) g. ((b, g.0), omega arith, omega arith)))
              (λ _. tt)))

mutual
  unfolding parse_node

  node-Ends : (f : ℕ) (s : Text) (d : ℕ) → 2 * length s < f → Ends (GoodNode d s) (parse_node f s d)
  node-Ends zero s d fuel = absurd (omega arith)
  node-Ends (suc f) s d fuel =
      Ends-if (GoodNode d s) (ltb max_layout_depth d) _ _ (λ _. tt)
        (λ shallow.
          Ends-bind (WithinNumber s) (GoodNode d s) (take_number s b'x') _ (take_number-Ends s b'x')
            (λ (w, s₁) hw.
              Ends-bind (WithinNumber s₁) (GoodNode d s) (take_number s₁ b',') _
                (take_number-Ends s₁ b',')
                (λ (h, s₂) hh.
                  Ends-bind (WithinNumber s₂) (GoodNode d s) (take_number s₂ b',') _
                    (take_number-Ends s₂ b',')
                    (λ (x, s₃) hx.
                      Ends-bind (Within s₃) (GoodNode d s) (take_dimension s₃) _
                        (take_dimension-Ends s₃)
                        (λ (y, s₄, sep) hy.
                          after_cell-Ends w h x y d s s₄ sep _ (hw.0, hh.0, hx.0, hy.0)
                            (ground arith) (omega arith)
                            (λ close. children-Ends f s₄ close (d + 1) (omega arith)))))))

  children-Ends :
      (f : ℕ) (s : Text) (close d : ℕ)
      → suc (2 * length s) < f
      → Ends (GoodChildren d s) (parse_children f s close d)
  children-Ends zero s close d fuel = absurd (omega arith)
  children-Ends (suc f) s close d fuel =
      Ends-bind (GoodNode d s) (GoodChildren d s) (parse_node f s d) _
        (node-Ends f s d (omega arith))
        (λ (l, rest) g.
          after_child-Ends d close s l rest (λ t. parse_children f t close d) g
            (λ t shorter. children-Ends f t close d (omega arith)))

abbrev pub WellFormed : Layout → Type 0
WellFormed l = Fits l × (depth l ≤ max_layout_depth)

parse_body-Ends : (body : Text) → Ends WellFormed (parse_body body)
unfolding parse_body
parse_body-Ends body =
    Ends-bind (GoodNode 0 body) WellFormed (parse_node (2 * length body + 1) body 0) finish
      (node-Ends (2 * length body + 1) body 0 (omega arith)) whole
  where
    whole : (p : Layout × Text) → GoodNode 0 body p → Ends WellFormed (finish p)
    whole (l, []) g = (g.0, omega arith)
    whole (l, c ∷ rest) g = tt

check_body-Ends : (expected : Option ℕ) (body : Text) → Ends WellFormed (check_body expected body)
unfolding check_body
check_body-Ends none body = parse_body-Ends body
check_body-Ends (some n) body =
    Ends-if WellFormed (checksum body == n) _ _ (λ _. parse_body-Ends body) (λ _. tt)

-- On every text the parser returns a layout or an error, within its fuel. A layout that it returns
-- has numbers that fit their machine types, has children in each of its splits, and nests its
-- splits at most 128 deep.
pub parse_sound : (s : Text) → Ends WellFormed (parse s)
unfolding parse
parse_sound s = check_body-Ends (split_checksum s).0 (split_checksum s).1

Ends-ok : (P : Layout → Type 0) (m : Parsed Layout) {l : Layout} → m ≡ ok l → Ends P m → P l
Ends-ok P m e h = rw e at h

-- What the parser accepts, it accepts again in both rendered forms, as the same layout.
pub parse_again :
    (s : Text) (l : Layout)
    → parse s ≡ ok l
    → (parse (render l) ≡ ok l) × (parse (to_layout_string l) ≡ ok l)
parse_again s l e =
    let (fits, deep) = Ends-ok WellFormed (parse s) e (parse_sound s) in
    (parse-render l fits deep, parse-to_layout_string l fits deep)
