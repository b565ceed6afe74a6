-- ===== src/Layout/Parse/Deep.antt =====
-- src/layout.rs: the guard on nesting.
use tmuxctl.Base.{
  ℕ, zero, suc, ◌+◌, ◌*◌, ◌<◌, ◌≡◌, ◌≢◌, inl, inr, some, refl, ap, ◌∙◌, true, false, [], ◌∷◌, ◌++◌,
  append_assoc, append-nil, arith, Text, length, length-append, lt→ltb, ==_refl,
}
use native.Mathlib.Decide.{dec_lt}
use tmuxctl.Ids.{PaneId}
use tmuxctl.Layout.Tree.{
  Layout, Layouts, leaf, split_h, split_v, nil, cons, render, render_children, to_layout_string,
}
use tmuxctl.Layout.Parse.{
  Parsed, err, too_deep, is_separator, after_cell, after_child, parse_node, parse_children,
  max_layout_depth, parse_body, parse,
}
use tmuxctl.Layout.Checksum.{checksum}
use tmuxctl.Layout.Parse.Cell.{NoDigit, parse_node-cell}
use tmuxctl.Layout.Parse.RoundTrip.{
  Fits, FitsAll, depth, depth_children, IsClose, write_cell-append, length-write_cell,
  close-NoDigit, parse_children-step, parse_node-render,
}
use tmuxctl.Layout.Parse.Wire.{split_checksum-render, split_checksum-hex4, checksum-lt}

parse_node-limit :
    (f d : ℕ) (s : Text) → max_layout_depth < d → parse_node (suc f) s d ≡ err too_deep
unfolding parse_node
parse_node-limit f d s h = rw (lt→ltb max_layout_depth d h)

abbrev RefusesNode : Layout → Type 0
RefusesNode l =
    (f d : ℕ) (rest : Text)
    → Fits l
    → max_layout_depth < d + depth l
    → 2 * length (render l) < f
    → NoDigit rest
    → parse_node f (render l ++ rest) d ≡ err too_deep

abbrev RefusesChildren : Layouts → Type 0
RefusesChildren ls =
    (f d close : ℕ) (rest : Text)
    → IsClose close
    → ls ≢ nil
    → FitsAll ls
    → max_layout_depth < d + depth_children ls
    → suc (2 * length (render_children false ls)) < f
    → parse_children f (render_children false ls ++ close ∷ rest) close d ≡ err too_deep

brace : is_separator b'{' ≡ true
unfolding is_separator
brace = refl

bracket : is_separator b'[' ≡ true
unfolding is_separator
bracket = refl

after_cell-brace :
    (w h x y : ℕ) (s : Text) (k : ℕ → Parsed (Layouts × Text))
    → k b'}' ≡ err too_deep
    → after_cell w h x y (some b'{') s k ≡ err too_deep
unfolding after_cell
after_cell-brace w h x y s k e = rw e

after_cell-bracket :
    (w h x y : ℕ) (s : Text) (k : ℕ → Parsed (Layouts × Text))
    → k b']' ≡ err too_deep
    → after_cell w h x y (some b'[') s k ≡ err too_deep
unfolding after_cell
after_cell-bracket w h x y s k e = rw e

leaf-RefusesNode : (w h x y : ℕ) (pane : PaneId) → RefusesNode (leaf w h x y pane)
leaf-RefusesNode w h x y pane zero d rest fits deep fuel n = absurd (omega arith)
leaf-RefusesNode w h x y pane (suc f) d rest fits deep fuel n = parse_node-limit f d _ (omega arith)

split_h-RefusesNode :
    (w h x y : ℕ) (ls : Layouts) → RefusesChildren ls → RefusesNode (split_h w h x y ls)
unfolding render
split_h-RefusesNode w h x y ls ih zero d rest fits deep fuel n = absurd (omega arith)
split_h-RefusesNode w h x y ls ih (suc f) d rest fits deep fuel n =
    elim (dec_lt max_layout_depth d) [
      | yes over ↦ parse_node-limit f d _ over
      | no within ↦
          let inner = b'{' ∷ (render_children false ls ++ b'}' ∷ []) in
          let refused = ih f (d + 1) b'}' rest (inl refl) fits.1 fits.2 (omega arith) (
            omega (
              arith,
              length-write_cell w h x y inner,
              length-append (render_children false ls) (b'}' ∷ []),
            )) in
          rw
            (
              write_cell-append w h x y inner rest,
              parse_node-cell f w h x y b'{' ((render_children false ls ++ b'}' ∷ []) ++ rest) d
                  fits.0 (omega arith) brace,
              append_assoc,
            )
            (after_cell-brace w h x y _ _ refused)
    ]

split_v-RefusesNode :
    (w h x y : ℕ) (ls : Layouts) → RefusesChildren ls → RefusesNode (split_v w h x y ls)
unfolding render
split_v-RefusesNode w h x y ls ih zero d rest fits deep fuel n = absurd (omega arith)
split_v-RefusesNode w h x y ls ih (suc f) d rest fits deep fuel n =
    elim (dec_lt max_layout_depth d) [
      | yes over ↦ parse_node-limit f d _ over
      | no within ↦
          let inner = b'[' ∷ (render_children false ls ++ b']' ∷ []) in
          let refused = ih f (d + 1) b']' rest (inr refl) fits.1 fits.2 (omega arith) (
            omega (
              arith,
              length-write_cell w h x y inner,
              length-append (render_children false ls) (b']' ∷ []),
            )) in
          rw
            (
              write_cell-append w h x y inner rest,
              parse_node-cell f w h x y b'[' ((render_children false ls ++ b']' ∷ []) ++ rest) d
                  fits.0 (omega arith) bracket,
              append_assoc,
            )
            (after_cell-bracket w h x y _ _ refused)
    ]

parse_children-refused :
    (f close d : ℕ) (s : Text)
    → parse_node f s d ≡ err too_deep
    → parse_children (suc f) s close d ≡ err too_deep
unfolding parse_node
parse_children-refused f close d s h = rw (h, parse_node)

after_child-refused :
    (close : ℕ) (l : Layout) (t : Text) (more : Text → Parsed (Layouts × Text))
    → IsClose close
    → more t ≡ err too_deep
    → after_child close l (b',' ∷ t) more ≡ err too_deep
unfolding after_child
after_child-refused close l t more (inl e) h = rw (e, h)
after_child-refused close l t more (inr e) h = rw (e, h)

cons-RefusesChildren :
    (l : Layout) (ls : Layouts) → RefusesNode l → RefusesChildren ls → RefusesChildren (cons l ls)
unfolding render
cons-RefusesChildren l ls node ih zero d close rest c ne fits deep fuel = absurd (omega arith)
cons-RefusesChildren l nil node ih (suc f) d close rest c ne fits deep fuel =
    let refused =
      node f d (close ∷ rest) fits.0 (omega arith) (omega (arith, length-append (render l) []))
        (close-NoDigit close rest c) in
    rw append-nil (parse_children-refused f close d (render l ++ close ∷ rest) refused)
cons-RefusesChildren l (cons l₂ ls) node ih (suc f) d close rest c ne fits deep fuel =
    let later = render_children false (cons l₂ ls) in
    let tail = later ++ close ∷ rest in
    let sizes = length-append (render l) (b',' ∷ later) in
    let whole =
      ap (λ t. parse_children (suc f) t close d)
        (append_assoc (render l) (b',' ∷ later) (close ∷ rest)) in
    elim (dec_lt max_layout_depth (d + depth l)) [
      | yes over ↦
          whole
          ∙ parse_children-refused f close d (render l ++ b',' ∷ tail)
              (node f d (b',' ∷ tail) fits.0 over (omega (arith, sizes)) (λ d. omega arith))
      | no within ↦
          whole
          ∙ parse_children-step f close d (render l ++ b',' ∷ tail) (
              parse_node-render l f d (b',' ∷ tail) fits.0 (omega arith) (omega (arith, sizes))
                (λ d. omega arith))
          ∙ after_child-refused close l tail (λ t. parse_children f t close d) c
              (ih f d close rest c (λ e. cc) fits.1 (omega arith) (omega (arith, sizes)))
    ]

mutual
  node-Refuses : (l : Layout) → RefusesNode l
  node-Refuses (leaf w h x y pane) = leaf-RefusesNode w h x y pane
  node-Refuses (split_h w h x y ls) = split_h-RefusesNode w h x y ls (children-Refuses ls)
  node-Refuses (split_v w h x y ls) = split_v-RefusesNode w h x y ls (children-Refuses ls)

  children-Refuses : (ls : Layouts) → RefusesChildren ls
  children-Refuses nil = λ f d close rest c ne. absurd (ne refl)
  children-Refuses (cons l ls) = cons-RefusesChildren l ls (node-Refuses l) (children-Refuses ls)

-- A layout whose numbers fit their types, whose splits have children and nest more than 128 deep is
-- refused with the depth error, in its bare rendered form and with its checksum in front.
pub parse_deep :
    (l : Layout)
    → Fits l
    → max_layout_depth < depth l
    → (parse (render l) ≡ err too_deep) × (parse (to_layout_string l) ≡ err too_deep)
unfolding parse parse_body to_layout_string
parse_deep l fits deep =
    let refused =
      node-Refuses l (2 * length (render l) + 1) 0 [] fits (omega arith) (omega arith) tt in
    let bare = rw append-nil at refused in
    (
      rw (split_checksum-render l, bare),
      rw (split_checksum-hex4 (checksum (render l)) (render l) (checksum-lt (render l)), ==_refl)
          (rw bare refl),
    )
