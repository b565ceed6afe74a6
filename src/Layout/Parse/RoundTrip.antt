-- ===== src/Layout/Parse/RoundTrip.antt =====
-- src/layout.rs: a rendered layout parses back, up to the depth limit.
use Prim.Native.Nat.{max}
use tmuxctl.Base.{
  ℕ, zero, suc, ◌+◌, ◌*◌, ◌≤◌, ◌<◌, ◌≡◌, ◌≢◌, ◌⊎◌, inl, inr, refl, ap, ◌∙◌, false, [], ◌∷◌, ◌++◌,
  append_assoc, append-nil, arith, Text, length, length-append,
}
use tmuxctl.Text.Number.{u16_bound, u32_bound, decimal}
use tmuxctl.Ids.{PaneId, pane_number}
use tmuxctl.Layout.Tree.{
  Layout, Layouts, leaf, split_h, split_v, nil, cons, write_cell, render, render_children,
}
use tmuxctl.Layout.Parse.{
  Parsed, ok, is_separator, after_cell, after_child, parse_node, parse_children, max_layout_depth,
  parse_body,
}
use tmuxctl.Layout.Parse.Cell.{NoDigit, take_pane-decimal, parse_node-cell}

abbrev pub FitsCell : (w h x y : ℕ) → Type 0
FitsCell w h x y = (w < u16_bound) × (h < u16_bound) × (x < u16_bound) × (y < u16_bound)

-- Every number of the tree fits its machine type, and no split is without children.
abbrev mutual
  pub Fits : Layout → Type 0
  Fits (leaf w h x y pane) = FitsCell w h x y × (pane_number pane < u32_bound)
  Fits (split_h w h x y children) = FitsCell w h x y × (children ≢ nil) × FitsAll children
  Fits (split_v w h x y children) = FitsCell w h x y × (children ≢ nil) × FitsAll children

  pub FitsAll : Layouts → Type 0
  FitsAll nil = Unit
  FitsAll (cons l ls) = Fits l × FitsAll ls

-- How deep the splits nest; a pane alone has depth 0.
abbrev mutual
  pub depth : Layout → ℕ
  depth (leaf w h x y pane) = 0
  depth (split_h w h x y children) = suc (depth_children children)
  depth (split_v w h x y children) = suc (depth_children children)

  pub depth_children : Layouts → ℕ
  depth_children nil = 0
  depth_children (cons l ls) = max (depth l) (depth_children ls)

pub write_cell-append :
    (w h x y : ℕ) (t rest : Text) → write_cell w h x y t ++ rest ≡ write_cell w h x y (t ++ rest)
unfolding write_cell
write_cell-append w h x y t rest = simp append_assoc

pub length-write_cell : (w h x y : ℕ) (t : Text) → length t < length (write_cell w h x y t)
unfolding write_cell
length-write_cell w h x y t = omega (
  arith,
  length-append (decimal w) (b'x' ∷ (decimal h ++ b',' ∷ (decimal x ++ b',' ∷ (decimal y ++ t)))),
  length-append (decimal h) (b',' ∷ (decimal x ++ b',' ∷ (decimal y ++ t))),
  length-append (decimal x) (b',' ∷ (decimal y ++ t)),
  length-append (decimal y) t,
)

abbrev pub IsClose : ℕ → Type 0
IsClose c = (c ≡ b'}') ⊎ (c ≡ b']')

nil-ne-cons : {l : Layout} {ls : Layouts} → cons l ls ≢ nil
nil-ne-cons e = cc

-- `p` reads `l` off its print, with fuel above `bound`.
abbrev ReadsNode : Layout → Type 0
ReadsNode l =
    (f depth₀ : ℕ) (rest : Text)
    → Fits l
    → depth₀ + depth l ≤ max_layout_depth
    → 2 * length (render l) < f
    → NoDigit rest
    → parse_node f (render l ++ rest) depth₀ ≡ ok (l, rest)

abbrev ReadsChildren : Layouts → Type 0
ReadsChildren ls =
    (f depth₀ close : ℕ) (rest : Text)
    → IsClose close
    → ls ≢ nil
    → FitsAll ls
    → depth₀ + depth_children ls ≤ max_layout_depth
    → suc (2 * length (render_children false ls)) < f
    → parse_children f (render_children false ls ++ close ∷ rest) close depth₀ ≡ ok (ls, rest)

leaf-ReadsNode : (w h x y : ℕ) (pane : PaneId) → ReadsNode (leaf w h x y pane)
unfolding render
leaf-ReadsNode w h x y pane zero d rest fits deep fuel n = absurd (omega arith)
leaf-ReadsNode w h x y (PaneId.mk id) (suc f) d rest fits deep fuel n =
    rw
      (
        write_cell-append w h x y (b',' ∷ decimal id) rest,
        parse_node-cell f w h x y b',' (decimal id ++ rest) d fits.0 (omega arith)
            (unfold is_separator in refl),
      )
      (unfold after_cell in rw (take_pane-decimal id rest fits.1 n))

split_h-ReadsNode : (w h x y : ℕ) (ls : Layouts) → ReadsChildren ls → ReadsNode (split_h w h x y ls)
unfolding render
split_h-ReadsNode w h x y ls ih zero d rest fits deep fuel n = absurd (omega arith)
split_h-ReadsNode w h x y ls ih (suc f) d rest fits deep fuel n =
    let inner = b'{' ∷ (render_children false ls ++ b'}' ∷ []) in
    let parsed = ih f (d + 1) b'}' rest (inl refl) fits.1 fits.2 (omega arith) (
      omega (
        arith,
        length-write_cell w h x y inner,
        length-append (render_children false ls) (b'}' ∷ []),
      )) in
    rw
      (
        write_cell-append w h x y inner rest,
        parse_node-cell f w h x y b'{' ((render_children false ls ++ b'}' ∷ []) ++ rest) d fits.0
            (omega arith) (unfold is_separator in refl),
        append_assoc,
      )
      (unfold after_cell in rw parsed)

split_v-ReadsNode : (w h x y : ℕ) (ls : Layouts) → ReadsChildren ls → ReadsNode (split_v w h x y ls)
unfolding render
split_v-ReadsNode w h x y ls ih zero d rest fits deep fuel n = absurd (omega arith)
split_v-ReadsNode w h x y ls ih (suc f) d rest fits deep fuel n =
    let inner = b'[' ∷ (render_children false ls ++ b']' ∷ []) in
    let parsed = ih f (d + 1) b']' rest (inr refl) fits.1 fits.2 (omega arith) (
      omega (
        arith,
        length-write_cell w h x y inner,
        length-append (render_children false ls) (b']' ∷ []),
      )) in
    rw
      (
        write_cell-append w h x y inner rest,
        parse_node-cell f w h x y b'[' ((render_children false ls ++ b']' ∷ []) ++ rest) d fits.0
            (omega arith) (unfold is_separator in refl),
        append_assoc,
      )
      (unfold after_cell in rw parsed)

pub close-NoDigit : (close : ℕ) (rest : Text) → IsClose close → NoDigit (close ∷ rest)
close-NoDigit close rest (inl e) d = omega arith
close-NoDigit close rest (inr e) d = omega arith

after_child-close :
    (close : ℕ) (l : Layout) (rest : Text) (more : Text → Parsed (Layouts × Text))
    → after_child close l (close ∷ rest) more ≡ ok (cons l nil, rest)
unfolding after_child
after_child-close close l rest more = ground arith

after_child-comma :
    (close : ℕ) (l : Layout) (t : Text) (more : Text → Parsed (Layouts × Text)) {ls : Layouts}
    {rest : Text}
    → IsClose close
    → more t ≡ ok (ls, rest)
    → after_child close l (b',' ∷ t) more ≡ ok (cons l ls, rest)
unfolding after_child
after_child-comma close l t more (inl e) h = rw (e, h)
after_child-comma close l t more (inr e) h = rw (e, h)

pub parse_children-step :
    (f close d : ℕ) (s : Text) {l : Layout} {rest : Text}
    → parse_node f s d ≡ ok (l, rest)
    → parse_children (suc f) s close d ≡ after_child close l rest (λ t. parse_children f t close d)
unfolding parse_node
parse_children-step f close d s h = rw (h, parse_node)

cons-ReadsChildren :
    (l : Layout) (ls : Layouts) → ReadsNode l → ReadsChildren ls → ReadsChildren (cons l ls)
unfolding render
cons-ReadsChildren l ls node ih zero d close rest c ne fits deep fuel = absurd (omega arith)
cons-ReadsChildren l nil node ih (suc f) d close rest c ne fits deep fuel =
    let parsed =
      node f d (close ∷ rest) fits.0 (omega arith) (omega (arith, length-append (render l) []))
        (close-NoDigit close rest c) in
    rw (append-nil, parse_children-step f close d (render l ++ close ∷ rest) parsed)
      (after_child-close close l rest (λ t. parse_children f t close d))
cons-ReadsChildren l (cons l₂ ls) node ih (suc f) d close rest c ne fits deep fuel =
    let later = render_children false (cons l₂ ls) in
    let sizes = length-append (render l) (b',' ∷ later) in
    let parsed =
      node f d (b',' ∷ (later ++ close ∷ rest)) fits.0 (omega arith) (omega (arith, sizes))
        (λ d. omega arith) in
    let more =
      ih f d close rest c (λ e. nil-ne-cons e) fits.1 (omega arith) (omega (arith, sizes)) in
    ap (λ t. parse_children (suc f) t close d)
      (append_assoc (render l) (b',' ∷ later) (close ∷ rest))
    ∙ parse_children-step f close d (render l ++ b',' ∷ (later ++ close ∷ rest)) parsed
    ∙ after_child-comma close l (later ++ close ∷ rest) (λ t. parse_children f t close d) c more

mutual
  node-Reads : (l : Layout) → ReadsNode l
  node-Reads (leaf w h x y pane) = leaf-ReadsNode w h x y pane
  node-Reads (split_h w h x y ls) = split_h-ReadsNode w h x y ls (children-Reads ls)
  node-Reads (split_v w h x y ls) = split_v-ReadsNode w h x y ls (children-Reads ls)

  children-Reads : (ls : Layouts) → ReadsChildren ls
  children-Reads nil = λ f d close rest c ne. absurd (ne refl)
  children-Reads (cons l ls) = cons-ReadsChildren l ls (node-Reads l) (children-Reads ls)

-- A rendered layout parses back off the front of any text that does not go on with a digit, with
-- fuel above twice its length, as long as its splits stay within the depth limit.
pub parse_node-render :
    (l : Layout) (f depth₀ : ℕ) (rest : Text)
    → Fits l
    → depth₀ + depth l ≤ max_layout_depth
    → 2 * length (render l) < f
    → NoDigit rest
    → parse_node f (render l ++ rest) depth₀ ≡ ok (l, rest)
parse_node-render l = node-Reads l

pub parse_body-render :
    (l : Layout) → Fits l → depth l ≤ max_layout_depth → parse_body (render l) ≡ ok l
unfolding parse_body
parse_body-render l fits deep =
    let parsed =
      parse_node-render l (2 * length (render l) + 1) 0 [] fits (omega arith) (omega arith) tt in
    rw (rw append-nil at parsed)
