-- ===== src/Layout/Tree.antt =====
-- src/layout.rs: the tree and its text form.
use tmuxctl.Base.{ℕ, ◌+◌, ◌/◌, ◌%◌, [], ◌∷◌, ◌++◌, Bool, true, false, Text, ltb, if◌then◌else◌}
use tmuxctl.Text.Number.{decimal}
use tmuxctl.Ids.{PaneId, pane_number}
use tmuxctl.Layout.Checksum.{checksum}

-- `Layouts` is the `Vec<Layout>` of children.
mutual
  pub data Layout : Type 0 where
    leaf : (w h x y : ℕ) → PaneId → Layout
    split_h : (w h x y : ℕ) → Layouts → Layout
    split_v : (w h x y : ℕ) → Layouts → Layout

  pub data Layouts : Type 0 where
    nil : Layouts
    cons : Layout → Layouts → Layouts

-- `write!(out, "{w}x{h},{x},{y}")`, before the text that follows
unfoldable pub write_cell : (w h x y : ℕ) → Text → Text
write_cell w h x y rest =
    decimal w ++ b'x' ∷ (decimal h ++ b',' ∷ (decimal x ++ b',' ∷ (decimal y ++ rest)))

-- `write_tree` and `write_children`, which append to `out`: here each returns the text that it
-- appends. The flag of `render_children` says that a child stands before, `i > 0`.
unfoldable mutual
  pub render : Layout → Text
  render (leaf w h x y pane) = write_cell w h x y (b',' ∷ decimal (pane_number pane))
  render (split_h w h x y children) =
      write_cell w h x y (b'{' ∷ (render_children false children ++ b'}' ∷ []))
  render (split_v w h x y children) =
      write_cell w h x y (b'[' ∷ (render_children false children ++ b']' ∷ []))

  pub render_children : Bool → Layouts → Text
  render_children later nil = []
  render_children later (cons child children) =
      (if later then b',' ∷ [] else []) ++ (render child ++ render_children true children)

unfoldable pub hex_digit : ℕ → ℕ
hex_digit n = if ltb n 10 then b'0' + n else 87 + n

-- `{:04x}` of a `u16`
unfoldable pub hex4 : ℕ → Text
unfolding hex_digit
hex4 n =
    hex_digit (n / 4096 % 16)
    ∷ hex_digit (n / 256 % 16)
    ∷ hex_digit (n / 16 % 16)
    ∷ hex_digit (n % 16)
    ∷ []

unfoldable pub to_layout_string : Layout → Text
unfolding hex4
to_layout_string layout = hex4 (checksum (render layout)) ++ b',' ∷ render layout
