-- ===== src/Commands/Lines.antt =====
-- src/commands.rs: each command is one line, so that one registration answers for it, and its
-- arguments can be read back from it.
use tmuxctl.Base.{
  ℕ, ◌/◌, ◌%◌, ◌<◌, ◌≤◌, ◌≡◌, refl, Bool, true, false, [], ◌∷◌, ◌++◌, Text, Bytes, All, All-append,
  All-map, arith, codes, ltb, leb, ◌&&◌,
}
use tmuxctl.Text.Number.{decimal}
use tmuxctl.Text.Number.RoundTrip.{decimal-digits}
use tmuxctl.Ids.{PaneId, WindowId, show_pane, show_window}
use tmuxctl.Layout.Tree.{
  Layout, Layouts, leaf, split_h, split_v, nil, cons, to_layout_string, write_cell, render,
  render_children, hex_digit, hex4,
}
use tmuxctl.Layout.Checksum.{checksum}
use tmuxctl.Commands.{hex2, hex_bytes, send_keys, resize, resize_window, select_layout}

-- A printable ASCII character other than the space.
abbrev pub IsGraphic : ℕ → Type 0
IsGraphic c = (0x21 ≤ c) × (c < 0x7f)

-- A printable ASCII character.
abbrev pub IsPrintable : ℕ → Type 0
IsPrintable c = (0x20 ≤ c) × (c < 0x7f)

graphic-IsPrintable : (t : Text) → All IsGraphic t → All IsPrintable t
graphic-IsPrintable = All-map (λ c h. omega arith)

decimal-IsGraphic : (n : ℕ) → All IsGraphic (decimal n)
decimal-IsGraphic n = All-map (λ c d. omega arith) (decimal n) (decimal-digits n)

hex_digit-IsGraphic : (n : ℕ) → n < 16 → IsGraphic (hex_digit n)
unfolding hex_digit
hex_digit-IsGraphic n h = ground arith

write_cell-IsGraphic :
    (w h x y : ℕ) (t : Text) → All IsGraphic t → All IsGraphic (write_cell w h x y t)
unfolding write_cell
write_cell-IsGraphic w h x y t g = All-append IsGraphic (decimal w) _ (decimal-IsGraphic w) (
  omega arith,
  All-append IsGraphic (decimal h) _ (decimal-IsGraphic h) (
    omega arith,
    All-append IsGraphic (decimal x) _ (decimal-IsGraphic x)
        (omega arith, All-append IsGraphic (decimal y) t (decimal-IsGraphic y) g),
  ),
)

mutual
  unfolding render

  render-IsGraphic : (l : Layout) → All IsGraphic (render l)
  render-IsGraphic (leaf w h x y (PaneId.mk n)) =
      write_cell-IsGraphic w h x y (b',' ∷ decimal n) (omega arith, decimal-IsGraphic n)
  render-IsGraphic (split_h w h x y ls) =
      write_cell-IsGraphic w h x y (b'{' ∷ (render_children false ls ++ b'}' ∷ [])) (
        omega arith,
        All-append IsGraphic (render_children false ls) (b'}' ∷ []) (children-IsGraphic ls false)
            (omega arith),
      )
  render-IsGraphic (split_v w h x y ls) =
      write_cell-IsGraphic w h x y (b'[' ∷ (render_children false ls ++ b']' ∷ [])) (
        omega arith,
        All-append IsGraphic (render_children false ls) (b']' ∷ []) (children-IsGraphic ls false)
            (omega arith),
      )

  children-IsGraphic : (ls : Layouts) (later : Bool) → All IsGraphic (render_children later ls)
  children-IsGraphic nil later = tt
  children-IsGraphic (cons l ls) false =
      All-append IsGraphic (render l) (render_children true ls) (render-IsGraphic l)
        (children-IsGraphic ls true)
  children-IsGraphic (cons l ls) true = (
    omega arith,
    All-append IsGraphic (render l) (render_children true ls) (render-IsGraphic l)
        (children-IsGraphic ls true),
  )

hex4-IsGraphic : (n : ℕ) → All IsGraphic (hex4 n)
unfolding hex4
hex4-IsGraphic n =
    let digit : (k : ℕ) → IsGraphic (hex_digit (k % 16)) =
      λ k. hex_digit-IsGraphic (k % 16) (omega arith) in
    (digit (n / 4096), (digit (n / 256), (digit (n / 16), (digit n, tt))))

pub to_layout_string-IsGraphic : (l : Layout) → All IsGraphic (to_layout_string l)
unfolding to_layout_string
to_layout_string-IsGraphic l =
    All-append IsGraphic (hex4 (checksum (render l))) (b',' ∷ render l)
      (hex4-IsGraphic (checksum (render l))) ((omega arith, omega arith), render-IsGraphic l)

pub hex2-IsGraphic : (n : ℕ) → n < 256 → All IsGraphic (hex2 n)
unfolding hex2
hex2-IsGraphic n h =
    (hex_digit-IsGraphic (n / 16) (omega arith), (hex_digit-IsGraphic (n % 16) (omega arith), tt))

hex_bytes-IsPrintable : (keys : Bytes) → All (λ k. k < 256) keys → All IsPrintable (hex_bytes keys)
unfolding hex_bytes
hex_bytes-IsPrintable [] h = tt
hex_bytes-IsPrintable (k ∷ keys) (hk, h) = (
  (omega arith, omega arith),
  All-append IsPrintable (hex2 k) (hex_bytes keys)
      (graphic-IsPrintable (hex2 k) (hex2-IsGraphic k hk)) (hex_bytes-IsPrintable keys h),
)

abbrev printable : ℕ → Bool
printable c = leb 0x20 c && ltb c 0x7f

abbrev all_printable : Text → Bool
all_printable [] = true
all_printable (c ∷ t) = printable c && all_printable t

-- To check a literal by evaluation.
literal-IsPrintable : (t : Text) → all_printable t ≡ true → All IsPrintable t
literal-IsPrintable [] h = tt
literal-IsPrintable (c ∷ t) h = (ground arith, literal-IsPrintable t (ground arith))

decimal-IsPrintable : (n : ℕ) → All IsPrintable (decimal n)
decimal-IsPrintable n = graphic-IsPrintable (decimal n) (decimal-IsGraphic n)

pub show_window-IsGraphic : (w : WindowId) → All IsGraphic (show_window w)
unfolding show_window
show_window-IsGraphic (WindowId.mk n) = ((omega arith, omega arith), decimal-IsGraphic n)

show_window-IsPrintable : (w : WindowId) → All IsPrintable (show_window w)
show_window-IsPrintable w = graphic-IsPrintable (show_window w) (show_window-IsGraphic w)

pub show_pane-IsGraphic : (p : PaneId) → All IsGraphic (show_pane p)
unfolding show_pane
show_pane-IsGraphic (PaneId.mk n) = ((omega arith, omega arith), decimal-IsGraphic n)

show_pane-IsPrintable : (p : PaneId) → All IsPrintable (show_pane p)
show_pane-IsPrintable p = graphic-IsPrintable (show_pane p) (show_pane-IsGraphic p)

pub send_keys-IsPrintable :
    (pane : PaneId) (keys : Bytes) → All (λ k. k < 256) keys → All IsPrintable (send_keys pane keys)
unfolding send_keys
send_keys-IsPrintable pane keys h =
    All-append IsPrintable (codes "send-keys -t ") _
      (literal-IsPrintable (codes "send-keys -t ") refl)
      (All-append IsPrintable (show_pane pane) _ (show_pane-IsPrintable pane) (
        All-append IsPrintable (codes " -H") _ (literal-IsPrintable (codes " -H") refl)
          (hex_bytes-IsPrintable keys h)))

pub resize-IsPrintable : (cols rows : ℕ) → All IsPrintable (resize cols rows)
unfolding resize
resize-IsPrintable cols rows =
    All-append IsPrintable (codes "refresh-client -C ") _
      (literal-IsPrintable (codes "refresh-client -C ") refl)
      (All-append IsPrintable (decimal cols) _ (decimal-IsPrintable cols)
        ((omega arith, omega arith), decimal-IsPrintable rows))

pub resize_window-IsPrintable :
    (window : WindowId) (cols rows : ℕ) → All IsPrintable (resize_window window cols rows)
unfolding resize_window
resize_window-IsPrintable window cols rows =
    All-append IsPrintable (codes "resize-window -t ") _
      (literal-IsPrintable (codes "resize-window -t ") refl)
      (All-append IsPrintable (show_window window) _ (show_window-IsPrintable window) (
        All-append IsPrintable (codes " -x ") _ (literal-IsPrintable (codes " -x ") refl) (
          All-append IsPrintable (decimal cols) _ (decimal-IsPrintable cols) (
            All-append IsPrintable (codes " -y ") _ (literal-IsPrintable (codes " -y ") refl)
              (decimal-IsPrintable rows)))))

pub select_layout-IsPrintable :
    (window : WindowId) (layout : Layout) → All IsPrintable (select_layout window layout)
unfolding select_layout
select_layout-IsPrintable window layout =
    All-append IsPrintable (codes "select-layout -t ") _
      (literal-IsPrintable (codes "select-layout -t ") refl)
      (All-append IsPrintable (show_window window) _ (show_window-IsPrintable window) (
        (omega arith, omega arith),
        graphic-IsPrintable (to_layout_string layout) (to_layout_string-IsGraphic layout),
      ))

-- Every command that the typed methods send consists of printable ASCII characters, for keys that
-- are bytes: it holds no newline, so it is one line of the protocol.
pub commands-IsPrintable :
    (pane : PaneId) (keys : Bytes) (window : WindowId) (cols rows : ℕ) (layout : Layout)
    → All (λ k. k < 256) keys
    → All IsPrintable (send_keys pane keys)
      × All IsPrintable (resize cols rows)
      × All IsPrintable (resize_window window cols rows)
      × All IsPrintable (select_layout window layout)
commands-IsPrintable pane keys window cols rows layout h = (
  send_keys-IsPrintable pane keys h,
  resize-IsPrintable cols rows,
  resize_window-IsPrintable window cols rows,
  select_layout-IsPrintable window layout,
)
