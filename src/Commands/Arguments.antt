-- ===== src/Commands/Arguments.antt =====
-- src/commands.rs: the arguments of a command can be read back from its line.
use tmuxctl.Base.{
  ℕ, ◌/◌, ◌%◌, ◌<◌, ◌≤◌, ◌≡◌, refl, ap, ◌∙◌, some, [], ◌∷◌, ◌++◌, map, append-nil, arith, Bytes,
  Text, All, All-map, Lacks, codes,
}
use tmuxctl.Text.Split.{split}
use tmuxctl.Text.Split.Laws.{split-sep, split-Lacks}
use tmuxctl.Ids.{PaneId, WindowId, show_pane, show_window}
use tmuxctl.Layout.Tree.{Layout, to_layout_string}
use tmuxctl.Layout.Parse.{ok, parse, from_hex, max_layout_depth}
use tmuxctl.Layout.Parse.RoundTrip.{Fits, depth}
use tmuxctl.Layout.Parse.Wire.{parse-to_layout_string, hex_digit_lem}
use tmuxctl.Commands.{hex2, hex_bytes, send_keys, select_layout}
use tmuxctl.Commands.Lines.{
  IsGraphic, hex2-IsGraphic, to_layout_string-IsGraphic, show_pane-IsGraphic, show_window-IsGraphic,
}

graphic-Lacks : (t : Text) → All IsGraphic t → Lacks b' ' t
graphic-Lacks = All-map (λ c g. omega arith)

-- The hexadecimal words behind a word without a space.
split-hex_bytes :
    (p : Text) (keys : Bytes)
    → Lacks b' ' p
    → All (λ k. k < 256) keys
    → split b' ' (p ++ hex_bytes keys) ≡ p ∷ map hex2 keys
unfolding hex_bytes
split-hex_bytes p [] hp h = ap (split b' ') (append-nil p) ∙ split-Lacks b' ' p hp
split-hex_bytes p (k ∷ keys) hp (hk, h) =
    split-sep b' ' p (hex2 k ++ hex_bytes keys) hp
    ∙ ap (◌∷◌ p) (split-hex_bytes (hex2 k) keys (graphic-Lacks (hex2 k) (hex2-IsGraphic k hk)) h)

from_hex-hex2 : (k : ℕ) → k < 256 → from_hex (hex2 k) 0 ≡ some k
unfolding from_hex hex2
from_hex-hex2 k h =
    let (_, high, _, _) = hex_digit_lem (k / 16) (omega arith) in
    let (_, low, _, _) = hex_digit_lem (k % 16) (omega arith) in rw (high, low) (ground arith)

map-from_hex :
    (keys : Bytes)
    → All (λ k. k < 256) keys
    → map (λ w. from_hex w 0) (map hex2 keys) ≡ map some keys
map-from_hex [] h = refl
map-from_hex (k ∷ keys) (hk, h) = cc (from_hex-hex2 k hk, map-from_hex keys h)

-- The words of a `send-keys` line are the command, the flag, the pane's id, the flag for
-- hexadecimal keys, and a word for each key in order, from which the key is read back. The keys
-- are bytes.
pub send_keys_words :
    (pane : PaneId) (keys : Bytes)
    → All (λ k. k < 256) keys
    → (split b' ' (send_keys pane keys)
        ≡ codes "send-keys" ∷ codes "-t" ∷ show_pane pane ∷ codes "-H" ∷ map hex2 keys)
      × (map (λ w. from_hex w 0) (map hex2 keys) ≡ map some keys)
unfolding send_keys
send_keys_words pane keys h = (
  split-sep b' ' (codes "send-keys") _ (omega arith)
      ∙ ap (◌∷◌ (codes "send-keys")) (
          split-sep b' ' (codes "-t") _ (omega arith)
          ∙ ap (◌∷◌ (codes "-t")) (
              split-sep b' ' (show_pane pane) _
                (graphic-Lacks (show_pane pane) (show_pane-IsGraphic pane))
              ∙ ap (◌∷◌ (show_pane pane)) (split-hex_bytes (codes "-H") keys (omega arith) h))),
  map-from_hex keys h,
)

-- The last word of a `select-layout` line is the layout's wire string, which the layout parser
-- reads back, for a layout whose numbers fit their types, whose splits have children and nest at
-- most 128 deep.
pub select_layout_words :
    (window : WindowId) (layout : Layout)
    → Fits layout
    → depth layout ≤ max_layout_depth
    → (split b' ' (select_layout window layout)
        ≡ codes "select-layout" ∷ codes "-t" ∷ show_window window ∷ to_layout_string layout ∷ [])
      × (parse (to_layout_string layout) ≡ ok layout)
unfolding select_layout
select_layout_words window layout fits deep = (
  split-sep b' ' (codes "select-layout") _ (omega arith)
      ∙ ap (◌∷◌ (codes "select-layout")) (
          split-sep b' ' (codes "-t") _ (omega arith)
          ∙ ap (◌∷◌ (codes "-t")) (
              split-sep b' ' (show_window window) _
                (graphic-Lacks (show_window window) (show_window-IsGraphic window))
              ∙ ap (◌∷◌ (show_window window)) (
                  split-Lacks b' ' (to_layout_string layout) (
                    graphic-Lacks (to_layout_string layout) (to_layout_string-IsGraphic layout))))),
  parse-to_layout_string layout fits deep,
)
