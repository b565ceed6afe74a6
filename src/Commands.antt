-- ===== src/Commands.antt =====
-- src/commands.rs: the command strings that the drivers share.
pub mod Lines
pub mod Arguments
use tmuxctl.Base.{ℕ, ◌/◌, ◌%◌, ◌≡◌, refl, [], ◌∷◌, ◌++◌, Text, Bytes, codes}
use tmuxctl.Text.Number.{decimal}
use tmuxctl.Ids.{PaneId, WindowId, show_pane, show_window}
use tmuxctl.Layout.{Layout, to_layout_string}
use tmuxctl.Layout.Tree.{hex_digit}

-- `{byte:02x}`
unfoldable pub hex2 : ℕ → Text
hex2 byte = hex_digit (byte / 16) ∷ hex_digit (byte % 16) ∷ []

-- The loop of `send_keys`, which pushes a space and a byte for each key.
unfoldable pub hex_bytes : Bytes → Text
unfolding hex2
hex_bytes [] = []
hex_bytes (byte ∷ keys) = b' ' ∷ (hex2 byte ++ hex_bytes keys)

unfoldable pub send_keys : PaneId → Bytes → Text
send_keys pane keys = codes "send-keys -t " ++ (show_pane pane ++ (codes " -H" ++ hex_bytes keys))

unfoldable pub resize : ℕ → ℕ → Text
resize cols rows = codes "refresh-client -C " ++ (decimal cols ++ b'x' ∷ decimal rows)

unfoldable pub resize_window : WindowId → ℕ → ℕ → Text
resize_window window cols rows =
    codes "resize-window -t "
    ++ (show_window window ++ (codes " -x " ++ (decimal cols ++ (codes " -y " ++ decimal rows))))

unfoldable pub select_layout : WindowId → Layout → Text
select_layout window layout =
    codes "select-layout -t " ++ (show_window window ++ b' ' ∷ to_layout_string layout)

send_keys_esc :
    send_keys (PaneId.mk 1) (0x1b ∷ 0x5b ∷ 0x41 ∷ []) ≡ codes "send-keys -t %1 -H 1b 5b 41"
unfolding send_keys hex_bytes show_pane decimal hex_digit
send_keys_esc = refl

resize_window_80 : resize_window (WindowId.mk 2) 80 24 ≡ codes "resize-window -t @2 -x 80 -y 24"
unfolding resize_window show_window decimal
resize_window_80 = refl
