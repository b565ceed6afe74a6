-- ===== src/Ids.antt =====
-- src/ids.rs: the three wire identifiers, each a `u32` whose `Display` puts tmux's sigil in front.
use tmuxctl.Base.{ℕ, ◌∷◌, Text}
use tmuxctl.Text.Number.{decimal}

pub data PaneId : Type 0 where
  mk : ℕ → PaneId

pub data WindowId : Type 0 where
  mk : ℕ → WindowId

pub data SessionId : Type 0 where
  mk : ℕ → SessionId

abbrev pub pane_number : PaneId → ℕ
pane_number (PaneId.mk n) = n

abbrev pub window_number : WindowId → ℕ
window_number (WindowId.mk n) = n

abbrev pub session_number : SessionId → ℕ
session_number (SessionId.mk n) = n

-- `Display`
unfoldable pub show_pane : PaneId → Text
show_pane (PaneId.mk n) = b'%' ∷ decimal n

unfoldable pub show_window : WindowId → Text
show_window (WindowId.mk n) = b'@' ∷ decimal n

unfoldable pub show_session : SessionId → Text
show_session (SessionId.mk n) = b'$' ∷ decimal n
