-- ===== src/Notification.antt =====
-- src/notification.rs: the typed notification stream, one constructor for each `%` line.
use tmuxctl.Base.{ℕ, Bool, false, [], Option, Text, Bytes}
use tmuxctl.Ids.{PaneId, WindowId, SessionId}
use tmuxctl.Layout.{Layout}

pub record WindowFlags : Type 0 where
  pub current : Bool
  pub last : Bool
  pub activity : Bool
  pub bell : Bool
  pub silence : Bool
  pub marked : Bool
  pub zoomed : Bool
  pub unknown : Text

-- `WindowFlags::default()`
abbrev pub no_flags : WindowFlags
no_flags = record {
  current = false;
  last = false;
  activity = false;
  bell = false;
  silence = false;
  marked = false;
  zoomed = false;
  unknown = [];
}

pub data Notification : Type 0 where
  output : PaneId → (bytes : Bytes) → Notification
  extended_output : PaneId → (ms_behind : ℕ) → (bytes : Bytes) → Notification
  layout_change :
      WindowId
      → Layout
      → (visible_layout : Option Layout) → (flags : Option WindowFlags) → Notification
  window_add : WindowId → Notification
  window_close : WindowId → Notification
  window_renamed : WindowId → Text → Notification
  window_pane_changed : WindowId → PaneId → Notification
  unlinked_window_add : WindowId → Notification
  unlinked_window_close : WindowId → Notification
  unlinked_window_renamed : WindowId → Text → Notification
  session_changed : SessionId → Text → Notification
  session_renamed : SessionId → Text → Notification
  session_window_changed : SessionId → WindowId → Notification
  client_session_changed : (client : Text) → SessionId → (name : Text) → Notification
  sessions_changed : Notification
  pane_mode_changed : PaneId → Notification
  pause : PaneId → Notification
  continue : PaneId → Notification
  subscription_changed : (name value : Text) → Notification
  exit : Option Text → Notification
  unknown : Text → Notification
