-- ===== src/Parser/Notify/Wire.antt =====
-- src/notification.rs: the lines that stand for the text notifications, as tmux documents them.
use tmuxctl.Base.{ℕ, ◌<◌, ◌≡◌, Option, some, none, [], ◌∷◌, ◌++◌, Text, Lacks, codes}
use tmuxctl.Text.Split.{trim}
use tmuxctl.Text.Number.{u32_bound}
use tmuxctl.Ids.{
  PaneId, WindowId, SessionId, pane_number, window_number, session_number, show_pane, show_window,
  show_session,
}
use tmuxctl.Layout.{Layout}
use tmuxctl.Layout.Parse as LayoutParse
use tmuxctl.Layout.Parse.{Parsed}
use tmuxctl.Notification.{Notification, WindowFlags}
use tmuxctl.Parser.Notify.Flags.{flags_of}
use tmuxctl.Parser.Notify.Tokens.{Ends}

abbrev pub IsPane : PaneId → Type 0
IsPane p = pane_number p < u32_bound

abbrev pub IsWindow : WindowId → Type 0
IsWindow w = window_number w < u32_bound

abbrev pub IsSession : SessionId → Type 0
IsSession s = session_number s < u32_bound

-- A layout field: a text without spaces that the layout parser reads as the layout.
abbrev pub LayoutField : Text → Layout → Type 0
LayoutField t l = Lacks b' ' t × (LayoutParse.parse t ≡ Parsed.ok l)

-- The fields behind the layout of `%layout-change`: none, the visible layout, or that and flags.
pub data MoreFields : Text → Option Layout → Option WindowFlags → Type 0 where
  no_more : MoreFields [] none none
  visible : (t : Text) (l : Layout) → LayoutField t l → MoreFields (b' ' ∷ t) (some l) none
  visible_flags :
      (t : Text) (l : Layout) (f : Text)
      → LayoutField t l
      → Lacks b' ' f
      → MoreFields (b' ' ∷ (t ++ b' ' ∷ f)) (some l) (some (flags_of f))

-- The line that stands for a notification, as the comments of `notification.rs` give it. `tail` is
-- what a line may carry behind the field that is read.
pub data WireLine : Notification → Text → Type 0 where
  layout_change :
      (w : WindowId) (l : Layout) (lay more : Text) {v : Option Layout} {f : Option WindowFlags}
      → IsWindow w
      → LayoutField lay l
      → MoreFields more v f
      → WireLine
          (Notification.layout_change w l v f)
          (codes "%layout-change " ++ (show_window w ++ b' ' ∷ (lay ++ more)))
  window_add :
      (w : WindowId) (tail : Text)
      → IsWindow w
      → Ends tail
      → WireLine (Notification.window_add w) (codes "%window-add " ++ (show_window w ++ tail))
  window_close :
      (w : WindowId) (tail : Text)
      → IsWindow w
      → Ends tail
      → WireLine (Notification.window_close w) (codes "%window-close " ++ (show_window w ++ tail))
  window_renamed :
      (w : WindowId) (name : Text)
      → IsWindow w
      → WireLine
          (Notification.window_renamed w name)
          (codes "%window-renamed " ++ (show_window w ++ b' ' ∷ name))
  window_pane_changed :
      (w : WindowId) (p : PaneId)
      → IsWindow w
      → IsPane p
      → WireLine
          (Notification.window_pane_changed w p)
          (codes "%window-pane-changed " ++ (show_window w ++ b' ' ∷ show_pane p))
  unlinked_window_add :
      (w : WindowId) (tail : Text)
      → IsWindow w
      → Ends tail
      → WireLine
          (Notification.unlinked_window_add w)
          (codes "%unlinked-window-add " ++ (show_window w ++ tail))
  unlinked_window_close :
      (w : WindowId) (tail : Text)
      → IsWindow w
      → Ends tail
      → WireLine
          (Notification.unlinked_window_close w)
          (codes "%unlinked-window-close " ++ (show_window w ++ tail))
  unlinked_window_renamed :
      (w : WindowId) (name : Text)
      → IsWindow w
      → WireLine
          (Notification.unlinked_window_renamed w name)
          (codes "%unlinked-window-renamed " ++ (show_window w ++ b' ' ∷ name))
  session_changed :
      (s : SessionId) (name : Text)
      → IsSession s
      → WireLine
          (Notification.session_changed s name)
          (codes "%session-changed " ++ (show_session s ++ b' ' ∷ name))
  session_renamed :
      (s : SessionId) (name : Text)
      → IsSession s
      → WireLine
          (Notification.session_renamed s name)
          (codes "%session-renamed " ++ (show_session s ++ b' ' ∷ name))
  session_window_changed :
      (s : SessionId) (w : WindowId)
      → IsSession s
      → IsWindow w
      → WireLine
          (Notification.session_window_changed s w)
          (codes "%session-window-changed " ++ (show_session s ++ b' ' ∷ show_window w))
  client_session_changed :
      (client : Text) (s : SessionId) (name : Text)
      → Lacks b' ' client
      → IsSession s
      → WireLine
          (Notification.client_session_changed client s name)
          (codes "%client-session-changed " ++ (client ++ b' ' ∷ (show_session s ++ b' ' ∷ name)))
  sessions_changed : WireLine Notification.sessions_changed (codes "%sessions-changed")
  pane_mode_changed :
      (p : PaneId) (tail : Text)
      → IsPane p
      → Ends tail
      → WireLine
          (Notification.pane_mode_changed p)
          (codes "%pane-mode-changed " ++ (show_pane p ++ tail))
  pause :
      (p : PaneId) (tail : Text)
      → IsPane p
      → Ends tail
      → WireLine (Notification.pause p) (codes "%pause " ++ (show_pane p ++ tail))
  continue :
      (p : PaneId) (tail : Text)
      → IsPane p
      → Ends tail
      → WireLine (Notification.continue p) (codes "%continue " ++ (show_pane p ++ tail))
  subscription_changed :
      (name fields value : Text)
      → Lacks b' ' name
      → Lacks b':' name
      → Lacks b':' fields
      → WireLine
          (Notification.subscription_changed name value)
          (codes "%subscription-changed " ++ (name ++ b' ' ∷ (fields ++ (codes " : " ++ value))))
  exit : WireLine (Notification.exit none) (codes "%exit")
  exit_reason :
      (c : ℕ) (reason : Text)
      → trim (c ∷ reason) ≡ c ∷ reason
      → WireLine (Notification.exit (some (c ∷ reason))) (codes "%exit " ++ c ∷ reason)
