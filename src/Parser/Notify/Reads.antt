-- ===== src/Parser/Notify/Reads.antt =====
-- src/parser.rs and src/notification.rs: each documented text notification line is read as its
-- notification.
use tmuxctl.Base.{
  ◌≡◌, refl, Option, some, ◌∷◌, ◌++◌, append_assoc, append-nil, Text, All-append, Lacks, arith,
  codes,
}
use tmuxctl.Text.Split.{split_once, strip_prefix, trim}
use tmuxctl.Text.Split.Laws.{split-sep, split-Lacks, split_once-sep}
use tmuxctl.Ids.{PaneId, WindowId, SessionId, show_pane, show_window, show_session}
use tmuxctl.Layout.{Layout}
use tmuxctl.Layout.Parse as LayoutParse
use tmuxctl.Layout.Parse.{Parsed}
use tmuxctl.Notification.{Notification, WindowFlags}
use tmuxctl.Parser.Notify.{
  window_id, session_id, layout_of, parse_layout_change, parse_window_pane_changed,
  parse_session_window_changed, parse_client_session_changed, parse_id_name, parse_subscription,
  optional_reason, parse_notification,
}
use tmuxctl.Parser.Notify.Flags.{parse_window_flags_lem}
use tmuxctl.Parser.Notify.Tokens.{
  pane_id-show, window_id-show, session_id-show, show_window-Lacks, show_session-Lacks,
  first_window-Ends, first_pane-Ends, split_once_text-colon,
}
use tmuxctl.Parser.Notify.Wire.{
  IsPane, IsWindow, IsSession, LayoutField, MoreFields, no_more, visible, visible_flags, WireLine,
  layout_change, window_add, window_close, window_renamed, window_pane_changed, unlinked_window_add,
  unlinked_window_close, unlinked_window_renamed, session_changed, session_renamed,
  session_window_changed, client_session_changed, sessions_changed, pane_mode_changed, pause,
  continue, subscription_changed, exit, exit_reason,
}

layout_of-ok : (t : Text) {l : Layout} → LayoutParse.parse t ≡ Parsed.ok l → layout_of t ≡ some l
unfolding layout_of
layout_of-ok t h = rw (h, layout_of)

parse_id_name-show :
    {I : Type 0} (token name : Text) (i : I) (parse_id : Text → Option I)
    (build : I → Text → Notification)
    → Lacks b' ' token
    → parse_id token ≡ some i
    → parse_id_name (token ++ b' ' ∷ name) parse_id build ≡ some (build i name)
unfolding parse_id_name
parse_id_name-show token name i parse_id build h e = rw (split_once-sep b' ' token name h, e)

layout_change-wire :
    (w : WindowId) (l : Layout) (lay more : Text) {v : Option Layout} {f : Option WindowFlags}
    → IsWindow w
    → LayoutField lay l
    → MoreFields more v f
    → parse_layout_change (show_window w ++ b' ' ∷ (lay ++ more))
      ≡ some (Notification.layout_change w l v f)
unfolding parse_layout_change
layout_change-wire w l lay more hw (hl, el) no_more = rw (
  append-nil,
  split-sep b' ' (show_window w) lay (show_window-Lacks w),
  split-Lacks b' ' lay hl,
  window_id-show w hw,
  layout_of-ok lay el,
)
layout_change-wire w l lay more hw (hl, el) (visible t v (ht, et)) = rw (
  split-sep b' ' (show_window w) (lay ++ b' ' ∷ t) (show_window-Lacks w),
  split-sep b' ' lay t hl,
  split-Lacks b' ' t ht,
  window_id-show w hw,
  layout_of-ok lay el,
  layout_of-ok t et,
)
layout_change-wire w l lay more hw (hl, el) (visible_flags t v f (ht, et) hf) = rw (
  split-sep b' ' (show_window w) (lay ++ b' ' ∷ (t ++ b' ' ∷ f)) (show_window-Lacks w),
  split-sep b' ' lay (t ++ b' ' ∷ f) hl,
  split-sep b' ' t f ht,
  split-Lacks b' ' f hf,
  window_id-show w hw,
  layout_of-ok lay el,
  layout_of-ok t et,
  parse_window_flags_lem f,
)

window_pane-wire :
    (w : WindowId) (p : PaneId)
    → IsWindow w
    → IsPane p
    → parse_window_pane_changed (show_window w ++ b' ' ∷ show_pane p)
      ≡ some (Notification.window_pane_changed w p)
unfolding parse_window_pane_changed
window_pane-wire w p hw hp = rw (
  split_once-sep b' ' (show_window w) (show_pane p) (show_window-Lacks w),
  window_id-show w hw,
  pane_id-show p hp,
)

session_window-wire :
    (s : SessionId) (w : WindowId)
    → IsSession s
    → IsWindow w
    → parse_session_window_changed (show_session s ++ b' ' ∷ show_window w)
      ≡ some (Notification.session_window_changed s w)
unfolding parse_session_window_changed
session_window-wire s w hs hw = rw (
  split_once-sep b' ' (show_session s) (show_window w) (show_session-Lacks s),
  session_id-show s hs,
  window_id-show w hw,
)

client_session-wire :
    (client : Text) (s : SessionId) (name : Text)
    → Lacks b' ' client
    → IsSession s
    → parse_client_session_changed (client ++ b' ' ∷ (show_session s ++ b' ' ∷ name))
      ≡ some (Notification.client_session_changed client s name)
unfolding parse_client_session_changed
client_session-wire client s name hc hs = rw (
  split_once-sep b' ' client (show_session s ++ b' ' ∷ name) hc,
  split_once-sep b' ' (show_session s) name (show_session-Lacks s),
  session_id-show s hs,
)

subscription-wire :
    (name fields value : Text)
    → Lacks b' ' name
    → Lacks b':' name
    → Lacks b':' fields
    → parse_subscription (name ++ b' ' ∷ (fields ++ (codes " : " ++ value)))
      ≡ some (Notification.subscription_changed name value)
unfolding parse_subscription
subscription-wire name fields value hn hn' hf =
    let head = name ++ b' ' ∷ fields in
    let whole = append_assoc name (b' ' ∷ fields) (codes " : " ++ value) in
    let found =
      split_once_text-colon head value (All-append _ name (b' ' ∷ fields) hn' (omega arith, hf)) in
    rw (split-sep b' ' name (fields ++ (codes " : " ++ value)) hn, rw whole at found)

-- Every line that stands for a notification is read as that notification: all the fields are
-- recovered, the names and values whole.
pub parse_notification-wire :
    {n : Notification} {line : Text} → WireLine n line → parse_notification line ≡ n
unfolding parse_notification strip_prefix split_once
parse_notification-wire (layout_change w l lay more hw hl m) =
    rw (layout_change-wire w l lay more hw hl m)
parse_notification-wire (window_add w tail h e) = rw (first_window-Ends w tail h e)
parse_notification-wire (window_close w tail h e) = rw (first_window-Ends w tail h e)
parse_notification-wire (window_renamed w name h) = rw (
    parse_id_name-show (show_window w) name w window_id Notification.window_renamed
      (show_window-Lacks w) (window_id-show w h))
parse_notification-wire (window_pane_changed w p hw hp) = rw (window_pane-wire w p hw hp)
parse_notification-wire (unlinked_window_add w tail h e) = rw (first_window-Ends w tail h e)
parse_notification-wire (unlinked_window_close w tail h e) = rw (first_window-Ends w tail h e)
parse_notification-wire (unlinked_window_renamed w name h) = rw (
    parse_id_name-show (show_window w) name w window_id Notification.unlinked_window_renamed
      (show_window-Lacks w) (window_id-show w h))
parse_notification-wire (session_changed s name h) = rw (
    parse_id_name-show (show_session s) name s session_id Notification.session_changed
      (show_session-Lacks s) (session_id-show s h))
parse_notification-wire (session_renamed s name h) = rw (
    parse_id_name-show (show_session s) name s session_id Notification.session_renamed
      (show_session-Lacks s) (session_id-show s h))
parse_notification-wire (session_window_changed s w hs hw) = rw (session_window-wire s w hs hw)
parse_notification-wire (client_session_changed client s name hc hs) =
    rw (client_session-wire client s name hc hs)
parse_notification-wire sessions_changed = refl
parse_notification-wire (pane_mode_changed p tail h e) = rw (first_pane-Ends p tail h e)
parse_notification-wire (pause p tail h e) = rw (first_pane-Ends p tail h e)
parse_notification-wire (continue p tail h e) = rw (first_pane-Ends p tail h e)
parse_notification-wire (subscription_changed name fields value hn hn' hf) =
    rw (subscription-wire name fields value hn hn' hf)
parse_notification-wire exit = unfold optional_reason trim in refl
parse_notification-wire (exit_reason c reason h) = unfold optional_reason in rw h
