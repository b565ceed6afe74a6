-- ===== src/Parser/Notify.antt =====
-- src/parser.rs: the notifications that are text, every `%` line but the two that carry output.
pub mod Tokens
pub mod Flags
pub mod Wire
pub mod Reads
pub mod Fits
use tmuxctl.Base.{
  ℕ, ◌≡◌, refl, Bool, true, Option, none, some, List, [], ◌∷◌, ◌++◌, Text, String, ◌==◌,
  if◌then◌else◌, ◌>>=◌, unwrap_or, codes, text_eq,
}
use mathlib.Core.Option
use tmuxctl.Text.Split.{split, split_once, split_once_text, strip_prefix, trim}
use tmuxctl.Text.Number.{u32_bound, parse_uint}
use tmuxctl.Ids.{PaneId, WindowId, SessionId}
use tmuxctl.Layout.{Layout}
use tmuxctl.Layout.Parse.{Parsed}
use tmuxctl.Layout.Parse as LayoutParse
use tmuxctl.Notification.{WindowFlags, no_flags, Notification}

-- `strip_prefix(sigil)?.parse().ok()` at `u32`
id_number : ℕ → Text → Option ℕ
id_number sigil token = do digits ← strip_prefix (sigil ∷ []) token; parse_uint u32_bound digits

unfoldable pub pane_id : Text → Option PaneId
unfolding id_number
pane_id token = Option.map PaneId.mk (id_number b'%' token)

unfoldable pub window_id : Text → Option WindowId
unfolding id_number
window_id token = Option.map WindowId.mk (id_number b'@' token)

unfoldable pub session_id : Text → Option SessionId
unfolding id_number
session_id token = Option.map SessionId.mk (id_number b'$' token)

-- `args.split(' ').next()?`
unfoldable pub first_part : List Text → Option Text
first_part [] = none
first_part (p ∷ ps) = some p

unfoldable pub first_pane : Text → Option PaneId
unfolding first_part
first_pane args = do token ← first_part (split b' ' args); pane_id token

unfoldable pub first_window : Text → Option WindowId
unfolding first_part
first_window args = do token ← first_part (split b' ' args); window_id token

-- `.ok()` of a parsed layout. The fuel of `Layout.parse` never runs out.
unfoldable pub layout_of : Text → Option Layout
layout_of s = elim (LayoutParse.parse s) [
  | Parsed.ok l ↦ some l
  | Parsed.err _ ↦ none
  | Parsed.out_of_fuel ↦ none
]

-- One round of `parse_window_flags`.
unfoldable pub set_flag : WindowFlags → ℕ → WindowFlags
set_flag flags ch =
    if ch == b'*'
    then record flags { current = true }
    else if ch == b'-'
    then record flags { last = true }
    else if ch == b'#'
    then record flags { activity = true }
    else if ch == b'!'
    then record flags { bell = true }
    else if ch == b'~'
    then record flags { silence = true }
    else if ch == b'M'
    then record flags { marked = true }
    else if ch == b'Z'
    then record flags { zoomed = true }
    else record flags { unknown = flags.unknown ++ ch ∷ [] }

unfoldable pub set_flags : WindowFlags → Text → WindowFlags
unfolding set_flag
set_flags flags [] = flags
set_flags flags (ch ∷ field) = set_flags (set_flag flags ch) field

unfoldable pub parse_window_flags : Text → WindowFlags
unfolding set_flags
parse_window_flags field = set_flags no_flags field

-- `parts.next().map(Layout::parse).transpose().ok()?`, then `parts.next().map(parse_window_flags)`
visible_part : List Text → Option (Option Layout)
visible_part [] = some none
visible_part (p ∷ ps) = Option.map some (layout_of p)

flags_part : List Text → Option WindowFlags
unfolding parse_window_flags
flags_part (v ∷ f ∷ ps) = some (parse_window_flags f)
flags_part _ = none

unfoldable pub layout_change_parts : List Text → Option Notification
unfolding visible_part flags_part
layout_change_parts (win ∷ lay ∷ more) = do
  window ← window_id win
  layout ← layout_of lay
  visible ← visible_part more
  some (Notification.layout_change window layout visible (flags_part more))
layout_change_parts _ = none

unfoldable pub parse_layout_change : Text → Option Notification
unfolding layout_change_parts
parse_layout_change args = layout_change_parts (split b' ' args)

unfoldable pub parse_window_pane_changed : Text → Option Notification
parse_window_pane_changed args = do
  (window, pane) ← split_once b' ' args
  w ← window_id window
  p ← pane_id pane
  some (Notification.window_pane_changed w p)

unfoldable pub parse_session_window_changed : Text → Option Notification
parse_session_window_changed args = do
  (session, window) ← split_once b' ' args
  s ← session_id session
  w ← window_id window
  some (Notification.session_window_changed s w)

unfoldable pub parse_client_session_changed : Text → Option Notification
parse_client_session_changed args = do
  (client, rest) ← split_once b' ' args
  (session, name) ← split_once b' ' rest
  s ← session_id session
  some (Notification.client_session_changed client s name)

unfoldable pub parse_id_name :
    {I : Type 0} → Text → (Text → Option I) → (I → Text → Notification) → Option Notification
parse_id_name args parse_id build = do
  (id, name) ← split_once b' ' args
  i ← parse_id id
  some (build i name)

unfoldable pub parse_subscription : Text → Option Notification
unfolding first_part
parse_subscription args = do
  name ← first_part (split b' ' args)
  let value = unwrap_or (Option.map (λ (_, v). v) (split_once_text (codes " : ") args)) []
  some (Notification.subscription_changed name value)

reason_of : Text → Option Text
reason_of [] = none
reason_of (c ∷ s) = some (c ∷ s)

unfoldable pub optional_reason : Text → Option Text
unfolding reason_of
optional_reason args = reason_of (trim args)

-- The `match` on the keyword.
unfoldable pub parse_kind : Text → Text → Option Notification
parse_kind kind args =
    let is = λ (word : String). text_eq kind (codes word) in
    if is "layout-change"
    then parse_layout_change args
    else if is "window-add"
    then Option.map Notification.window_add (first_window args)
    else if is "window-close"
    then Option.map Notification.window_close (first_window args)
    else if is "window-renamed"
    then parse_id_name args window_id Notification.window_renamed
    else if is "window-pane-changed"
    then parse_window_pane_changed args
    else if is "unlinked-window-add"
    then Option.map Notification.unlinked_window_add (first_window args)
    else if is "unlinked-window-close"
    then Option.map Notification.unlinked_window_close (first_window args)
    else if is "unlinked-window-renamed"
    then parse_id_name args window_id Notification.unlinked_window_renamed
    else if is "session-changed"
    then parse_id_name args session_id Notification.session_changed
    else if is "session-renamed"
    then parse_id_name args session_id Notification.session_renamed
    else if is "session-window-changed"
    then parse_session_window_changed args
    else if is "client-session-changed"
    then parse_client_session_changed args
    else if is "sessions-changed"
    then some Notification.sessions_changed
    else if is "pane-mode-changed"
    then Option.map Notification.pane_mode_changed (first_pane args)
    else if is "pause"
    then Option.map Notification.pause (first_pane args)
    else if is "continue"
    then Option.map Notification.continue (first_pane args)
    else if is "subscription-changed"
    then parse_subscription args
    else if is "exit"
    then some (Notification.exit (optional_reason args))
    else none

-- `rest.split_once(' ').unwrap_or((rest, ""))`
unfoldable pub keyword : Text → Text × Text
keyword rest = unwrap_or (split_once b' ' rest) (rest, [])

unfoldable pub parse_rest : Text → Option Notification
unfolding parse_kind keyword
parse_rest rest = let (kind, args) = keyword rest in parse_kind kind args

unfoldable pub parse_notification : Text → Notification
unfolding parse_rest
parse_notification line =
    unwrap_or (strip_prefix (b'%' ∷ []) line >>= λ rest. parse_rest rest)
      (Notification.unknown line)
