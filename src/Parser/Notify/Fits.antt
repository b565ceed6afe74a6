-- ===== src/Parser/Notify/Fits.antt =====
-- src/parser.rs, src/notification.rs: the notifications of text lines and the machine types of their
-- fields.
use tmuxctl.Base.{
  String, ℕ, ◌<◌, ◌≡◌, refl, Option, none, some, List, [], ◌∷◌, arith, Text, Bytes, All, ◌>>=◌,
  unwrap_or, codes, text_eq, Holds, Holds-bind, Holds-then, Holds-map, Holds-if,
}
use tmuxctl.Text.Split.{split, split_once, strip_prefix}
use tmuxctl.Text.Number.{u32_bound, u64_bound, parse_uint}
use tmuxctl.Text.Number.RoundTrip.{parse_uint_iff}
use tmuxctl.Ids.{PaneId, WindowId, SessionId, pane_number, window_number, session_number}
use tmuxctl.Layout.{Layout}
use tmuxctl.Layout.Parse.{Parsed}
use tmuxctl.Layout.Parse as LayoutParse
use tmuxctl.Layout.Parse.Sound.{Ends, WellFormed, parse_sound}
use tmuxctl.Notification.{Notification}
use tmuxctl.Parser.Notify.{
  id_number, pane_id, window_id, session_id, first_pane, first_window, first_part, layout_of,
  visible_part, layout_change_parts, parse_layout_change, parse_window_pane_changed,
  parse_session_window_changed, parse_client_session_changed, parse_id_name, parse_subscription,
  parse_kind, parse_rest, parse_notification, keyword,
}

abbrev pub IsBytes : Bytes → Type 0
IsBytes = All (λ c. c < 256)

-- The identifiers are `u32`, the age is a `u64`, a payload is bytes, and a layout is within its types
-- and the depth limit.
abbrev pub NotificationFits : Notification → Type 0
NotificationFits (Notification.output p bytes) = (pane_number p < u32_bound) × IsBytes bytes
NotificationFits (Notification.extended_output p ms_behind bytes) =
    (pane_number p < u32_bound) × (ms_behind < u64_bound) × IsBytes bytes
NotificationFits (Notification.layout_change w l visible_layout flags) =
    (window_number w < u32_bound) × WellFormed l × Holds WellFormed visible_layout
NotificationFits (Notification.window_add w) = window_number w < u32_bound
NotificationFits (Notification.window_close w) = window_number w < u32_bound
NotificationFits (Notification.window_renamed w name) = window_number w < u32_bound
NotificationFits (Notification.window_pane_changed w p) =
    (window_number w < u32_bound) × (pane_number p < u32_bound)
NotificationFits (Notification.unlinked_window_add w) = window_number w < u32_bound
NotificationFits (Notification.unlinked_window_close w) = window_number w < u32_bound
NotificationFits (Notification.unlinked_window_renamed w name) = window_number w < u32_bound
NotificationFits (Notification.session_changed s name) = session_number s < u32_bound
NotificationFits (Notification.session_renamed s name) = session_number s < u32_bound
NotificationFits (Notification.session_window_changed s w) =
    (session_number s < u32_bound) × (window_number w < u32_bound)
NotificationFits (Notification.client_session_changed client s name) = session_number s < u32_bound
NotificationFits Notification.sessions_changed = Unit
NotificationFits (Notification.pane_mode_changed p) = pane_number p < u32_bound
NotificationFits (Notification.pause p) = pane_number p < u32_bound
NotificationFits (Notification.continue p) = pane_number p < u32_bound
NotificationFits (Notification.subscription_changed name value) = Unit
NotificationFits (Notification.exit reason) = Unit
NotificationFits (Notification.unknown line) = Unit

pub parse_uint-Fits :
    (bound : ℕ) (s : Text) → 0 < bound → Holds (λ n. n < bound) (parse_uint bound s)
parse_uint-Fits bound s h = read (parse_uint bound s) refl
  where
    read : (o : Option ℕ) → parse_uint bound s ≡ o → Holds (λ n. n < bound) o
    read none e = tt
    read (some n) e = ((parse_uint_iff bound s n h).0 e).1

id_number-Fits : (sigil : ℕ) (token : Text) → Holds (λ n. n < u32_bound) (id_number sigil token)
unfolding id_number
id_number-Fits sigil token =
    Holds-then (λ n. n < u32_bound) (strip_prefix (sigil ∷ []) token) _
      (λ digits. parse_uint-Fits u32_bound digits (omega arith))

pane_id-Fits : (token : Text) → Holds (λ p. pane_number p < u32_bound) (pane_id token)
unfolding pane_id
pane_id-Fits token =
    Holds-map (λ n. n < u32_bound) (λ p. pane_number p < u32_bound) PaneId.mk (id_number b'%' token)
      (id_number-Fits b'%' token) (λ n h. h)

window_id-Fits : (token : Text) → Holds (λ w. window_number w < u32_bound) (window_id token)
unfolding window_id
window_id-Fits token =
    Holds-map (λ n. n < u32_bound) (λ w. window_number w < u32_bound) WindowId.mk
      (id_number b'@' token) (id_number-Fits b'@' token) (λ n h. h)

session_id-Fits : (token : Text) → Holds (λ s. session_number s < u32_bound) (session_id token)
unfolding session_id
session_id-Fits token =
    Holds-map (λ n. n < u32_bound) (λ s. session_number s < u32_bound) SessionId.mk
      (id_number b'$' token) (id_number-Fits b'$' token) (λ n h. h)

first_pane-Fits : (args : Text) → Holds (λ p. pane_number p < u32_bound) (first_pane args)
unfolding first_pane
first_pane-Fits args =
    Holds-then (λ p. pane_number p < u32_bound) (first_part (split b' ' args)) _ pane_id-Fits

first_window-Fits : (args : Text) → Holds (λ w. window_number w < u32_bound) (first_window args)
unfolding first_window
first_window-Fits args =
    Holds-then (λ w. window_number w < u32_bound) (first_part (split b' ' args)) _ window_id-Fits

layout_of-Fits : (s : Text) → Holds WellFormed (layout_of s)
unfolding layout_of
layout_of-Fits s = accepted (LayoutParse.parse s) (parse_sound s)
  where
    accepted :
        (m : Parsed Layout)
        → Ends WellFormed m
        → Holds WellFormed
            (elim m [ Parsed.ok l ↦ some l | Parsed.err _ ↦ none | Parsed.out_of_fuel ↦ none ])
    accepted (Parsed.ok l) h = h
    accepted (Parsed.err e) h = tt
    accepted Parsed.out_of_fuel h = tt

layout_change_parts-Fits : (parts : List Text) → Holds NotificationFits (layout_change_parts parts)
unfolding layout_change_parts visible_part
layout_change_parts-Fits (win ∷ lay ∷ more) =
    Holds-bind (λ w. window_number w < u32_bound) NotificationFits (window_id win) _
      (window_id-Fits win)
      λ w hw. Holds-bind WellFormed NotificationFits (layout_of lay) _ (layout_of-Fits lay) λ l hl.
        Holds-bind (Holds WellFormed) NotificationFits (visible_part more) _ (visible more)
          λ v hv. (hw, hl, hv)
  where
    visible : (parts : List Text) → Holds (Holds WellFormed) (visible_part parts)
    visible [] = tt
    visible (p ∷ ps) =
        Holds-map WellFormed (Holds WellFormed) some (layout_of p) (layout_of-Fits p) (λ l h. h)
layout_change_parts-Fits [] = tt
layout_change_parts-Fits (win ∷ []) = tt

parse_layout_change-Fits : (args : Text) → Holds NotificationFits (parse_layout_change args)
unfolding parse_layout_change
parse_layout_change-Fits args = layout_change_parts-Fits (split b' ' args)

parse_window_pane_changed-Fits :
    (args : Text) → Holds NotificationFits (parse_window_pane_changed args)
unfolding parse_window_pane_changed
parse_window_pane_changed-Fits args =
    Holds-then NotificationFits (split_once b' ' args) _ λ (window, pane).
      Holds-bind (λ w. window_number w < u32_bound) NotificationFits (window_id window) _
        (window_id-Fits window)
        λ w hw.
          Holds-bind (λ p. pane_number p < u32_bound) NotificationFits (pane_id pane) _
            (pane_id-Fits pane) λ p hp. (hw, hp)

parse_session_window_changed-Fits :
    (args : Text) → Holds NotificationFits (parse_session_window_changed args)
unfolding parse_session_window_changed
parse_session_window_changed-Fits args =
    Holds-then NotificationFits (split_once b' ' args) _ λ (session, window).
      Holds-bind (λ s. session_number s < u32_bound) NotificationFits (session_id session) _
        (session_id-Fits session)
        λ s hs.
          Holds-bind (λ w. window_number w < u32_bound) NotificationFits (window_id window) _
            (window_id-Fits window) λ w hw. (hs, hw)

parse_client_session_changed-Fits :
    (args : Text) → Holds NotificationFits (parse_client_session_changed args)
unfolding parse_client_session_changed
parse_client_session_changed-Fits args =
    Holds-then NotificationFits (split_once b' ' args) _ λ (client, rest).
      Holds-then NotificationFits (split_once b' ' rest) _ λ (session, name).
        Holds-bind (λ s. session_number s < u32_bound) NotificationFits (session_id session) _
          (session_id-Fits session) λ s hs. hs

parse_id_name-Fits :
    {I : Type 0} (P : I → Type 0) (args : Text) (parse_id : Text → Option I)
    (build : I → Text → Notification)
    → ((id : Text) → Holds P (parse_id id))
    → ((i : I) (name : Text) → P i → NotificationFits (build i name))
    → Holds NotificationFits (parse_id_name args parse_id build)
unfolding parse_id_name
parse_id_name-Fits P args parse_id build h k =
    Holds-then NotificationFits (split_once b' ' args) _
      λ (id, name). Holds-bind P NotificationFits (parse_id id) _ (h id) λ i p. k i name p

parse_subscription-Fits : (args : Text) → Holds NotificationFits (parse_subscription args)
unfolding parse_subscription
parse_subscription-Fits args =
    Holds-then NotificationFits (first_part (split b' ' args)) _ λ name. tt

-- Whatever the keyword: each branch of the `match` fits.
parse_kind-Fits : (kind args : Text) → Holds NotificationFits (parse_kind kind args)
unfolding parse_kind
parse_kind-Fits kind args =
    let is = λ (word : String). text_eq kind (codes word) in
    Holds-if NotificationFits (is "layout-change") _ _ (parse_layout_change-Fits args) (
      Holds-if NotificationFits (is "window-add") _ _
        (Holds-map (λ w. window_number w < u32_bound) NotificationFits Notification.window_add
          (first_window args) (first_window-Fits args) (λ i h. h))
        (Holds-if NotificationFits (is "window-close") _ _
          (Holds-map (λ w. window_number w < u32_bound) NotificationFits Notification.window_close
            (first_window args) (first_window-Fits args) (λ i h. h))
          (Holds-if NotificationFits (is "window-renamed") _ _
            (parse_id_name-Fits (λ w. window_number w < u32_bound) args window_id
              Notification.window_renamed window_id-Fits (λ i name h. h))
            (Holds-if NotificationFits (is "window-pane-changed") _ _
              (parse_window_pane_changed-Fits args)
              (Holds-if NotificationFits (is "unlinked-window-add") _ _
                (Holds-map (λ w. window_number w < u32_bound) NotificationFits
                  Notification.unlinked_window_add (first_window args) (first_window-Fits args)
                  (λ i h. h))
                (Holds-if NotificationFits (is "unlinked-window-close") _ _
                  (Holds-map (λ w. window_number w < u32_bound) NotificationFits
                    Notification.unlinked_window_close (first_window args) (first_window-Fits args)
                    (λ i h. h))
                  (Holds-if NotificationFits (is "unlinked-window-renamed") _ _
                    (parse_id_name-Fits (λ w. window_number w < u32_bound) args window_id
                      Notification.unlinked_window_renamed window_id-Fits (λ i name h. h))
                    (Holds-if NotificationFits (is "session-changed") _ _
                      (parse_id_name-Fits (λ s. session_number s < u32_bound) args session_id
                        Notification.session_changed session_id-Fits (λ i name h. h))
                      (Holds-if NotificationFits (is "session-renamed") _ _
                        (parse_id_name-Fits (λ s. session_number s < u32_bound) args session_id
                          Notification.session_renamed session_id-Fits (λ i name h. h))
                        (Holds-if NotificationFits (is "session-window-changed") _ _
                          (parse_session_window_changed-Fits args)
                          (Holds-if NotificationFits (is "client-session-changed") _ _
                            (parse_client_session_changed-Fits args)
                            (Holds-if NotificationFits (is "sessions-changed") _ _ tt (
                              Holds-if NotificationFits (is "pane-mode-changed") _ _
                                (Holds-map (λ p. pane_number p < u32_bound) NotificationFits
                                  Notification.pane_mode_changed (first_pane args)
                                  (first_pane-Fits args) (λ i h. h))
                                (Holds-if NotificationFits (is "pause") _ _
                                  (Holds-map (λ p. pane_number p < u32_bound) NotificationFits
                                    Notification.pause (first_pane args) (first_pane-Fits args)
                                    (λ i h. h))
                                  (Holds-if NotificationFits (is "continue") _ _
                                    (Holds-map (λ p. pane_number p < u32_bound) NotificationFits
                                      Notification.continue (first_pane args) (first_pane-Fits args)
                                      (λ i h. h))
                                    (Holds-if NotificationFits (is "subscription-changed") _ _
                                      (parse_subscription-Fits args)
                                      (Holds-if NotificationFits (is "exit") _ _ tt
                                        (tt))))))))))))))))))

pub unwrap_or-Fits :
    (m : Option Notification) (line : Text)
    → Holds NotificationFits m
    → NotificationFits (unwrap_or m (Notification.unknown line))
unwrap_or-Fits none line h = tt
unwrap_or-Fits (some n) line h = h

pub parse_notification-Fits : (line : Text) → NotificationFits (parse_notification line)
unfolding parse_notification parse_rest
parse_notification-Fits line =
    unwrap_or-Fits (strip_prefix (b'%' ∷ []) line >>= λ rest. parse_rest rest) line (
      Holds-then NotificationFits (strip_prefix (b'%' ∷ []) line) _
        λ rest. parse_kind-Fits (keyword rest).0 (keyword rest).1)
