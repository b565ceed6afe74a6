-- ===== src/Parser/Payload.antt =====
-- src/parser.rs: the byte path, `%output` and `%extended-output`, whose payload need not be UTF-8.
pub mod Wire
pub mod Fits
use tmuxctl.Base.{
  ℕ, suc, ◌+◌, ◌≡◌, refl, Option, none, some, List, [], ◌∷◌, Text, Bytes, ◌==◌, if◌then◌else◌,
  ◌>>=◌, unwrap_or, codes, take, drop,
}
use mathlib.Core.Option
use tmuxctl.Text.Split.{strip_prefix, position, position_of}
use tmuxctl.Text.Number.{u32_bound, u64_bound, parse_uint}
use tmuxctl.Text.Utf8.{from_utf8, from_utf8_lossy}
use tmuxctl.Ids.{PaneId}
use tmuxctl.Output.{decode_output}
use tmuxctl.Notification.{Notification}

unfoldable pub pane_id_bytes : Bytes → Option PaneId
pane_id_bytes token = do
  digits ← strip_prefix (b'%' ∷ []) token
  text ← from_utf8 digits
  n ← parse_uint u32_bound text
  some (PaneId.mk n)

-- `(&rest[..sp], &rest[sp + 1..])`, or all and nothing where there is no space
pane_and_data : Bytes → Option ℕ → Bytes × Bytes
pane_and_data rest (some sp) = (take sp rest, drop (suc sp) rest)
pane_and_data rest none = (rest, [])

unfoldable pub parse_output : Bytes → Option Notification
unfolding pane_and_data
parse_output rest =
    let (pane, payload) = pane_and_data rest (position b' ' rest) in
    pane_id_bytes pane >>= λ p. some (Notification.output p (decode_output payload))

unfoldable pub find_subslice : Bytes → Bytes → Option ℕ
find_subslice haystack needle = position_of needle haystack

unfoldable pub parse_extended_output : Bytes → Option Notification
unfolding find_subslice
parse_extended_output rest = do
  space ← position b' ' rest
  pane ← pane_id_bytes (take space rest)
  let tail = drop (suc space) rest
  sep ← find_subslice tail (codes " : ")
  text ← from_utf8 (take sep tail)
  ms_behind ← parse_uint u64_bound text
  some (Notification.extended_output pane ms_behind (decode_output (drop (sep + 3) tail)))

-- `Some` for an output line, a malformed one included; `None` for any other.
unfoldable pub parse_output_line : Bytes → Option Notification
unfolding parse_output parse_extended_output
parse_output_line line =
    let unparsed = Notification.unknown (from_utf8_lossy line) in
    elim (strip_prefix (codes "%output ") line) [
      | some rest ↦ some (unwrap_or (parse_output rest) unparsed)
      | none ↦ elim (strip_prefix (codes "%extended-output ") line) [
        | some rest ↦ some (unwrap_or (parse_extended_output rest) unparsed)
        | none ↦ none
      ]
    ]
