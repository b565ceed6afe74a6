-- ===== src/Parser/Payload/Fits.antt =====
-- src/parser.rs: the machine types of what the byte path reports.
use tmuxctl.Base.{
  ℕ, zero, suc, ◌+◌, ◌<◌, Option, none, some, [], ◌∷◌, arith, Bytes, Bool-cases, inl, inr, ◌==◌,
  take, drop, unwrap_or, codes, Holds, Holds-bind, Holds-then,
}
use tmuxctl.Text.Split.{strip_prefix, position}
use tmuxctl.Text.Utf8.{from_utf8, from_utf8_lossy}
use tmuxctl.Text.Number.{u32_bound, u64_bound, parse_uint}
use tmuxctl.Ids.{PaneId, pane_number}
use tmuxctl.Notification.{Notification}
use tmuxctl.Output.Decodes.{decode_output_bounds}
use tmuxctl.Parser.Notify.Fits.{IsBytes, NotificationFits, parse_uint-Fits, unwrap_or-Fits}
use tmuxctl.Parser.Payload.{
  pane_id_bytes, pane_and_data, parse_output, find_subslice, parse_extended_output,
  parse_output_line,
}

drop-IsBytes : (n : ℕ) (s : Bytes) → IsBytes s → IsBytes (drop n s)
drop-IsBytes zero s h = h
drop-IsBytes (suc n) [] h = tt
drop-IsBytes (suc n) (c ∷ s) (_, h) = drop-IsBytes n s h

strip_prefix-IsBytes : (p s : Bytes) → IsBytes s → Holds IsBytes (strip_prefix p s)
unfolding strip_prefix
strip_prefix-IsBytes [] s h = h
strip_prefix-IsBytes (p ∷ ps) [] h = tt
strip_prefix-IsBytes (p ∷ ps) (c ∷ s) (_, h) = elim (Bool-cases (p == c)) [
  | inl same ↦ simp same (strip_prefix-IsBytes ps s h)
  | inr other ↦ simp other tt
]

pane_id_bytes-Fits : (token : Bytes) → Holds (λ p. pane_number p < u32_bound) (pane_id_bytes token)
unfolding pane_id_bytes
pane_id_bytes-Fits token =
    let Q = λ (p : PaneId). pane_number p < u32_bound in
    Holds-then Q (strip_prefix (b'%' ∷ []) token) _ λ digits.
      Holds-then Q (from_utf8 digits) _ λ text.
        Holds-bind (λ n. n < u32_bound) Q (parse_uint u32_bound text) _
          (parse_uint-Fits u32_bound text (omega arith)) λ n h. h

data-IsBytes :
    (rest : Bytes) (space : Option ℕ) → IsBytes rest → IsBytes (pane_and_data rest space).1
unfolding pane_and_data
data-IsBytes rest (some sp) h = drop-IsBytes (suc sp) rest h
data-IsBytes rest none h = tt

parse_output-Fits : (rest : Bytes) → IsBytes rest → Holds NotificationFits (parse_output rest)
unfolding parse_output
parse_output-Fits rest h =
    let (pane, payload) = pane_and_data rest (position b' ' rest) in
    Holds-bind (λ p. pane_number p < u32_bound) NotificationFits (pane_id_bytes pane) _
      (pane_id_bytes-Fits pane)
      λ p fits. (fits, (decode_output_bounds payload (data-IsBytes rest (position b' ' rest) h)).1)

parse_extended_output-Fits :
    (rest : Bytes) → IsBytes rest → Holds NotificationFits (parse_extended_output rest)
unfolding parse_extended_output
parse_extended_output-Fits rest h = Holds-then NotificationFits (position b' ' rest) _ λ space.
    Holds-bind (λ p. pane_number p < u32_bound) NotificationFits (pane_id_bytes (take space rest)) _
      (pane_id_bytes-Fits (take space rest))
      λ pane fits.
        let tail = drop (suc space) rest in
        Holds-then NotificationFits (find_subslice tail (codes " : ")) _ λ sep.
          Holds-then NotificationFits (from_utf8 (take sep tail)) _ λ text.
            Holds-bind (λ n. n < u64_bound) NotificationFits (parse_uint u64_bound text) _
              (parse_uint-Fits u64_bound text (omega arith))
              λ ms_behind small. (
                fits,
                small,
                (decode_output_bounds (drop (sep + 3) tail)
                    (drop-IsBytes (sep + 3) tail (drop-IsBytes (suc space) rest h))).1,
              )

pub parse_output_line-Fits :
    (line : Bytes) → IsBytes line → Holds NotificationFits (parse_output_line line)
unfolding parse_output_line
parse_output_line-Fits line h =
    plain (strip_prefix (codes "%output ") line) (strip_prefix-IsBytes (codes "%output ") line h)
  where
    unparsed : Notification
    unparsed = Notification.unknown (from_utf8_lossy line)

    extended :
        (o : Option Bytes)
        → Holds IsBytes o
        → Holds NotificationFits (elim o [
          | some rest ↦ some (unwrap_or (parse_extended_output rest) unparsed)
          | none ↦ none
        ])
    extended none bytes = tt
    extended (some rest) bytes =
        unwrap_or-Fits (parse_extended_output rest) (from_utf8_lossy line)
          (parse_extended_output-Fits rest bytes)

    plain :
        (o : Option Bytes)
        → Holds IsBytes o
        → Holds NotificationFits (elim o [
          | some rest ↦ some (unwrap_or (parse_output rest) unparsed)
          | none ↦ elim (strip_prefix (codes "%extended-output ") line) [
            | some rest ↦ some (unwrap_or (parse_extended_output rest) unparsed)
            | none ↦ none
          ]
        ])
    plain none bytes =
        extended (strip_prefix (codes "%extended-output ") line)
          (strip_prefix-IsBytes (codes "%extended-output ") line h)
    plain (some rest) bytes =
        unwrap_or-Fits (parse_output rest) (from_utf8_lossy line) (parse_output-Fits rest bytes)
