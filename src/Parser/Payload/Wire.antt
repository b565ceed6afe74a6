-- ===== src/Parser/Payload/Wire.antt =====
-- src/parser.rs: the output lines that tmux writes are read back, byte for byte.
use tmuxctl.Base.{
  ℕ, suc, ◌+◌, ◌<◌, ◌≡◌, refl, some, [], ◌∷◌, ◌++◌, Bytes, All-map, arith, codes, drop, length,
  take-append,
}
use tmuxctl.Text.Split.{strip_prefix}
use tmuxctl.Text.Split.Laws.{position-sep, position_of-Lacks}
use tmuxctl.Text.Number.{u32_bound, u64_bound, decimal}
use tmuxctl.Text.Number.RoundTrip.{decimal-digits, decimal-Lacks, parse_uint-decimal}
use tmuxctl.Text.Utf8.{from_utf8}
use tmuxctl.Text.Utf8.RoundTrip.{from_utf8_ascii}
use tmuxctl.Ids.{PaneId, pane_number, show_pane}
use tmuxctl.Output.{decode_output}
use tmuxctl.Output.Decodes.{escape, decode_output-escape}
use tmuxctl.Notification.{Notification}
use tmuxctl.Parser.Notify.Tokens.{show_pane-Lacks}
use tmuxctl.Parser.Payload.{pane_id_bytes, parse_output, parse_extended_output, parse_output_line}

numeral_bytes : (n : ℕ) → from_utf8 (decimal n) ≡ some (decimal n)
numeral_bytes n =
    from_utf8_ascii (decimal n) (All-map (λ c d. omega arith) (decimal n) (decimal-digits n))

pub pane_id_bytes-show :
    (p : PaneId) → pane_number p < u32_bound → pane_id_bytes (show_pane p) ≡ some p
unfolding pane_id_bytes show_pane strip_prefix
pane_id_bytes-show (PaneId.mk n) h = rw (numeral_bytes n, parse_uint-decimal u32_bound n h)

drop-suc : (p : Bytes) (c : ℕ) (s : Bytes) → drop (suc (length p)) (p ++ c ∷ s) ≡ s
drop-suc [] c s = refl
drop-suc (d ∷ p) c s = drop-suc p c s

parse_output-wire :
    (p : PaneId) (payload : Bytes)
    → pane_number p < u32_bound
    → parse_output (show_pane p ++ b' ' ∷ payload)
      ≡ some (Notification.output p (decode_output payload))
unfolding parse_output
parse_output-wire p payload h = rw (
  position-sep b' ' (show_pane p) payload (show_pane-Lacks p),
  parse_output,
  take-append,
  drop-suc,
  pane_id_bytes-show p h,
)

drop-three : (p : Bytes) (c d e : ℕ) (s : Bytes) → drop (length p + 3) (p ++ c ∷ d ∷ e ∷ s) ≡ s
drop-three [] c d e s = refl
drop-three (x ∷ p) c d e s =
    let shift : suc (length p) + 3 ≡ suc (length p + 3) = omega arith in
    rw shift (drop-three p c d e s)

parse_extended_output-wire :
    (p : PaneId) (ms : ℕ) (payload : Bytes)
    → pane_number p < u32_bound
    → ms < u64_bound
    → parse_extended_output (show_pane p ++ b' ' ∷ (decimal ms ++ (codes " : " ++ payload)))
      ≡ some (Notification.extended_output p ms (decode_output payload))
unfolding parse_extended_output
parse_extended_output-wire p ms payload h hm =
    rw
      (
        position-sep b' ' (show_pane p) _ (show_pane-Lacks p),
        take-append,
        drop-suc,
        pane_id_bytes-show p h,
      )
      (rw (
        position_of-Lacks b' ' (codes ": ") (decimal ms) payload
            (decimal-Lacks b' ' ms (λ d. omega arith)),
        take-append,
        numeral_bytes ms,
        parse_uint-decimal u64_bound ms hm,
        drop-three (decimal ms) b' ' b':' b' ' payload,
      ))

-- An `%output` line, its payload escaped as tmux escapes it, is read as the pane and the very bytes
-- that were written, whatever bytes they are.
pub parse_output_line-output :
    (p : PaneId) (bytes : Bytes)
    → pane_number p < u32_bound
    → parse_output_line (codes "%output " ++ (show_pane p ++ b' ' ∷ escape bytes))
      ≡ some (Notification.output p bytes)
unfolding parse_output_line strip_prefix
parse_output_line-output p bytes h =
    rw (parse_output-wire p (escape bytes) h, decode_output-escape bytes)

-- So is an `%extended-output` line, with its age in milliseconds.
pub parse_output_line-extended :
    (p : PaneId) (ms : ℕ) (bytes : Bytes)
    → pane_number p < u32_bound
    → ms < u64_bound
    → parse_output_line (
        codes "%extended-output "
        ++ (show_pane p ++ b' ' ∷ (decimal ms ++ (codes " : " ++ escape bytes))))
      ≡ some (Notification.extended_output p ms bytes)
unfolding parse_output_line strip_prefix
parse_output_line-extended p ms bytes h hm =
    rw (parse_extended_output-wire p ms (escape bytes) h hm, decode_output-escape bytes)
