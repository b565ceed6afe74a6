-- ===== src/Examples/Text.antt =====
-- src/output.rs, src/layout.rs, src/parser.rs, src/commands.rs, src/spawn.rs: the theorems at
-- concrete inputs.
use tmuxctl.Base.{
  ℕ, zero, suc, ◌<◌, ◌≤◌, ◌≡◌, ◌↔◌, some, none, [], ◌∷◌, ◌++◌, arith, Bytes, All, codes, length,
  drop,
}
use tmuxctl.Text.Split.{split}
use tmuxctl.Output.{decode_output}
use tmuxctl.Output.Decodes.{
  Decodes, escape, decode_output_iff, decode_output-escape, decode_output_bounds,
}
use tmuxctl.Ids.{PaneId, WindowId, show_window}
use tmuxctl.Layout.Tree.{
  Layout, Layouts, leaf, split_h, split_v, nil, cons, render, hex4, to_layout_string,
}
use tmuxctl.Layout.Checksum.{checksum}
use tmuxctl.Layout.Parse.{ok, err, checksum_mismatch, too_deep, parse, max_layout_depth}
use tmuxctl.Layout.Parse.RoundTrip.{Fits, depth}
use tmuxctl.Layout.Parse.Wire.{parse-to_layout_string, parse-render, parse_corrupt}
use tmuxctl.Layout.Parse.Sound.{Ends, WellFormed, parse_sound, parse_again}
use tmuxctl.Layout.Parse.Deep.{parse_deep}
use tmuxctl.Commands.{select_layout}
use tmuxctl.Commands.Arguments.{select_layout_words}
use tmuxctl.Spawn.{SpawnOpts, set_socket, default, argv, take_option, argv_lem}

-- A backslash, an escape and a high byte.
abbrev payload : Bytes
payload = b'a' ∷ 92 ∷ b'0' ∷ b'3' ∷ b'3' ∷ 255 ∷ []

abbrev unescaped : Bytes
unescaped = b'a' ∷ 0x1b ∷ 255 ∷ []

decode_output_iff_example : (decode_output payload ≡ unescaped) ↔ Decodes payload unescaped
decode_output_iff_example = decode_output_iff payload unescaped

decode_output-escape_example : decode_output (escape unescaped) ≡ unescaped
decode_output-escape_example = decode_output-escape unescaped

decode_output_bounds_example :
    (length (decode_output payload) ≤ length payload) × All (λ c. c < 256) (decode_output payload)
decode_output_bounds_example = decode_output_bounds payload (omega arith)

-- Two panes side by side, the right one split in two.
abbrev panes : Layouts
panes =
    cons (leaf 79 48 0 0 (PaneId.mk 0))
      (cons (split_v 79 48 80 0 (cons (leaf 79 24 80 0 (PaneId.mk 1)) nil)) nil)

abbrev two_panes : Layout
two_panes = split_h 159 48 0 0 panes

two_panes-Fits : Fits two_panes
two_panes-Fits = (
  omega arith,
  (λ e. cc),
  ((omega arith, omega arith), ((omega arith, (λ e. cc), ((omega arith, omega arith), tt)), tt)),
)

two_panes-depth : depth two_panes ≤ max_layout_depth
two_panes-depth = omega arith

parse-to_layout_string_example : parse (to_layout_string two_panes) ≡ ok two_panes
parse-to_layout_string_example = parse-to_layout_string two_panes two_panes-Fits two_panes-depth

parse_corrupt_example :
    parse (hex4 (checksum (codes "80x2" ++ b'4' ∷ [])) ++ b',' ∷ (codes "80x2" ++ b'5' ∷ []))
    ≡ err (
        checksum_mismatch
          (checksum (codes "80x2" ++ b'5' ∷ []))
          (checksum (codes "80x2" ++ b'4' ∷ [])))
parse_corrupt_example =
    parse_corrupt (codes "80x2") [] b'4' b'5' (omega arith) (omega arith) (omega arith)

parse_sound_example : Ends WellFormed (parse (codes "bb62,80x24,0,0,0"))
parse_sound_example = parse_sound (codes "bb62,80x24,0,0,0")

parse_again_example :
    (parse (render two_panes) ≡ ok two_panes) × (parse (to_layout_string two_panes) ≡ ok two_panes)
parse_again_example =
    parse_again (render two_panes) two_panes (parse-render two_panes two_panes-Fits two_panes-depth)

-- Splits nested around a pane.
abbrev nested : ℕ → Layout
nested zero = leaf 1 1 0 0 (PaneId.mk 0)
nested (suc n) = split_h 1 1 0 0 (cons (nested n) nil)

nested-Fits : (n : ℕ) → Fits (nested n)
nested-Fits zero = omega arith
nested-Fits (suc n) = (omega arith, (λ e. cc), (nested-Fits n, tt))

parse_deep_example :
    (parse (render (nested 129)) ≡ err too_deep)
    × (parse (to_layout_string (nested 129)) ≡ err too_deep)
parse_deep_example = parse_deep (nested 129) (nested-Fits 129) (omega arith)

select_layout_words_example :
    (split b' ' (select_layout (WindowId.mk 2) two_panes)
      ≡ codes "select-layout"
        ∷ codes "-t"
        ∷ show_window (WindowId.mk 2)
        ∷ to_layout_string two_panes
        ∷ [])
    × (parse (to_layout_string two_panes) ≡ ok two_panes)
select_layout_words_example =
    select_layout_words (WindowId.mk 2) two_panes two_panes-Fits two_panes-depth

abbrev test_opts : SpawnOpts
test_opts = set_socket (codes "-s") default

argv_lem_example :
    let (socket, words) = take_option (codes "-L") (argv test_opts) in
    let (session, rest) = take_option (codes "-s") (drop 3 words) in
    (socket ≡ some (codes "-s"))
    × (session ≡ none)
    × (rest ≡ [])
    × (words ≡ codes "-C" ∷ codes "new-session" ∷ codes "-A" ∷ drop 3 words)
argv_lem_example = argv_lem test_opts
