-- ===== src/Driver/Contract/Block.antt =====
-- The contract and a reply block: its lines go to the caller that has waited longest.
use tmuxctl.Base.{
  ℕ, ◌<◌, ◌≡◌, ◌≢◌, refl, ap, ◌∙◌, Bool, true, false, not, List, [], ◌∷◌, ◌++◌, map, arith, Bytes,
  ◌==◌, All, All-append, Lacks, if◌then◌else◌,
}
use tmuxctl.Text.Utf8.{from_utf8_lossy}
use tmuxctl.Text.Number.{u32_bound, u64_bound}
use tmuxctl.Parser.Guard.{begin, end, error}
use tmuxctl.Parser.Guard.Print.{guard_line, guard_line-newline}
use tmuxctl.Parser.Frame.{Parser, Event}
use tmuxctl.Parser.Frame
use tmuxctl.Parser.Frame.Blocks.{push_all, block_reply, IsContent, push_all-block}
use tmuxctl.Engine.{CommandResult, failed, newline, result_of}
use tmuxctl.Engine.Framing.{split_lines}
use tmuxctl.Engine.Answers.{unlines, split_lines-unlines}
use tmuxctl.Driver.Blocking.{Sender, Effect, sent}
use tmuxctl.Driver.Contract.{Contract, receive, surface, serve, take_lines, react}
use tmuxctl.Driver.Contract.Stream.{surface_all, take_lines-push_all}

-- A reply block as tmux writes it: `%error` closes the one of a command that failed.
abbrev pub block : (ts n flags ts' n' flags' : ℕ) → List Bytes → Bool → Bytes
block ts n flags ts' n' flags' content failing = unlines (
    guard_line begin ts n flags
    ∷ (content ++ guard_line (if failing then error else end) ts' n' flags' ∷ []))

abbrev pub outcome : List Bytes → Bool → CommandResult
outcome content failing =
    if failing
    then CommandResult.err (failed (map from_utf8_lossy content))
    else CommandResult.ok (map from_utf8_lossy content)

-- Whole lines, received between lines.
receive_lines :
    (c : Contract) (input : Bytes) (ls : List Bytes) {p : Parser} {queue : List Sender}
    {out : List Effect}
    → c.partial ≡ []
    → split_lines input ≡ (ls, [])
    → take_lines ls c.parser c.queue ≡ ((p, queue), out)
    → react c (receive input) ≡ (record c { parser = p; partial = []; queue = queue }, out)
unfolding react
receive_lines c input ls between lines taken = rw (between, lines, taken) refl

module _ (ts n flags ts' n' flags' : ℕ) (content : List Bytes) (failing : Bool) (hn : n < u64_bound)
    (hf : flags < u32_bound) (hn' : n' < u64_bound) (hf' : flags' < u32_bound) (marked : flags ≢ 0)
    (hc : All IsContent content) (hl : All (Lacks newline) content) where
  block-lines : split_lines (block ts n flags ts' n' flags' content failing) ≡ (
    guard_line begin ts n flags
        ∷ (content ++ guard_line (if failing then error else end) ts' n' flags' ∷ []),
    [],
  )
  block-lines = split_lines-unlines _ (
    guard_line-newline begin ts n flags,
    All-append (Lacks newline) content _ hl
        (guard_line-newline (if failing then error else end) ts' n' flags', tt),
  )

  block-events :
      (failing : Bool)
      → push_all Frame.new (
          guard_line begin ts n flags
          ∷ (content ++ guard_line (if failing then error else end) ts' n' flags' ∷ []))
        ≡ (Frame.new, Event.reply (block_reply n flags content failing) ∷ [])
  block-events false = (push_all-block ts n flags ts' n' flags' hn hf hn' hf' content hc).0
  block-events true = (push_all-block ts n flags ts' n' flags' hn hf hn' hf' content hc).1

  block-served :
      (failing : Bool) (first : Sender) (waiting : List Sender)
      → surface_all (Event.reply (block_reply n flags content failing) ∷ []) (first ∷ waiting)
        ≡ (waiting, sent first (outcome content failing) ∷ [])
  unfolding surface_all surface serve result_of
  block-served failing first waiting =
      let control : not (flags == 0) ≡ true = ground arith in rw control refl

  -- Between lines and outside a block, a block with a control mark is the result of the caller that
  -- has waited longest.
  pub react-block :
      (c : Contract) (first : Sender) (waiting : List Sender)
      → c.parser ≡ Frame.new
      → c.partial ≡ []
      → c.queue ≡ first ∷ waiting
      → react c (receive (block ts n flags ts' n' flags' content failing))
        ≡ (record c { queue = waiting }, sent first (outcome content failing) ∷ [])
  react-block c first waiting top between served =
      let taken : take_lines
            (guard_line begin ts n flags
              ∷ (content ++ guard_line (if failing then error else end) ts' n' flags' ∷ []))
            c.parser c.queue
          ≡ ((Frame.new, waiting), sent first (outcome content failing) ∷ []) =
        rw (top, served)
          (take_lines-push_all _ Frame.new (first ∷ waiting)
            ∙ rw (block-events failing, block-served failing first waiting) refl) in
      receive_lines c _ _ between block-lines taken
      ∙ ap
          (λ (x : Parser × Bytes). (
            record c { parser = x.0; partial = x.1; queue = waiting },
            sent first (outcome content failing) ∷ [],
          ))
          (rw (top, between) refl)
