-- ===== src/Engine/Answers.antt =====
-- src/engine.rs, src/parser.rs: the bytes of a reply block answer the command they belong to.
use tmuxctl.Base.{
  ℕ, ◌<◌, ◌≡◌, ◌≢◌, refl, sym, ap, ◌∙◌, true, false, not, Option, none, some, List, [], ◌∷◌, ◌++◌,
  map, arith, Bytes, ◌==◌, All, All-append, Lacks,
}
use tmuxctl.Text.Utf8.{from_utf8_lossy}
use tmuxctl.Text.Number.{u32_bound, u64_bound}
use tmuxctl.Parser.Guard.{GuardKind, begin, end, error}
use tmuxctl.Parser.Guard.Print.{guard_line, guard_line-newline}
use tmuxctl.Parser.Frame.{Parser, Event, Reply, push}
use tmuxctl.Parser.Frame
use tmuxctl.Parser.Frame.Blocks.{push_all, event_list, block_reply, IsContent, push_all-block}
use tmuxctl.Engine.{Engine, CommandId, CommandResult, failed, feed, newline, result_of}
use tmuxctl.Engine.Framing.{split_lines, split_lines-line}
use tmuxctl.Engine.Fifo.{
  replies, control_reply, control_replies, pair_up, left_over, pair_up-nil, left_over-nil,
  feed-pair_up,
}

-- The lines as tmux writes them.
abbrev pub unlines : List Bytes → Bytes
unlines [] = []
unlines (l ∷ ls) = l ++ newline ∷ unlines ls

pub split_lines-unlines :
    (ls : List Bytes) → All (Lacks newline) ls → split_lines (unlines ls) ≡ (ls, [])
unfolding split_lines
split_lines-unlines [] h = refl
split_lines-unlines (l ∷ ls) (hl, h) =
    split_lines-line l (unlines ls) hl ∙ rw (split_lines-unlines ls h) refl

abbrev controls : List Event → List Reply
controls [] = []
controls (e ∷ es) = control_reply (some e) ++ controls es

controls-event_list :
    (e : Option Event) (es : List Event)
    → controls (event_list e ++ es) ≡ control_reply e ++ controls es
controls-event_list none es = refl
controls-event_list (some e) es = refl

control_replies-push_all :
    (p : Parser) (ls : List Bytes) → control_replies p ls ≡ controls (push_all p ls).1
unfolding control_replies push_all
control_replies-push_all p [] = refl
control_replies-push_all p (l ∷ ls) =
    ap (◌++◌ (control_reply (push l p).1)) (control_replies-push_all (push l p).0 ls)
    ∙ sym (controls-event_list (push l p).1 (push_all (push l p).0 ls).1)

-- Lines that give one control reply answer the oldest command.
one_reply :
    (e : Engine) (id : CommandId) (waiting : List CommandId) (ls : List Bytes) (r : Reply)
    → e.parser ≡ Frame.new
    → e.buf ≡ []
    → e.pending ≡ id ∷ waiting
    → All (Lacks newline) ls
    → push_all Frame.new ls ≡ (Frame.new, Event.reply r ∷ [])
    → r.control ≡ true
    → (replies (feed e (unlines ls)).1 ≡ (id, result_of r) ∷ [])
      × ((feed e (unlines ls)).0.pending ≡ waiting)
unfolding pair_up left_over
one_reply e id waiting ls r hp hb hq hl hr hc =
    let lines : (split_lines (e.buf ++ unlines ls)).0 ≡ ls =
      ap (λ b. (split_lines (b ++ unlines ls)).0) hb ∙ ap (λ x. x.0) (split_lines-unlines ls hl) in
    let all : control_replies e.parser (split_lines (e.buf ++ unlines ls)).0 ≡ r ∷ [] =
      rw (lines, hp, control_replies-push_all Frame.new ls, hr, hc) refl in
    let (now, left) = feed-pair_up e (unlines ls) in
    (
      now ∙ rw (all, hq, pair_up) (ap (◌∷◌ (id, result_of r)) (pair_up-nil waiting)),
      left ∙ rw (all, hq, left_over) (left_over-nil waiting),
    )

-- The bytes of a reply block with a control mark answer the command that has waited longest, with
-- the content lines as text, in order: as its output where `%end` closes the block, and as its
-- failure where `%error` does. The other commands go on waiting. The engine is between lines and
-- outside a block, no content line reads as a guard, and the guards' fields fit their types.
pub feed_answers :
    (e : Engine) (id : CommandId) (waiting : List CommandId) (ts n flags ts' n' flags' : ℕ)
    (content : List Bytes)
    → n < u64_bound
    → flags < u32_bound
    → n' < u64_bound
    → flags' < u32_bound
    → flags ≢ 0
    → All IsContent content
    → All (Lacks newline) content
    → e.parser ≡ Frame.new
    → e.buf ≡ []
    → e.pending ≡ id ∷ waiting
    → let block = λ (k : GuardKind).
      unlines (guard_line begin ts n flags ∷ (content ++ guard_line k ts' n' flags' ∷ [])) in
      let output = map from_utf8_lossy content in
      (replies (feed e (block end)).1 ≡ (id, CommandResult.ok output) ∷ [])
      × ((feed e (block end)).0.pending ≡ waiting)
      × (replies (feed e (block error)).1 ≡ (id, CommandResult.err (failed output)) ∷ [])
      × ((feed e (block error)).0.pending ≡ waiting)
unfolding result_of
feed_answers e id waiting ts n flags ts' n' flags' content hn hf hn' hf' marked hc hl hp hb hq =
    let (ended, errored) = push_all-block ts n flags ts' n' flags' hn hf hn' hf' content hc in
    let control : not (flags == 0) ≡ true = ground arith in
    let whole : (k : GuardKind)
        → All (Lacks newline)
            (guard_line begin ts n flags ∷ (content ++ guard_line k ts' n' flags' ∷ [])) =
      λ k. (
        guard_line-newline begin ts n flags,
        All-append (Lacks newline) content _ hl (guard_line-newline k ts' n' flags', tt),
      ) in
    let (a, b) =
      one_reply e id waiting _ (block_reply n flags content false) hp hb hq (whole end) ended
        control in
    let (c, d) =
      one_reply e id waiting _ (block_reply n flags content true) hp hb hq (whole error) errored
        control in
    (a, b, c, d)
