-- ===== src/Driver/Contract/Blocks.antt =====
-- src/engine.rs, src/parser.rs: the contract of a client and reply blocks that follow one another.
use tmuxctl.Base.{
  ℕ, ◌<◌, ◌≡◌, ◌≢◌, refl, sym, ap, ◌∙◌, Bool, List, [], ◌∷◌, ◌++◌, map, Bytes, All, Lacks,
}
use tmuxctl.Text.Number.{u32_bound, u64_bound}
use tmuxctl.Parser.Frame
use tmuxctl.Parser.Frame.Blocks.{IsContent}
use tmuxctl.Engine.{newline}
use tmuxctl.Engine.Framing.{concat}
use tmuxctl.Driver.Blocking.{Sender, Effect, sent}
use tmuxctl.Driver.Contract.{Contract, receive, react, reacts}
use tmuxctl.Driver.Contract.Block.{block, outcome, react-block}
use tmuxctl.Driver.Contract.Stream.{reacts-concat}

-- The fields of the two guards of a block, its content, and whether the command failed.
pub record ReplyBlock : Type 0 where
  pub ts : ℕ
  pub n : ℕ
  pub flags : ℕ
  pub ts' : ℕ
  pub n' : ℕ
  pub flags' : ℕ
  pub content : List Bytes
  pub failing : Bool

-- The fields fit their types, the control mark is set, and no content line reads as a guard or
-- holds a newline.
unfoldable pub IsReply : ReplyBlock → Type 0
IsReply b =
    (b.n < u64_bound)
    × (b.flags < u32_bound)
    × (b.n' < u64_bound)
    × (b.flags' < u32_bound)
    × (b.flags ≢ 0)
    × All IsContent b.content
    × All (Lacks newline) b.content

-- The callers with the block of each, what tmux writes for them, and what each gets.
abbrev pub written_blocks : List (Sender × ReplyBlock) → List Bytes
written_blocks =
    map (λ x. block x.1.ts x.1.n x.1.flags x.1.ts' x.1.n' x.1.flags' x.1.content x.1.failing)

abbrev pub answers : List (Sender × ReplyBlock) → List Effect
answers = map (λ x. sent x.0 (outcome x.1.content x.1.failing))

abbrev pub served : List (Sender × ReplyBlock) → List Sender
served = map (λ x. x.0)

reacts-blocks :
    (c : Contract) (blocks : List (Sender × ReplyBlock)) (waiting : List Sender)
    → c.parser ≡ Frame.new
    → c.partial ≡ []
    → c.queue ≡ served blocks ++ waiting
    → All (λ x. IsReply x.1) blocks
    → reacts c (map receive (written_blocks blocks))
      ≡ (record c { queue = waiting }, answers blocks)
unfolding reacts IsReply
reacts-blocks c [] waiting top between queue h = ap (λ q. (record c { queue = q }, [])) queue
reacts-blocks c ((tx, b) ∷ blocks) waiting top between queue (p, h) =
    let (hn, hf, hn', hf', marked, hc, hl) = p in
    let first =
      react-block b.ts b.n b.flags b.ts' b.n' b.flags' b.content b.failing hn hf hn' hf' marked hc
        hl c tx (served blocks ++ waiting) top between queue in
    let later =
      reacts-blocks (record c { queue = served blocks ++ waiting }) blocks waiting top between refl
        h in
    rw (first, later) refl

-- Between lines and outside a block, the bytes of the blocks are the results of the callers that
-- have waited longest, in order.
pub react-blocks :
    (c : Contract) (blocks : List (Sender × ReplyBlock)) (waiting : List Sender)
    → c.parser ≡ Frame.new
    → c.partial ≡ []
    → c.queue ≡ served blocks ++ waiting
    → All (λ x. IsReply x.1) blocks
    → react c (receive (concat (written_blocks blocks)))
      ≡ (record c { queue = waiting }, answers blocks)
react-blocks c blocks waiting top between queue h =
    sym (reacts-concat c (written_blocks blocks) (rw between tt))
    ∙ reacts-blocks c blocks waiting top between queue h
