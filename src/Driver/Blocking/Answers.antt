-- ===== src/Driver/Blocking/Answers.antt =====
-- src/blocking.rs, src/engine.rs, src/parser.rs: a reply block on the stream, cut by the reads, and the
-- caller that it is for.
use tmuxctl.Base.{
  append-nil, ◌++◌, ℕ, ◌+◌, ◌<◌, ◌≤◌, ◌≡◌, ◌≢◌, refl, sym, ap, ◌∙◌, Bool, true, List, [], ◌∷◌, map,
  arith, Bytes, All, Lacks, length,
}
use tmuxctl.Text.Number.{u32_bound, u64_bound}
use tmuxctl.Parser.Frame
use tmuxctl.Parser.Frame.Blocks.{IsContent}
use tmuxctl.Engine.{newline}
use tmuxctl.Engine.Framing.{concat}
use tmuxctl.Driver.Blocking.{
  Write, Sender, Shared, Client, Effect, sent, ReadResult, bytes, Act, read, step, steps, read_step,
}
use tmuxctl.Driver.Blocking
use tmuxctl.Driver.Blocking.Waiting.{senders}
use tmuxctl.Driver.Blocking.Moves.{Sound, Waited, Moves}
use tmuxctl.Driver.Blocking.Session.{step-Moves, session, session-Sound}
use tmuxctl.Driver.Blocking.Refines.{view, inputs, steps-reacts}
use tmuxctl.Driver.Contract.{receive, react, reacts}
use tmuxctl.Driver.Contract.Stream.{reacts-concat}
use tmuxctl.Driver.Contract.Block.{block, outcome}
use tmuxctl.Driver.Contract.Blocks.{
  ReplyBlock, IsReply, written_blocks, answers, served, react-blocks,
}

-- The reads that return the chunks.
abbrev pub reads : List Bytes → List Act
reads = map (λ chunk. read (bytes chunk))

length-reads : (chunks : List Bytes) → length (reads chunks) ≡ length chunks
length-reads [] = refl
length-reads (x ∷ chunks) = omega (arith, length-reads chunks)

module _ {W : Type 0} (io : Write W) where
  inputs-reads :
      (c : Client W) (chunks : List Bytes)
      → c.reading ≡ true
      → All (λ chunk. chunk ≢ []) chunks
      → inputs io c (reads chunks) ≡ map receive chunks
  unfolding inputs step read_step
  inputs-reads c [] on h = refl
  inputs-reads c ([] ∷ chunks) on (ne, h) = absurd (ne refl)
  inputs-reads c ((b ∷ x) ∷ chunks) on (_, h) =
      let c' : Client W = (step io c (read (bytes (b ∷ x)))).0 in
      let on' : c'.reading ≡ true = simp on refl in
      let later = inputs-reads c' chunks on' h in
      simp on (ap (◌∷◌ (receive (b ∷ x))) (simp on at later))

  steps-next_id :
      (c : Client W) (acts : List Act)
      → c.shared.engine.next_id + length acts < u64_bound
      → Sound c
      → (steps io c acts).0.shared.engine.next_id ≤ c.shared.engine.next_id + length acts
  unfolding steps Moves
  steps-next_id c [] h sound = omega arith
  steps-next_id c (a ∷ acts) h sound =
      let (c', now) = step io c a in
      let (sound', (_, _, lt)) = step-Moves io c a (omega arith) sound in
      omega (arith, steps-next_id c' acts (omega arith) sound')

pub session-next_id :
    {W : Type 0} (io : Write W) (w : W) (acts : List Act)
    → length acts < u64_bound
    → (session io w acts).0.shared.engine.next_id ≤ length acts
unfolding Sound Waited
session-next_id io w acts h =
    let start : Client _ = record { shared = Blocking.new w; reading = true } in
    omega (arith, steps-next_id io start acts (omega arith) (([], refl, (λ _. refl), tt), λ e. cc))

-- After any steps of a new client, while the reader thread runs and the engine is between lines and
-- outside a block: if the reads then return reply blocks with control marks, no more than callers
-- wait, in chunks that are cut anywhere, each of the callers that have waited longest is sent the
-- content of its own block, in the order of their calls, as output where `%end` closes the block and
-- as the failure where `%error` does; nothing else happens, the other callers go on waiting, and the
-- client is as connected as before. No content line reads as a guard or holds a newline, the guards'
-- fields fit their types, and there are fewer than 2^64 steps.
pub session_blocks :
    {W : Type 0} (io : Write W) (w : W) (acts : List Act) (blocks : List (Sender × ReplyBlock))
    (waiting : List Sender) (chunks : List Bytes)
    → All (λ x. IsReply x.1) blocks
    → length acts + length chunks < u64_bound
    → (session io w acts).0.reading ≡ true
    → (session io w acts).0.shared.engine.parser ≡ Frame.new
    → (session io w acts).0.shared.engine.buf ≡ []
    → senders (session io w acts).0.shared.waiters ≡ served blocks ++ waiting
    → All (λ chunk. chunk ≢ []) chunks
    → concat chunks ≡ concat (written_blocks blocks)
    → let (c, out) = steps io (session io w acts).0 (reads chunks) in
      (out ≡ answers blocks)
      × (senders c.shared.waiters ≡ waiting)
      × (c.shared.connected ≡ (session io w acts).0.shared.connected)
unfolding view
session_blocks io w acts blocks waiting chunks replies h on top between queue whole cut =
    let c = (session io w acts).0 in
    let (sound, _) = session-Sound io w acts (omega arith) in
    let few : c.shared.engine.next_id ≤ length acts = session-next_id io w acts (omega arith) in
    let same = steps-reacts io c (reads chunks) (omega (arith, few, length-reads chunks)) sound in
    let all : reacts (view c.shared) (inputs io c (reads chunks))
        ≡ (record (view c.shared) { queue = waiting }, answers blocks) =
      ap (reacts (view c.shared)) (inputs-reads io c chunks on whole)
      ∙ reacts-concat (view c.shared) chunks (rw between tt)
      ∙ ap (λ input. react (view c.shared) (receive input)) cut
      ∙ react-blocks (view c.shared) blocks waiting top between queue replies in
    let both = sym same ∙ all in
    (ap (λ x. x.1) both, ap (λ x. x.0.queue) both, ap (λ x. x.0.taking) both)

-- After any steps of a new client, while the reader thread runs, the engine is between lines and
-- outside a block, and somebody waits: if the reads then return a reply block with a control mark,
-- in chunks that are cut anywhere, the caller that has waited longest is sent its content, in order,
-- as output where `%end` closes the block and as the failure where `%error` does; nothing else
-- happens, and the other callers go on waiting. No content line reads as a guard or holds a newline,
-- the guards' fields fit their types, and there are fewer than 2^64 steps.
pub session-block :
    {W : Type 0} (io : Write W) (w : W) (acts : List Act) (first : Sender) (waiting : List Sender)
    (ts n flags ts' n' flags' : ℕ) (content : List Bytes) (failing : Bool) (chunks : List Bytes)
    → n < u64_bound
    → flags < u32_bound
    → n' < u64_bound
    → flags' < u32_bound
    → flags ≢ 0
    → All IsContent content
    → All (Lacks newline) content
    → length acts + length chunks < u64_bound
    → (session io w acts).0.reading ≡ true
    → (session io w acts).0.shared.engine.parser ≡ Frame.new
    → (session io w acts).0.shared.engine.buf ≡ []
    → senders (session io w acts).0.shared.waiters ≡ first ∷ waiting
    → All (λ chunk. chunk ≢ []) chunks
    → concat chunks ≡ block ts n flags ts' n' flags' content failing
    → let (c, out) = steps io (session io w acts).0 (reads chunks) in
      (out ≡ sent first (outcome content failing) ∷ []) × (senders c.shared.waiters ≡ waiting)
unfolding IsReply
session-block io w acts first waiting ts n flags ts' n' flags' content failing chunks hn hf hn' hf'
      marked hc hl h on top between queue whole cut =
    let b : ReplyBlock = record {
      ts = ts;
      n = n;
      flags = flags;
      ts' = ts';
      n' = n';
      flags' = flags';
      content = content;
      failing = failing;
    } in
    let (told, left, _) =
      session_blocks io w acts ((first, b) ∷ []) waiting chunks
        ((hn, hf, hn', hf', marked, hc, hl), tt) h on top between queue whole
        (cut ∙ sym (append-nil (block ts n flags ts' n' flags' content failing))) in
    (told, left)
