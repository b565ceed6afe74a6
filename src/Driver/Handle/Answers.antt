-- ===== src/Driver/Handle/Answers.antt =====
-- src/tokio_rt.rs, src/engine.rs, src/parser.rs: reply blocks on the stream, cut by the reads, and the
-- callers that they are for.
use tmuxctl.Base.{
  ◌+◌, ◌<◌, ◌≤◌, ◌≡◌, ◌≢◌, refl, sym, ap, ◌∙◌, true, some, List, [], ◌∷◌, ◌++◌, map, arith, Bytes,
  All, length,
}
use tmuxctl.Text.Number.{u64_bound}
use tmuxctl.Parser.Frame
use tmuxctl.Engine.Framing.{concat}
use tmuxctl.Driver.Blocking.{Write, Sender, Effect}
use tmuxctl.Driver.Blocking.Waiting.{senders}
use tmuxctl.Driver.Blocking.Refines.{view}
use tmuxctl.Driver.Contract.{receive, react, reacts}
use tmuxctl.Driver.Contract.Stream.{reacts-concat}
use tmuxctl.Driver.Contract.Blocks.{
  ReplyBlock, IsReply, written_blocks, answers, served, react-blocks,
}
use tmuxctl.Driver.Owner.{Task, Turn, turn, owner_task}
use tmuxctl.Driver.Owner.Same.{shared}
use tmuxctl.Driver.Owner.Refines.{inputs, owner_task-reacts}
use tmuxctl.Driver.Handle.{Channel, Ends, Act, read, from_parts, advance, step, steps}
use tmuxctl.Driver.Handle.Turns.{Sound, Keeps, step-Keeps}
use tmuxctl.Driver.Handle.Returns.{steps-Keeps, new-Sound}

-- The reads that return the chunks, and the turns of the task with them.
abbrev pub reads : List Bytes → List Act
reads = map (λ chunk. read (some chunk))

abbrev pub read_turns : List Bytes → List Turn
read_turns = map (λ chunk. Turn.read (some chunk))

length-read_turns : (chunks : List Bytes) → length (read_turns chunks) ≡ length chunks
length-read_turns [] = refl
length-read_turns (x ∷ chunks) = omega (arith, length-read_turns chunks)

module _ {W : Type 0} (io : Write W) where
  inputs-reads :
      (t : Task W) (chunks : List Bytes)
      → All (λ chunk. chunk ≢ []) chunks
      → inputs io t (read_turns chunks) ≡ map receive chunks
  unfolding inputs turn
  inputs-reads t [] h = refl
  inputs-reads t ([] ∷ chunks) (ne, h) = absurd (ne refl)
  inputs-reads t ((b ∷ x) ∷ chunks) (_, h) =
      ap (◌∷◌ (receive (b ∷ x))) (inputs-reads (turn io t (Turn.read (some (b ∷ x)))).0.0 chunks h)

  reads-on :
      (t : Task W) (chunks : List Bytes)
      → All (λ chunk. chunk ≢ []) chunks
      → (owner_task io t (read_turns chunks)).1 ≡ true
  unfolding owner_task turn
  reads-on t [] h = refl
  reads-on t ([] ∷ chunks) (ne, h) = absurd (ne refl)
  reads-on t ((b ∷ x) ∷ chunks) (_, h) =
      reads-on (turn io t (Turn.read (some (b ∷ x)))).0.0 chunks h

module _ {W Q : Type 0} (io : Write W) (ch : Channel Q) where
  -- Bytes that are read are the task's alone.
  steps-reads :
      (s : Ends W Q) (chunks : List Bytes)
      → s.running ≡ true
      → All (λ chunk. chunk ≢ []) chunks
      → let ((t, out), running) = owner_task io s.task (read_turns chunks) in
        steps io ch s (reads chunks) ≡ (record s { task = t }, out)
  unfolding steps step advance owner_task turn
  steps-reads s [] on h = refl
  steps-reads s ([] ∷ chunks) on (ne, h) = absurd (ne refl)
  steps-reads s ((b ∷ x) ∷ chunks) on (_, h) =
      let ((t, out), goes_on) = turn io s.task (Turn.read (some (b ∷ x))) in
      let later = steps-reads (record s { task = t }) chunks on h in
      simp on (ap (λ (y : Ends W Q × List Effect). (y.0, out ++ y.1)) (simp on at later))

  steps-next_id :
      (s : Ends W Q) (acts : List Act)
      → s.task.engine.next_id + length acts < u64_bound
      → Sound io ch s
      → (steps io ch s acts).0.task.engine.next_id ≤ s.task.engine.next_id + length acts
  unfolding steps Keeps
  steps-next_id s [] h sound = omega arith
  steps-next_id s (a ∷ acts) h sound =
      let s' = (step io ch s a).0 in
      let (sound', _, lt) = step-Keeps io ch s a (omega arith) sound in
      omega (arith, steps-next_id s' acts (omega arith) sound')

-- After any acts of a new client without a child, while the owner task runs and the engine is
-- between lines and outside a block: if the reads then return reply blocks with control marks, no
-- more than callers wait, in chunks that are cut anywhere, each of the callers that have waited
-- longest is sent the content of its own block, in the order of their requests, as output where
-- `%end` closes the block and as the failure where `%error` does; nothing else happens, the other
-- callers go on waiting, and the channel and the handle are as before. No content line reads as a
-- guard or holds a newline, the guards' fields fit their types, and there are fewer than 2^64
-- acts.
pub handle_blocks :
    {W Q : Type 0} (io : Write W) (ch : Channel Q) (w : W) (acts : List Act)
    (blocks : List (Sender × ReplyBlock)) (waiting : List Sender) (chunks : List Bytes)
    → All (λ x. IsReply x.1) blocks
    → length acts + length chunks < u64_bound
    → (steps io ch (from_parts io ch w) acts).0.running ≡ true
    → (steps io ch (from_parts io ch w) acts).0.task.engine.parser ≡ Frame.new
    → (steps io ch (from_parts io ch w) acts).0.task.engine.buf ≡ []
    → senders (steps io ch (from_parts io ch w) acts).0.task.waiters ≡ served blocks ++ waiting
    → All (λ chunk. chunk ≢ []) chunks
    → concat chunks ≡ concat (written_blocks blocks)
    → let s = (steps io ch (from_parts io ch w) acts).0 in
      let (s', out) = steps io ch s (reads chunks) in
      (out ≡ answers blocks)
      × (senders s'.task.waiters ≡ waiting)
      × (s' ≡ record s { task = s'.task })
unfolding view shared
handle_blocks io ch w acts blocks waiting chunks replies h on top between queue whole cut =
    let client = from_parts io ch w in
    let s = (steps io ch client acts).0 in
    let c = view (shared true s.task) in
    let (sound, _) = steps-Keeps io ch client acts (omega arith) (new-Sound io ch w) in
    let few : s.task.engine.next_id ≤ length acts =
      omega (arith, steps-next_id io ch client acts (omega arith) (new-Sound io ch w)) in
    let keeps =
      owner_task-reacts io s.task (read_turns chunks) (omega (arith, few, length-read_turns chunks))
        (unfold Sound in sound.0 on) in
    let all : reacts c (inputs io s.task (read_turns chunks))
        ≡ (record c { queue = waiting }, answers blocks) =
      ap (reacts c) (inputs-reads io s.task chunks whole)
      ∙ reacts-concat c chunks (rw between tt)
      ∙ ap (λ input. react c (receive input)) cut
      ∙ react-blocks c blocks waiting top between queue replies in
    let both = sym keeps ∙ all in
    rw (steps-reads io ch s chunks on whole) (ap (λ x. x.1) both, ap (λ x. x.0.queue) both, refl)
