-- ===== src/Driver/Methods/Returns.antt =====
-- src/blocking.rs, src/engine.rs, src/parser.rs: what the typed methods return once tmux replied.
use tmuxctl.Base.{
  ◌+◌, ◌<◌, ◌≤◌, ◌≡◌, ◌≢◌, refl, sym, ap, ◌∙◌, true, List, [], ◌∷◌, ◌++◌, append_assoc, append-nil,
  map, Text, Bytes, arith, length, length-append, All, Bool-cases, inl, inr, if◌then◌else◌,
}
use tmuxctl.Text.Utf8.{from_utf8_lossy}
use tmuxctl.Text.Number.{u64_bound}
use tmuxctl.Parser.Frame
use tmuxctl.Engine.{failed, register_command}
use tmuxctl.Engine.Framing.{concat}
use tmuxctl.Driver.Blocking.{
  Write, Sender, Shared, Client, Effect, event, sent, waits, refused, Act, call, write_command,
  command, step, steps,
}
use tmuxctl.Driver.Blocking
use tmuxctl.Driver.Blocking.Waiting.{senders}
use tmuxctl.Driver.Blocking.Moves.{Waited, Sound, Moves, command-Moves}
use tmuxctl.Driver.Blocking.Session.{session, session-Sound, step-Moves}
use tmuxctl.Driver.Blocking.Answers.{reads, session-next_id, session_blocks}
use tmuxctl.Driver.Blocking.Returns.{steps-append}
use tmuxctl.Driver.Contract.Blocks.{ReplyBlock, IsReply, written_blocks, answers, served}
use tmuxctl.Driver.Methods.{Done, map_drop}
use tmuxctl.Driver.Methods.Wire.{
  Method, MethodAct, invoked, text_of, act_of, method_steps, method_steps_same,
}

-- What the methods return, by the caller: the result that is sent, without its lines.
unfoldable pub finished : List Effect → List (Sender × Done)
finished [] = []
finished (event n ∷ out) = finished out
finished (sent tx r ∷ out) = (tx, map_drop r) ∷ finished out
finished (waits tx cmd ∷ out) = finished out
finished (refused tx ∷ out) = finished out

-- Callers with the method of each, and with the block that tmux replies.
abbrev pub Exchange : Type 0
Exchange = Sender × (Method × ReplyBlock)

abbrev pub invocations : List Exchange → List MethodAct
invocations = map (λ x. invoked x.0 x.1.0)

abbrev pub replies_to : List Exchange → List (Sender × ReplyBlock)
replies_to = map (λ x. (x.0, x.1.1))

-- `Ok(())` if `%end` closes the block, and the lines of the error if `%error` does.
abbrev pub done_of : ReplyBlock → Done
done_of b = if b.failing then Done.err (failed (map from_utf8_lossy b.content)) else Done.ok

finished-answers :
    (xs : List Exchange) → finished (answers (replies_to xs)) ≡ map (λ x. (x.0, done_of x.1.1)) xs
unfolding finished map_drop
finished-answers [] = refl
finished-answers ((tx, (m, b)) ∷ xs) = elim (Bool-cases b.failing) [
  | inl bad ↦ rw (bad, finished-answers xs) refl
  | inr fine ↦ rw (fine, finished-answers xs) refl
]

abbrev callers : List Exchange → List Sender
callers = map (λ x. x.0)

abbrev asked : List Exchange → List Act
asked = map (λ x. call x.0 (text_of x.1.0))

map-invocations : (xs : List Exchange) → map act_of (invocations xs) ≡ asked xs
map-invocations [] = refl
map-invocations (x ∷ xs) = ap (◌∷◌ (call x.0 (text_of x.1.0))) (map-invocations xs)

served-replies_to : (xs : List Exchange) → served (replies_to xs) ≡ callers xs
served-replies_to [] = refl
served-replies_to (x ∷ xs) = ap (◌∷◌ x.0) (served-replies_to xs)

length-asked : (xs : List Exchange) → length (asked xs) ≡ length xs
length-asked [] = refl
length-asked (x ∷ xs) = omega (arith, length-asked xs)

module _ {W : Type 0} (io : Write W) where
  -- A call that leaves the client connected: the caller waits behind the others, and the stream is
  -- where it was.
  call-waits :
      (s : Shared W) (tx : Sender) (cmd : Text)
      → s.engine.next_id + 1 < u64_bound
      → Waited s
      → (command io s tx cmd).0.connected ≡ true
      → (s.connected ≡ true)
        × (senders (command io s tx cmd).0.waiters ≡ senders s.waiters ++ tx ∷ [])
        × ((command io s tx cmd).0.engine.parser ≡ s.engine.parser)
        × ((command io s tx cmd).0.engine.buf ≡ s.engine.buf)
  unfolding Moves command register_command
  call-waits s tx cmd h w on =
      let (_, moved, _) = command-Moves io s tx cmd h w in
      elim (Bool-cases s.connected) [
        | inr off ↦ absurd (cc (simp off at on))
        | inl was ↦ elim (Bool-cases (write_command io s.writer cmd).1) [
          | inr bad ↦ absurd (cc (simp (was, bad) at on))
          | inl fine ↦ simp (was, fine) (refl, simp (was, fine) at moved, refl, refl)
        ]
      ]

  calls-wait :
      (c : Client W) (xs : List Exchange)
      → c.shared.engine.next_id + length xs < u64_bound
      → Sound c
      → (steps io c (asked xs)).0.shared.connected ≡ true
      → let c' = (steps io c (asked xs)).0 in
        (c.shared.connected ≡ true)
        × (senders c'.shared.waiters ≡ senders c.shared.waiters ++ callers xs)
        × (c'.shared.engine.parser ≡ c.shared.engine.parser)
        × (c'.shared.engine.buf ≡ c.shared.engine.buf)
        × (c'.reading ≡ c.reading)
  unfolding steps step Sound Moves
  calls-wait c [] h sound on = (on, sym (append-nil (senders c.shared.waiters)), refl, refl, refl)
  calls-wait c ((tx, (m, b)) ∷ xs) h (w, stopped) on =
      let c' = (step io c (call tx (text_of m))).0 in
      let (sound', (_, _, lt)) = step-Moves io c (call tx (text_of m)) (omega arith) (w, stopped) in
      let (on', queue, top, between, reading) = calls-wait c' xs (omega arith) sound' on in
      let (was, queue', top', between') = call-waits c.shared tx (text_of m) (omega arith) w on' in
      (
        was,
        queue
            ∙ ap (λ txs. txs ++ callers xs) queue'
            ∙ append_assoc (senders c.shared.waiters) (tx ∷ []) (callers xs),
        top ∙ top',
        between ∙ between',
        reading,
      )

-- After any steps of a new client, while the reader thread runs, the engine is between lines and
-- outside a block, and nobody waits: if callers then invoke typed methods, which leave the client
-- connected, and the reads return a reply block with a control mark for each, in chunks that are cut
-- anywhere, then the methods return, each caller's once and in the order in which they were invoked:
-- `Ok(())` where `%end` closes the caller's own block, and the failure with the block's lines where
-- `%error` does; and nobody waits. No content line reads as a guard or holds a newline, the guards'
-- fields fit their types, and there are fewer than 2^64 steps.
pub methods_return :
    {W : Type 0} (io : Write W) (w : W) (acts : List Act) (xs : List Exchange) (chunks : List Bytes)
    → All (λ x. IsReply x.1) (replies_to xs)
    → length acts + length xs + length chunks < u64_bound
    → (session io w acts).0.reading ≡ true
    → (session io w acts).0.shared.engine.parser ≡ Frame.new
    → (session io w acts).0.shared.engine.buf ≡ []
    → senders (session io w acts).0.shared.waiters ≡ []
    → (method_steps io (session io w acts).0 (invocations xs)).0.shared.connected ≡ true
    → All (λ chunk. chunk ≢ []) chunks
    → concat chunks ≡ concat (written_blocks (replies_to xs))
    → let c = (method_steps io (session io w acts).0 (invocations xs)).0 in
      let (c', out) = steps io c (reads chunks) in
      (finished out ≡ map (λ x. (x.0, done_of x.1.1)) xs) × (senders c'.shared.waiters ≡ [])
methods_return io w acts xs chunks replies h reading top between nobody on whole cut =
    let c = (session io w acts).0 in
    let start : Client _ = record { shared = Blocking.new w; reading = true } in
    let (sound, _) = session-Sound io w acts (omega arith) in
    let few : c.shared.engine.next_id ≤ length acts = session-next_id io w acts (omega arith) in
    let same : method_steps io c (invocations xs) ≡ steps io c (asked xs) =
      method_steps_same io c (invocations xs) ∙ ap (steps io c) (map-invocations xs) in
    let (_, queue, top', between', reading') =
      calls-wait io c xs (omega (arith, few)) sound
        (sym (ap (λ x. x.0.shared.connected) same) ∙ on) in
    let here = steps-append io start acts (asked xs) in
    let end : (session io w (acts ++ asked xs)).0 ≡ (method_steps io c (invocations xs)).0 =
      here ∙ sym (ap (λ x. x.0) same) in
    let (told, left, _) =
      session_blocks io w (acts ++ asked xs) (replies_to xs) [] chunks replies
        (omega (arith, h, length-append acts (asked xs), length-asked xs))
        (ap (λ c. c.reading) here ∙ reading' ∙ reading)
        (ap (λ c. c.shared.engine.parser) here ∙ top' ∙ top)
        (ap (λ c. c.shared.engine.buf) here ∙ between' ∙ between)
        (ap (λ c. senders c.shared.waiters) here
          ∙ queue
          ∙ ap (λ txs. txs ++ callers xs) nobody
          ∙ sym (served-replies_to xs)
          ∙ sym (append-nil (served (replies_to xs))))
        whole cut in
    (
      ap (λ c. finished (steps io c (reads chunks)).1) (sym end)
          ∙ ap finished told
          ∙ finished-answers xs,
      ap (λ c. senders (steps io c (reads chunks)).0.shared.waiters) (sym end) ∙ left,
    )
