-- ===== src/Driver/Handle/Events.antt =====
-- src/tokio_rt.rs: what the event receiver gets of the async client.
use tmuxctl.Base.{
  ◌<◌, ◌≡◌, refl, sym, ap, ◌∙◌, true, false, none, some, List, [], ◌∷◌, ◌++◌, append_assoc,
  append-nil, Bytes, length, Bool-cases, inl, inr,
}
use tmuxctl.Text.Number.{u64_bound}
use tmuxctl.Parser.Frame
use tmuxctl.Driver.Blocking.{Write, Effect, event, sent, waits, refused}
use tmuxctl.Driver.Contract.{Input, ask, receive, hang_up, reacts, fresh}
use tmuxctl.Driver.Contract.Events.{events_of, notified, stream_of, reacts-events}
use tmuxctl.Driver.Owner.{Task, Turn, request, start, turn}
use tmuxctl.Driver.Owner.Refines.{inputs_of, inputs}
use tmuxctl.Driver.Handle.{Channel, Ends, Act, from_parts, step, steps}
use tmuxctl.Driver.Handle.Projection.{heard, turns_of, steps-off}
use tmuxctl.Driver.Handle.Turned.{turn_of-cases, step-still, step-turned}
use tmuxctl.Driver.Handle.Refines.{handle_refines}

-- What the reads among the turns return.
abbrev pub read_bytes : List Turn → Bytes
read_bytes [] = []
read_bytes (request r ∷ turns) = read_bytes turns
read_bytes (Turn.read none ∷ turns) = read_bytes turns
read_bytes (Turn.read (some input) ∷ turns) = input ++ read_bytes turns

read_bytes-cons :
    (u : Turn) (turns : List Turn)
    → read_bytes (u ∷ turns) ≡ read_bytes (u ∷ []) ++ read_bytes turns
read_bytes-cons (request r) turns = refl
read_bytes-cons (Turn.read none) turns = refl
read_bytes-cons (Turn.read (some input)) turns = sym (append_assoc input [] (read_bytes turns))

stream_of-append : (xs ys : List Input) → stream_of (xs ++ ys) ≡ stream_of xs ++ stream_of ys
stream_of-append [] ys = refl
stream_of-append (ask tx cmd taken ∷ xs) ys = stream_of-append xs ys
stream_of-append (receive input ∷ xs) ys =
    ap (◌++◌ input) (stream_of-append xs ys)
    ∙ sym (append_assoc input (stream_of xs) (stream_of ys))
stream_of-append (hang_up ∷ xs) ys = stream_of-append xs ys

events_of-heard : (out : List Effect) → events_of (heard out) ≡ events_of out
events_of-heard [] = refl
events_of-heard (event n ∷ out) = ap (◌∷◌ n) (events_of-heard out)
events_of-heard (sent tx r ∷ out) = events_of-heard out
events_of-heard (waits tx cmd ∷ out) = events_of-heard out
events_of-heard (refused tx ∷ out) = events_of-heard out

module _ {W : Type 0} (io : Write W) where
  stream_of-inputs_of : (t : Task W) (u : Turn) → stream_of (inputs_of io t u) ≡ read_bytes (u ∷ [])
  stream_of-inputs_of t (request none) = refl
  stream_of-inputs_of t (request (some (cmd, tx))) = refl
  stream_of-inputs_of t (Turn.read none) = refl
  stream_of-inputs_of t (Turn.read (some [])) = refl
  stream_of-inputs_of t (Turn.read (some (b ∷ input))) = refl

  stream_of-more :
      (t : Task W) (u : Turn) (turns : List Turn)
      → (turn io t u).1 ≡ true
      → stream_of (inputs io t (u ∷ turns))
        ≡ read_bytes (u ∷ []) ++ stream_of (inputs io (turn io t u).0.0 turns)
  unfolding inputs
  stream_of-more t u turns more =
      let later = inputs io (turn io t u).0.0 turns in
      rw more (
        stream_of-append (inputs_of io t u) later
        ∙ ap (λ x. x ++ stream_of later) (stream_of-inputs_of t u))

  stream_of-last :
      (t : Task W) (u : Turn)
      → (turn io t u).1 ≡ false
      → stream_of (inputs io t (u ∷ [])) ≡ read_bytes (u ∷ [])
  unfolding inputs
  stream_of-last t u less = rw less (
      stream_of-append (inputs_of io t u) (hang_up ∷ [])
      ∙ append-nil (stream_of (inputs_of io t u))
      ∙ stream_of-inputs_of t u)

module _ {W Q : Type 0} (io : Write W) (ch : Channel Q) where
  stream_of-turns :
      (s : Ends W Q) (acts : List Act)
      → s.running ≡ true
      → stream_of (inputs io s.task (turns_of io ch s acts)) ≡ read_bytes (turns_of io ch s acts)
  unfolding turns_of
  stream_of-turns s [] on = unfold inputs in refl
  stream_of-turns s (a ∷ acts) on =
      let s' = (step io ch s a).0 in
      let later = turns_of io ch s' acts in
      elim (turn_of-cases io ch s a) [
        | inl no_turn ↦
            let (same, on') = step-still io ch s a on no_turn in
            rw no_turn
              (ap (λ t. stream_of (inputs io t later)) (sym same) ∙ stream_of-turns s' acts on')
        | inr (u, one) ↦
            let (goes_on, same) = step-turned io ch s a u on one in
            rw one (elim (Bool-cases s'.running) [
              | inl on' ↦
                  stream_of-more io s.task u later (goes_on ∙ on')
                  ∙ ap (λ t. read_bytes (u ∷ []) ++ stream_of (inputs io t later)) (sym (same on'))
                  ∙ ap (◌++◌ (read_bytes (u ∷ []))) (stream_of-turns s' acts on')
                  ∙ sym (read_bytes-cons u later)
              | inr off' ↦
                  rw (steps-off io ch s' acts off').0
                    (stream_of-last io s.task u (goes_on ∙ off') ∙ refl)
            ])
      ]

-- Over fewer than 2^64 acts of a new client without a child, in which its callers, the drop of its
-- handle and the turns of the owner task interleave in any order, and over any channel and
-- transport, the event receiver gets exactly the notifications that the parser reports in the
-- complete lines of what the task reads in its turns, each once and in order, however the reads
-- cut the stream.
pub handle_events :
    {W Q : Type 0} (io : Write W) (ch : Channel Q) (w : W) (acts : List Act)
    → length acts < u64_bound
    → events_of (steps io ch (from_parts io ch w) acts).1
      ≡ notified Frame.new (read_bytes (turns_of io ch (from_parts io ch w) acts))
handle_events io ch w acts h =
    let client = from_parts io ch w in
    let (s, out) = steps io ch client acts in
    let turns = turns_of io ch client acts in
    let told = (reacts fresh (inputs io (start io w) turns)).1 in
    sym (events_of-heard out)
    ∙ ap events_of (sym (handle_refines io ch w acts h).1)
    ∙ events_of-heard told
    ∙ reacts-events fresh (inputs io (start io w) turns) tt
    ∙ ap (notified Frame.new) (stream_of-turns io ch client acts refl)
