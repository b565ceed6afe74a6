-- ===== src/Driver/Blocking/Panic.antt =====
-- src/blocking.rs: a caller whose transport panics in `write`, under the lock: the lock is poisoned, and
-- the reader thread takes it all the same, as `dispatch` and `disconnect` say.
use tmuxctl.Base.{
  ◌+◌, ◌<◌, ◌≤◌, ◌≡◌, refl, sym, ap, ◌∙◌, true, false, List, [], ◌∷◌, ◌++◌, append-nil, arith, Text,
  Bytes, length, Bool-cases, inl, inr,
}
use tmuxctl.Text.Number.{u64_bound}
use tmuxctl.Engine.{register_command, feed, on_eof}
use tmuxctl.Driver.Blocking.{
  Write, Sender, Shared, Client, Effect, refused, ReadResult, bytes, interrupted, failed, Act, call,
  read, dispatch, disconnect, read_step, command, write_command, step, steps,
}
use tmuxctl.Driver.Blocking.Waiting.{senders, answered, accepted, accepted-append}
use tmuxctl.Driver.Blocking.Moves.{Sound, Moves, command-Moves}
use tmuxctl.Driver.Blocking.Session.{session, session-Sound, steps-Sound}
use tmuxctl.Driver.Blocking.Returns.{callers}
use tmuxctl.Driver.Blocking.Answers.{session-next_id}
use tmuxctl.Driver.Blocking.Passive.{refusals, Passive-nothing, read-Passive}
use tmuxctl.Driver.Blocking.Phases.{read-gone, disconnected_stays}
use tmuxctl.Driver.Owner.Same.{with_waiters, deliver_same, resolve_all_same}

module _ {W : Type 0} where
  -- What a call leaves that panics in `write`: the command is registered, the transport is in some
  -- state, and the caller does not wait.
  unfoldable pub command_panics : W → Client W → Client W
  command_panics w c = record c {
    shared = record c.shared { engine = (register_command c.shared.engine).0; writer = w };
  }

  -- The same client, disconnected.
  off : Shared W → Shared W
  off s = record s { connected = false }

  deliver-off :
      (s : Shared W) (input : Bytes)
      → dispatch (off s) input ≡ (off (dispatch s input).0, (dispatch s input).1)
  unfolding off dispatch with_waiters
  deliver-off s input =
      let (engine, incoming) = feed s.engine input in
      rw
        (
          deliver_same incoming (record s { engine = engine }),
          deliver_same incoming (record s { engine = engine; connected = false }),
        )
        refl

  disconnect-off : (s : Shared W) → disconnect (off s) ≡ (off (disconnect s).0, (disconnect s).1)
  unfolding off disconnect with_waiters
  disconnect-off s =
      let (engine, incoming) = on_eof s.engine in
      rw (resolve_all_same incoming (record s { engine = engine; connected = false })) refl

  read_step-off :
      (s : Shared W) (r : ReadResult)
      → read_step (off s) r ≡ ((off (read_step s r).0.0, (read_step s r).0.1), (read_step s r).1)
  unfolding read_step
  read_step-off s (bytes []) = ap (λ x. (x, false)) (disconnect-off s)
  read_step-off s (bytes (b ∷ input)) = ap (λ x. (x, true)) (deliver-off s (b ∷ input))
  read_step-off s interrupted = refl
  read_step-off s failed = ap (λ x. (x, false)) (disconnect-off s)

  cut : Client W → Client W
  cut c = record c { shared = off c.shared }

module _ {W : Type 0} (io : Write W) where
  -- The client under a poisoned lock, in a release build: a call is refused, and the reader goes on.
  unfoldable pub step_poisoned : Client W → Act → Client W × List Effect
  step_poisoned c (call tx cmd) = (c, refused tx ∷ [])
  step_poisoned c (read r) = step io c (read r)

  unfoldable pub steps_poisoned : Client W → List Act → Client W × List Effect
  steps_poisoned c [] = (c, [])
  steps_poisoned c (a ∷ acts) =
      let (c', now) = step_poisoned c a in
      let (c'', later) = steps_poisoned c' acts in (c'', now ++ later)

  -- It does what the same client does that is disconnected.
  step-cut :
      (c : Client W) (a : Act)
      → step io (cut c) a ≡ (cut (step_poisoned c a).0, (step_poisoned c a).1)
  unfolding step_poisoned step command cut off
  step-cut c (call tx cmd) = refl
  step-cut c (read r) = elim (Bool-cases c.reading) [
    | inr stopped ↦ simp stopped refl
    | inl on ↦
        simp on
          (ap (λ x. (record { shared = x.0.0; reading = x.1 }, x.0.1)) (read_step-off c.shared r))
  ]

  steps-cut :
      (c : Client W) (acts : List Act)
      → steps io (cut c) acts ≡ (cut (steps_poisoned c acts).0, (steps_poisoned c acts).1)
  unfolding steps steps_poisoned
  steps-cut c [] = refl
  steps-cut c (a ∷ acts) =
      let (c', now) = step_poisoned c a in rw (step-cut c a, steps-cut c' acts) refl

  call-gone :
      (c : Client W) (tx : Sender) (cmd : Text)
      → c.shared.connected ≡ false
      → step io c (call tx cmd) ≡ (c, refused tx ∷ [])
  unfolding step command
  call-gone c tx cmd gone = simp gone refl

  -- Nobody starts to wait on a client that is disconnected.
  accepted-gone :
      (c : Client W) (acts : List Act)
      → c.shared.connected ≡ false
      → accepted (steps io c acts).1 ≡ []
  unfolding steps
  accepted-gone c [] gone = refl
  accepted-gone c (call tx cmd ∷ acts) gone =
      let later = accepted-gone c acts gone in rw (call-gone c tx cmd gone) later
  accepted-gone c (read r ∷ acts) gone =
      let (c', now) = step io c (read r) in
      accepted-append now (steps io c' acts).1
      ∙ rw
          (
            (Passive-nothing now (read-Passive io c r)).2,
            accepted-gone c' acts (read-gone io c r gone),
          )
          refl

-- The command that was registered has nobody who waits for it, as after a write that failed.
panicked-Sound :
    {W : Type 0} (c : Client W) (w : W)
    → c.shared.engine.next_id + 1 < u64_bound
    → c.shared.connected ≡ true
    → Sound c
    → Sound (cut (command_panics w c))
      × ((command_panics w c).shared.engine.next_id ≤ c.shared.engine.next_id + 1)
unfolding Sound Moves command_panics command write_command cut off
panicked-Sound c w h on (waited, stopped) =
    let stuck : Write _ = record { write_all = λ _ b. (w, false); flush = λ w. (w, false) } in
    let moves = command-Moves stuck c.shared 0 [] h waited in
    let (waited', _, lt) = simp on at moves in ((waited', λ e. absurd (cc (on, (stopped e).1))), lt)

-- After any steps of a new client that leave it connected, a caller's transport panics in `write` under
-- the lock; then, in a release build and in any interleaving, fewer than 2^64 steps in all: once the
-- reader thread has left its loop, every caller that waited when the lock was poisoned has been
-- sent a result, in the order of the calls, nobody waits, and every later call was refused, in
-- order.
pub panic_drains :
    {W : Type 0} (io : Write W) (w : W) (acts : List Act) (wreck : W) (more : List Act)
    → length acts + length more + 1 < u64_bound
    → (session io w acts).0.shared.connected ≡ true
    → (steps_poisoned io (command_panics wreck (session io w acts).0) more).0.reading ≡ false
    → let c = (session io w acts).0 in
      let (last, out) = steps_poisoned io (command_panics wreck c) more in
      (answered out ≡ senders c.shared.waiters)
      × (senders last.shared.waiters ≡ [])
      × (refusals out ≡ callers more)
unfolding cut off Sound
panic_drains io w acts wreck more h on ended =
    let c = (session io w acts).0 in
    let c' = command_panics wreck c in
    let same = steps-cut io c' more in
    let few : c.shared.engine.next_id ≤ length acts = session-next_id io w acts (omega arith) in
    let (sound, lt) =
      panicked-Sound c wreck (omega (arith, few)) on (session-Sound io w acts (omega arith)).0 in
    let (sound', all) = steps-Sound io (cut c') more (omega (arith, few, lt)) sound in
    let out = (steps_poisoned io c' more).1 in
    let (nobody, _) = sound'.1 (ap (λ x. x.0.reading) same ∙ ended) in
    let (_, _, _, told) = disconnected_stays io (cut c') more refl in
    let end = (steps io (cut c') more).1 in
    (
      sym (ap (λ x. answered x.1) same)
          ∙ sym (append-nil (answered end))
          ∙ ap (◌++◌ (answered end)) (sym nobody)
          ∙ all
          ∙ ap (◌++◌ (senders c'.shared.waiters)) (accepted-gone io (cut c') more refl)
          ∙ append-nil (senders c'.shared.waiters)
          ∙ unfold command_panics in refl,
      sym (ap (λ x. senders x.0.shared.waiters) same) ∙ nobody,
      sym (ap (λ x. refusals x.1) same) ∙ told,
    )
