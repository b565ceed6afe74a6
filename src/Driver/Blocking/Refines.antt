-- ===== src/Driver/Blocking/Refines.antt =====
-- src/blocking.rs: the client keeps the contract, in any interleaving of its callers and its reader.
use tmuxctl.Base.{
  ◌+◌, ◌<◌, ◌≡◌, refl, sym, ap, ◌∙◌, true, List, [], ◌∷◌, ◌++◌, arith, Text, Bytes, length,
  if◌then◌else◌, Bool-cases, inl, inr,
}
use tmuxctl.Text.Number.{u64_bound}
use tmuxctl.Engine.{on_eof, register_command}
use tmuxctl.Engine.Framing.{split_lines, feed-run}
use tmuxctl.Driver.Blocking.{
  Write, Sender, Waiters, Shared, Client, Effect, waits, refused, ReadResult, bytes, interrupted,
  failed, Act, read, dispatch, disconnect, read_step, write_command, command, step, steps,
}
use tmuxctl.Driver.Blocking
use tmuxctl.Driver.Blocking.Waiting.{senders}
use tmuxctl.Driver.Blocking.Moves.{Waited, Sound, Moves, command-Moves}
use tmuxctl.Driver.Blocking.Session.{step-Moves, session}
use tmuxctl.Driver.Owner.Same.{with_waiters, deliver_same, resolve_all_same}
use tmuxctl.Driver.Contract.{
  Contract, Input, ask, receive, hang_up, react, reacts, reacts-append, one_input, fresh,
}
use tmuxctl.Driver.Contract.Waiters.{run-take_lines, eof-tell_all}

-- What the contract sees of one return of `read`.
abbrev pub input_of : ReadResult → List Input
input_of (bytes []) = hang_up ∷ []
input_of (bytes (b ∷ input)) = receive (b ∷ input) ∷ []
input_of interrupted = []
input_of failed = hang_up ∷ []

module _ {W : Type 0} where
  -- What the contract sees of the client's state.
  unfoldable pub view : Shared W → Contract
  view s = record {
    parser = s.engine.parser;
    partial = s.engine.buf;
    queue = senders s.waiters;
    taking = s.connected;
  }

  pub dispatch-react :
      (s : Shared W) (input : Bytes)
      → Waited s
      → react (view s) (receive input) ≡ (view (dispatch s input).0, (dispatch s input).1)
  unfolding react view dispatch Waited with_waiters
  dispatch-react s input (orphans, q, c, lt) =
      let (ls, rest) = split_lines (s.engine.buf ++ input) in
      rw (run-take_lines ls s.engine s.waiters orphans q, feed-run s.engine input, deliver_same)
        refl

  pub disconnect-react :
      (s : Shared W) → Waited s → react (view s) hang_up ≡ (view (disconnect s).0, (disconnect s).1)
  unfolding react view disconnect Waited with_waiters on_eof
  disconnect-react s (orphans, q, c, lt) =
      rw (resolve_all_same, q, eof-tell_all s.waiters orphans) refl

module _ {W : Type 0} (io : Write W) where
  -- What the contract sees of a step.
  abbrev pub inputs_of : Client W → Act → List Input
  inputs_of c (Act.call tx cmd) = ask tx cmd (write_command io c.shared.writer cmd).1 ∷ []
  inputs_of c (read r) = if c.reading then input_of r else []

  unfoldable pub inputs : Client W → List Act → List Input
  inputs c [] = []
  inputs c (a ∷ acts) = inputs_of c a ++ inputs (step io c a).0 acts

  pub command-react :
      (s : Shared W) (tx : Sender) (cmd : Text)
      → s.engine.next_id + 1 < u64_bound
      → Waited s
      → react (view s) (ask tx cmd (write_command io s.writer cmd).1)
        ≡ (view (command io s tx cmd).0, (command io s tx cmd).1)
  unfolding react view command Moves register_command
  command-react s tx cmd h w =
      let (_, m, _) = command-Moves io s tx cmd h w in
      elim (Bool-cases s.connected) [
        | inr off ↦ simp off refl
        | inl on ↦ elim (Bool-cases (write_command io s.writer cmd).1) [
          | inr bad ↦ simp (on, bad) refl
          | inl fine ↦
              simp (on, fine)
                (ap (λ q. (record (view s) { queue = q; taking = true }, waits tx cmd ∷ []))
                  (sym (simp (on, fine) at m)))
        ]
      ]

  read-react :
      (s : Shared W) (r : ReadResult)
      → Waited s
      → reacts (view s) (input_of r) ≡ (view (read_step s r).0.0, (read_step s r).0.1)
  unfolding read_step
  read-react s (bytes []) w = one_input (view s) hang_up (disconnect-react s w)
  read-react s (bytes (b ∷ input)) w =
      one_input (view s) (receive (b ∷ input)) (dispatch-react s (b ∷ input) w)
  read-react s interrupted w = unfold reacts in refl
  read-react s failed w = one_input (view s) hang_up (disconnect-react s w)

  step-react :
      (c : Client W) (a : Act)
      → c.shared.engine.next_id + 1 < u64_bound
      → Sound c
      → reacts (view c.shared) (inputs_of c a) ≡ (view (step io c a).0.shared, (step io c a).1)
  unfolding step Sound
  step-react c (Act.call tx cmd) h (w, stopped) =
      one_input (view c.shared) (ask tx cmd (write_command io c.shared.writer cmd).1)
        (command-react c.shared tx cmd h w)
  step-react c (read r) h (w, stopped) = elim (Bool-cases c.reading) [
    | inl on ↦ rw on (read-react c.shared r w)
    | inr off ↦ rw off (unfold reacts in refl)
  ]

  pub steps-reacts :
      (c : Client W) (acts : List Act)
      → c.shared.engine.next_id + length acts < u64_bound
      → Sound c
      → reacts (view c.shared) (inputs c acts)
        ≡ (view (steps io c acts).0.shared, (steps io c acts).1)
  unfolding inputs steps Moves
  steps-reacts c [] h sound = unfold reacts in refl
  steps-reacts c (a ∷ acts) h sound =
      let (c', now) = step io c a in
      let (sound', (_, _, lt)) = step-Moves io c a (omega arith) sound in
      reacts-append (view c.shared) (inputs_of c a) (inputs c' acts)
      ∙ rw (step-react c a (omega arith) sound, steps-reacts c' acts (omega arith) sound') refl

-- A session of a new client with fewer than 2^64 steps, in any interleaving of its callers with its
-- reader thread, does to the outside what the contract does: the same notifications and results go
-- to the same callers in the same order, and after it the contract's state is what it sees of the
-- client's. The contract's inputs are the callers with their commands, whether the transport took
-- each, the bytes read while the reader runs, and the end of its loop.
pub session_refines :
    {W : Type 0} (io : Write W) (w : W) (acts : List Act)
    → length acts < u64_bound
    → reacts fresh (inputs io (record { shared = Blocking.new w; reading = true }) acts)
      ≡ (view (session io w acts).0.shared, (session io w acts).1)
unfolding view Sound Waited
session_refines io w acts h =
    steps-reacts io (record { shared = Blocking.new w; reading = true }) acts (omega arith)
      (([], refl, (λ _. refl), tt), λ e. cc)
