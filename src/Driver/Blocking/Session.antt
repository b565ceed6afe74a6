-- ===== src/Driver/Blocking/Session.antt =====
-- src/blocking.rs: a whole session, with its callers and its reader thread in any interleaving.
use tmuxctl.Base.{
  ◌+◌, ◌<◌, ◌≡◌, refl, sym, ap, ◌∙◌, true, false, List, [], ◌∷◌, ◌++◌, append_assoc, append-nil,
  arith, Text, length, Bool-cases, inl, inr,
}
use tmuxctl.Text.Number.{u64_bound}
use tmuxctl.Driver.Blocking.{
  Write, Sender, Waiters, Shared, Client, Effect, event, sent, waits, refused, ReadResult,
  interrupted, failed, Act, bytes, read, remove, insert, resolve, deliver, dispatch, resolve_all,
  disconnect, read_step, write_command, command, step, steps, notify,
}
use tmuxctl.Driver.Blocking
use tmuxctl.Driver.Blocking.Waiting.{senders, answered, accepted, answered-append, accepted-append}
use tmuxctl.Driver.Blocking.Moves.{Waited, Sound, Moves, stays, read_step-Moves, command-Moves}

module _ {W : Type 0} (io : Write W) where
  command-stopped :
      (s : Shared W) (tx : Sender) (cmd : Text)
      → (senders s.waiters ≡ []) × (s.connected ≡ false)
      → (senders (command io s tx cmd).0.waiters ≡ []) × ((command io s tx cmd).0.connected ≡ false)
  unfolding command
  command-stopped s tx cmd (none_left, off) = simp off (none_left, refl)

  -- A step of a session: those who wait are answered from the front, new ones wait at the end.
  pub step-Moves :
      (c : Client W) (a : Act)
      → c.shared.engine.next_id + 1 < u64_bound
      → Sound c
      → Sound (step io c a).0 × Moves c.shared ((step io c a).0.shared, (step io c a).1)
  unfolding step read_step Sound Moves
  step-Moves c (Act.call tx cmd) h (w, stopped) =
      let m = command-Moves io c.shared tx cmd h w in
      ((m.0, λ r. command-stopped c.shared tx cmd (stopped r)), m)
  step-Moves c (read r) h (w, stopped) =
      let (m, ends) = read_step-Moves c.shared r w in
      elim (Bool-cases c.reading) [
        | inl on ↦ rw on ((m.0, ends), m)
        | inr off ↦ rw off ((w, (λ r. stopped off)), stays c.shared w)
      ]

  pub steps-Sound :
      (c : Client W) (acts : List Act)
      → c.shared.engine.next_id + length acts < u64_bound
      → Sound c
      → Sound (steps io c acts).0
        × (answered (steps io c acts).1 ++ senders (steps io c acts).0.shared.waiters
            ≡ senders c.shared.waiters ++ accepted (steps io c acts).1)
  unfolding steps Moves
  steps-Sound c [] h sound = (sound, sym (append-nil (senders c.shared.waiters)))
  steps-Sound c (a ∷ acts) h sound =
      let (c', now) = step io c a in
      let (sound', (_, m, lt)) = step-Moves c a (omega arith) sound in
      let (sound'', later) = steps-Sound c' acts (omega arith) sound' in
      let (c'', out) = steps io c' acts in
      (
        sound'',
        ap (λ xs. xs ++ senders c''.shared.waiters) (answered-append now out)
            ∙ append_assoc (answered now) (answered out) (senders c''.shared.waiters)
            ∙ ap (◌++◌ (answered now)) later
            ∙ sym (append_assoc (answered now) (senders c'.shared.waiters) (accepted out))
            ∙ ap (λ xs. xs ++ accepted out) m
            ∙ append_assoc (senders c.shared.waiters) (accepted now) (accepted out)
            ∙ ap (◌++◌ (senders c.shared.waiters)) (sym (accepted-append now out)),
      )

-- A session of a new client on a writer.
abbrev pub session : {W : Type 0} → Write W → W → List Act → Client W × List Effect
session io w acts = steps io (record { shared = Blocking.new w; reading = true }) acts

pub session-Sound :
    {W : Type 0} (io : Write W) (w : W) (acts : List Act)
    → length acts < u64_bound
    → Sound (session io w acts).0
      × (answered (session io w acts).1 ++ senders (session io w acts).0.shared.waiters
          ≡ accepted (session io w acts).1)
unfolding Sound Waited
session-Sound io w acts h =
    steps-Sound io (record { shared = Blocking.new w; reading = true }) acts (omega arith)
      (([], refl, (λ _. refl), tt), λ e. cc)

-- In a session of a new client with fewer than 2^64 steps, in any interleaving of its callers with
-- its reader thread and whatever its transport does, results are sent to the callers that wait, one
-- each and in the order in which they came: those answered and then those still waiting are those
-- that ever waited.
pub session_answered :
    {W : Type 0} (io : Write W) (w : W) (acts : List Act)
    → length acts < u64_bound
    → answered (session io w acts).1 ++ senders (session io w acts).0.shared.waiters
      ≡ accepted (session io w acts).1
session_answered io w acts h = (session-Sound io w acts h).1

-- Once the reader thread of such a session has left its loop, every caller that ever waited has been
-- sent exactly one result, nobody waits, and the client is not connected.
pub session_drained :
    {W : Type 0} (io : Write W) (w : W) (acts : List Act)
    → length acts < u64_bound
    → (session io w acts).0.reading ≡ false
    → (answered (session io w acts).1 ≡ accepted (session io w acts).1)
      × (senders (session io w acts).0.shared.waiters ≡ [])
      × ((session io w acts).0.shared.connected ≡ false)
unfolding Sound
session_drained io w acts h stopped =
    let (sound, all) = session-Sound io w acts h in
    let (none_left, off) = sound.1 stopped in
    let out = (session io w acts).1 in
    (
      sym (append-nil (answered out)) ∙ ap (◌++◌ (answered out)) (sym none_left) ∙ all,
      none_left,
      off,
    )
