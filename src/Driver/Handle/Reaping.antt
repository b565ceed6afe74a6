-- ===== src/Driver/Handle/Reaping.antt =====
-- src/tokio_rt.rs, src/smol_rt.rs: calls while the owner task waits for its child, and a client without
-- a child.
use tmuxctl.Base.{
  ◌≡◌, refl, sym, ap, ◌∙◌, true, false, Option, none, some, List, [], ◌∷◌, ◌++◌, map, append_assoc,
  append-nil, Bool-cases, inl, inr,
}
use tmuxctl.Driver.Blocking.{Write}
use tmuxctl.Driver.Handle.{
  Request, Channel, DropsAll, Ends, Act, call, drop_handle, receive, read, refuse, from_parts,
  command, step, steps,
}
use tmuxctl.Driver.Handle.Calls.{calls}
use tmuxctl.Driver.Handle.Child.{
  Life, act, exits, with_transport, client_over, close, step_life, steps_life, childless,
  step-childless, command-running, advance_life, received_life, steps_life-last,
}
use tmuxctl.Driver.Owner.{Turn, request, turn}

module _ {W Q : Type 0} (io : Write W) (ch : Channel Q) where
  steps-childless :
      (s : Ends W Q) (acts : List Act)
      → steps_life io ch (record { ends = s; looping = s.running; child = false }) (map act acts)
        ≡ childless io ch (steps io ch s acts)
  unfolding steps_life steps
  steps-childless s [] = refl
  steps-childless s (a ∷ acts) =
      let (s', now) = step io ch s a in rw (step-childless io ch s a, steps-childless s' acts) refl

  -- A client over an injected transport is its two ends.
  with_transport-steps :
      {E : Type 0} (w : W) (ev_rx : E) (acts : List Act)
      → steps_life io ch (with_transport io ch w ev_rx).life (map act acts)
        ≡ childless io ch (steps io ch (from_parts io ch w) acts)
  unfolding with_transport client_over
  with_transport-steps w ev_rx acts = steps-childless (from_parts io ch w) acts

  -- The loop has ended, and the task waits for its child.
  unfoldable Waiting : Life W Q → Type 0
  Waiting l = (l.looping ≡ false) × (l.child ≡ true) × (l.ends.running ≡ true)

  step-Waiting :
      (l : Life W Q) (a : Act)
      → Waiting l
      → ((step_life io ch l (act a)).1 ≡ [])
        × Waiting (step_life io ch l (act a)).0
        × ((acts : List Act)
            → ch.contents (step_life io ch l (act a)).0.ends.queue
                ++ calls (step_life io ch l (act a)).0.ends.held acts
              ≡ ch.contents l.ends.queue ++ calls l.ends.held (a ∷ acts))
  unfolding step_life command calls Waiting
  step-Waiting l (call tx cmd) (off, there, on) = elim (Bool-cases l.ends.held) [
    | inr dropped ↦ simp dropped (refl, (off, there, on), λ acts. refl)
    | inl alive ↦
        simp (alive, on)
          (
            refl,
            (off, there, refl),
            λ acts.
                ap (λ rs. rs ++ calls true acts) (ch.contents_send (cmd, tx) l.ends.queue)
                ∙ append_assoc (ch.contents l.ends.queue) ((cmd, tx) ∷ []) (calls true acts),
          )
  ]
  step-Waiting l drop_handle (off, there, on) = (refl, (off, there, on), λ acts. refl)
  step-Waiting l receive (off, there, on) = simp off (refl, (refl, there, on), λ acts. refl)
  step-Waiting l (read r) (off, there, on) = simp off (refl, (refl, there, on), λ acts. refl)

  steps-Waiting :
      (l : Life W Q) (acts : List Act)
      → Waiting l
      → ((steps_life io ch l (map act acts)).1 ≡ [])
        × Waiting (steps_life io ch l (map act acts)).0
        × (ch.contents (steps_life io ch l (map act acts)).0.ends.queue
            ≡ ch.contents l.ends.queue ++ calls l.ends.held acts)
  unfolding steps_life
  steps-Waiting l [] waiting =
      (refl, waiting, unfold calls in sym (append-nil (ch.contents l.ends.queue)))
  steps-Waiting l (a ∷ acts) waiting =
      let (l', now) = step_life io ch l (act a) in
      let (quiet, waiting', front) = step-Waiting l a waiting in
      let (quiet', waiting'', queue) = steps-Waiting l' acts waiting' in
      (rw (quiet, quiet') refl, waiting'', queue ∙ front acts)

module _ {W Q : Type 0} (io : Write W) (ch : Channel Q) where
  -- The child has not exited, and the task has not ended.
  unfoldable Alive : Life W Q → Type 0
  Alive l = (l.child ≡ true) × (l.ends.running ≡ true)

  advance-Alive : (l : Life W Q) (q : Q) (u : Turn) → Alive l → Alive (advance_life io ch l q u).0
  unfolding advance_life Alive
  advance-Alive l q u (there, on) = elim (Bool-cases (turn io l.ends.task u).1) [
    | inl more ↦ simp more (there, on)
    | inr less ↦ simp (less, there) (refl, on)
  ]

  received-Alive :
      (l : Life W Q) (r : Option Request × Q) → Alive l → Alive (received_life io ch l r).0
  unfolding received_life
  received-Alive l (some r, q) alive = advance-Alive l q (request (some r)) alive
  received-Alive l (none, q) alive = elim (Bool-cases l.ends.held) [
    | inl held ↦ simp held alive
    | inr dropped ↦ simp dropped (advance-Alive l q (request none) alive)
  ]

  step-Alive : (l : Life W Q) (a : Act) → Alive l → Alive (step_life io ch l (act a)).0
  unfolding step_life Alive
  step-Alive l (call tx cmd) (there, on) = (there, command-running io ch l.ends tx cmd ∙ on)
  step-Alive l drop_handle alive = alive
  step-Alive l receive alive = elim (Bool-cases l.looping) [
    | inl loops ↦ simp loops (received-Alive l (ch.recv l.ends.queue) alive)
    | inr off ↦ simp off alive
  ]
  step-Alive l (read r) alive = elim (Bool-cases l.looping) [
    | inl loops ↦ simp loops (advance-Alive l l.ends.queue (Turn.read r) alive)
    | inr off ↦ simp off alive
  ]

  steps-Alive :
      (l : Life W Q) (acts : List Act) → Alive l → Alive (steps_life io ch l (map act acts)).0
  unfolding steps_life
  steps-Alive l [] alive = alive
  steps-Alive l (a ∷ acts) alive =
      steps-Alive (step_life io ch l (act a)).0 acts (step-Alive l a alive)

  -- A read that fails ends the loop.
  pub read_error-looping : (l : Life W Q) → (step_life io ch l (act (read none))).0.looping ≡ false
  unfolding step_life advance_life turn close
  read_error-looping l = elim (Bool-cases l.looping) [
    | inr off ↦ simp off refl
    | inl loops ↦ elim (Bool-cases l.child) [
      | inl there ↦ simp (loops, there) refl
      | inr gone ↦ simp (loops, gone) refl
    ]
  ]

-- A new client over a child process, after any acts of its callers, its handle and its task and a read
-- that then fails, as long as the child has not exited: the task has not ended and no call of
-- `command` returns, in any interleaving of further calls and the drop of the handle; and when the
-- child exits, with a channel that drops what its receiver did not take, every request in the channel
-- and every call made meanwhile is refused, in order, and the task has ended.
pub reaping_refuses :
    {W Q E : Type 0} (io : Write W) (ch : Channel Q) (w : W) (ev_rx : E) (before acts : List Act)
    → DropsAll ch
    → let start = (client_over io ch w true ev_rx).life in
      let l = (steps_life io ch start (map act before ++ act (read none) ∷ [])).0 in
      let (l', out) = steps_life io ch l (map act acts) in
      let (l'', last) = step_life io ch l' exits in
      (out ≡ [])
      × (l'.ends.running ≡ true)
      × (last ≡ refuse (ch.contents l.ends.queue ++ calls l.ends.held acts))
      × (l''.ends.running ≡ false)
unfolding Waiting Alive step_life close DropsAll client_over
reaping_refuses io ch w ev_rx before acts drops =
    let start = (client_over io ch w true ev_rx).life in
    let busy = (steps_life io ch start (map act before)).0 in
    let l = (step_life io ch busy (act (read none))).0 in
    let l' = (steps_life io ch l (map act acts)).0 in
    let (there, on) =
      step-Alive io ch busy (read none) (steps-Alive io ch start before (refl, refl)) in
    let (quiet, (off', there', on'), queue) =
      steps-Waiting io ch l acts (read_error-looping io ch busy, there, on) in
    let (dropped, left) = ch.close l'.ends.queue in
    let all : dropped ≡ ch.contents l'.ends.queue =
      sym (append-nil dropped)
      ∙ ap (◌++◌ dropped) (sym (drops l'.ends.queue))
      ∙ ch.close_splits l'.ends.queue in
    let same : (steps_life io ch start (map act before ++ act (read none) ∷ [])).0 ≡ l =
      steps_life-last io ch start (map act before) (act (read none)) in
    rw same (quiet, on', simp (there', off') (ap refuse (all ∙ queue)), simp (there', off') refl)
