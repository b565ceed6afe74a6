-- ===== src/Driver/Blocking/Poison.antt =====
-- src/blocking.rs: the client in a build with debug assertions, where `feed` may panic under the lock:
-- the reader thread unwinds, and the lock is poisoned.
use tmuxctl.Base.{
  ℕ, ◌≡◌, ◌⊎◌, refl, ap, ◌∙◌, Bool, true, false, Option, none, some, List, [], ◌∷◌, ◌++◌, map,
  Bytes, if◌then◌else◌, Bool-cases, inl, inr,
}
use tmuxctl.Engine.{Engine, Incoming, feed}
use tmuxctl.Engine.Framing.{split_lines}
use tmuxctl.Engine.Fifo.{control_replies}
use tmuxctl.Engine.Tripwire.{feed_debug, feed_debug_lem, increasing, numbers}
use tmuxctl.Driver.Blocking.{
  Write, Client, Effect, refused, bytes, interrupted, failed, Act, call, read, deliver, dispatch,
  read_step, step, steps,
}
use tmuxctl.Driver.Blocking.Returns.{callers}

-- The numbers of the control replies that a chunk completes.
abbrev pub numbers_in : Engine → Bytes → List ℕ
numbers_in e input = numbers (control_replies e.parser (split_lines (e.buf ++ input)).0)

-- The client, and whether its lock is poisoned.
pub record Locked (W : Type 0) : Type 0 where
  pub client : Client W
  pub poisoned : Bool

module _ {W : Type 0} (io : Write W) (wreck : Engine → Engine) where
  -- `dispatch` with what `feed` returns. A panic leaves some engine, `wreck` of the one before; no
  -- outcome is delivered, for `feed` has not returned, and `disconnect` is not reached.
  unfoldable pub dispatch_debug :
      Locked W → Option (Engine × List Incoming) → Locked W × List Effect
  dispatch_debug l none = (
    record {
      client = record {
        shared = record l.client.shared { engine = wreck l.client.shared.engine };
        reading = false;
      };
      poisoned = true;
    },
    [],
  )
  dispatch_debug l (some (engine, incoming)) =
      let (shared, out) = deliver incoming (record l.client.shared { engine = engine }) in
      (record l { client = record { shared = shared; reading = true } }, out)

  unlocked : Locked W → Act → Locked W × List Effect
  unlocked l a = let (client, out) = step io l.client a in (record l { client = client }, out)

  -- `command` reports a poisoned lock as a disconnect; the reader thread takes the lock all the same.
  unfoldable pub step_debug : Locked W → Act → Locked W × List Effect
  unfolding unlocked
  step_debug l (call tx cmd) = if l.poisoned then (l, refused tx ∷ []) else unlocked l (call tx cmd)
  step_debug l (read (bytes [])) = unlocked l (read (bytes []))
  step_debug l (read (bytes (b ∷ input))) =
      if l.client.reading
      then dispatch_debug l (feed_debug l.client.shared.engine (b ∷ input))
      else (l, [])
  step_debug l (read interrupted) = unlocked l (read interrupted)
  step_debug l (read failed) = unlocked l (read failed)

  unfoldable pub steps_debug : Locked W → List Act → Locked W × List Effect
  steps_debug l [] = (l, [])
  steps_debug l (a ∷ acts) =
      let (l', now) = step_debug l a in
      let (l'', later) = steps_debug l' acts in (l'', now ++ later)

  -- A client after a panic in its reader thread.
  unfoldable pub Poisoned : Locked W → Type 0
  Poisoned l = (l.poisoned ≡ true) × (l.client.reading ≡ false)

  step-Poisoned :
      (l : Locked W) (a : Act)
      → Poisoned l
      → ((step_debug l a).0 ≡ l) × ((step_debug l a).1 ≡ map refused (callers (a ∷ [])))
  unfolding step_debug Poisoned step
  step-Poisoned l (call tx cmd) (bad, off) = simp bad (refl, refl)
  step-Poisoned l (read (bytes [])) (bad, off) = simp off (refl, refl)
  step-Poisoned l (read (bytes (b ∷ input))) (bad, off) = simp off (refl, refl)
  step-Poisoned l (read interrupted) (bad, off) = simp off (refl, refl)
  step-Poisoned l (read failed) (bad, off) = simp off (refl, refl)

  steps-Poisoned :
      (l : Locked W) (acts : List Act)
      → Poisoned l
      → ((steps_debug l acts).0 ≡ l) × ((steps_debug l acts).1 ≡ map refused (callers acts))
  unfolding steps_debug
  steps-Poisoned l [] bad = (refl, refl)
  steps-Poisoned l (a ∷ acts) bad =
      let (same, now) = step-Poisoned l a bad in
      let (last, later) = steps-Poisoned l acts bad in
      (ap (λ k. (steps_debug k acts).0) same ∙ last, rw (now, same, later) (joined a acts))
    where
      joined :
          (a : Act) (acts : List Act)
          → map refused (callers (a ∷ [])) ++ map refused (callers acts)
            ≡ map refused (callers (a ∷ acts))
      joined (call tx cmd) acts = refl
      joined (read r) acts = refl

  panics :
      (e : Engine) (input : Bytes)
      → increasing e.last_number (numbers_in e input) ≡ false
      → feed_debug e input ≡ none
  panics e input h = rw (feed_debug_lem e input, h) refl

  -- If a chunk brings control replies whose numbers do not increase strictly, then in a build with
  -- debug assertions the reader thread panics, every later call of `command` is refused, and nothing
  -- else is ever sent: whoever waited for a reply goes on waiting.
  pub panic_strands :
      (l : Locked W) (b : ℕ) (input : Bytes) (acts : List Act)
      → l.client.reading ≡ true
      → increasing l.client.shared.engine.last_number
          (numbers_in l.client.shared.engine (b ∷ input))
        ≡ false
      → let (l', out) = steps_debug l (read (bytes (b ∷ input)) ∷ acts) in
        (out ≡ map refused (callers acts))
        × (l'.client.shared.waiters ≡ l.client.shared.waiters)
        × (l'.client.reading ≡ false)
  unfolding steps_debug step_debug dispatch_debug
  panic_strands l b input acts on h =
      let l' = dispatch_debug l none in
      let (last, later) = steps-Poisoned l'.0 acts (unfold Poisoned in (refl, refl)) in
      rw (on, panics l.client.shared.engine (b ∷ input) h)
        (later, ap (λ k. k.client.shared.waiters) last, ap (λ k. k.client.reading) last)

  feed_debug-same :
      (e : Engine) (input : Bytes)
      → (feed_debug e input ≡ some (feed e input)) ⊎ (feed_debug e input ≡ none)
  feed_debug-same e input = elim (Bool-cases (increasing e.last_number (numbers_in e input))) [
    | inl fine ↦ inl (rw (feed_debug_lem e input, fine) refl)
    | inr bad ↦ inr (panics e input bad)
  ]

  -- A step of the client in a release build, its lock not poisoned.
  released : Client W × List Effect → Locked W × List Effect
  released (c, out) = (record { client = c; poisoned = false }, out)

  step-released :
      (c : Client W) (a : Act)
      → (step_debug (record { client = c; poisoned = false }) a ≡ released (step io c a))
        ⊎ ((step_debug (record { client = c; poisoned = false }) a).0.poisoned ≡ true)
  unfolding step_debug released step read_step dispatch
  step-released c (call tx cmd) = inl refl
  step-released c (read (bytes [])) = inl refl
  step-released c (read (bytes (b ∷ input))) = elim (Bool-cases c.reading) [
    | inr off ↦ simp off (inl refl)
    | inl on ↦ elim (feed_debug-same c.shared.engine (b ∷ input)) [
      | inl fine ↦ simp (on, fine) (inl (unfold dispatch_debug in refl))
      | inr bad ↦ simp (on, bad) (inr (unfold dispatch_debug in refl))
    ]
  ]
  step-released c (read interrupted) = inl refl
  step-released c (read failed) = inl refl

  poisoned_stays : (l : Locked W) (a : Act) → l.poisoned ≡ true → (step_debug l a).0.poisoned ≡ true
  unfolding step_debug
  poisoned_stays l (call tx cmd) bad = simp bad refl
  poisoned_stays l (read (bytes [])) bad = bad
  poisoned_stays l (read (bytes (b ∷ input))) bad = elim (Bool-cases l.client.reading) [
    | inr off ↦ simp off bad
    | inl on ↦ elim (feed_debug-same l.client.shared.engine (b ∷ input)) [
      | inl fine ↦ simp (on, fine) (unfold dispatch_debug in bad)
      | inr panic ↦ simp (on, panic) (unfold dispatch_debug in refl)
    ]
  ]
  poisoned_stays l (read interrupted) bad = bad
  poisoned_stays l (read failed) bad = bad

  all_poisoned :
      (l : Locked W) (acts : List Act) → l.poisoned ≡ true → (steps_debug l acts).0.poisoned ≡ true
  unfolding steps_debug
  all_poisoned l [] bad = bad
  all_poisoned l (a ∷ acts) bad = all_poisoned (step_debug l a).0 acts (poisoned_stays l a bad)

  -- A build with debug assertions does what a release build does, in any interleaving of callers and
  -- reader, unless its lock is poisoned.
  pub steps-released :
      (c : Client W) (acts : List Act)
      → (steps_debug (record { client = c; poisoned = false }) acts
          ≡ (record { client = (steps io c acts).0; poisoned = false }, (steps io c acts).1))
        ⊎ ((steps_debug (record { client = c; poisoned = false }) acts).0.poisoned ≡ true)
  unfolding steps_debug steps released
  steps-released c [] = inl refl
  steps-released c (a ∷ acts) =
      let l : Locked W = record { client = c; poisoned = false } in
      elim (step-released c a) [
        | inr bad ↦ inr (all_poisoned (step_debug l a).0 acts bad)
        | inl same ↦ rw same (elim (steps-released (step io c a).0 acts) [
          | inl later ↦ inl (rw later refl)
          | inr bad ↦ inr bad
        ])
      ]
