-- ===== src/Driver/Blocking/Phases.antt =====
-- src/blocking.rs: the life of a client, which is connected, disconnected by a write that failed, or over
-- with its reader thread.
use tmuxctl.Base.{
  ◌≡◌, refl, ap, ◌∙◌, false, List, [], ◌∷◌, ◌++◌, Text, if◌then◌else◌, Bool-cases, inl, inr,
}
use tmuxctl.Driver.Blocking.{
  Write, Sender, Client, Effect, event, sent, waits, refused, ReadResult, Act, call, read,
  read_step, write_command, command, step, steps,
}
use tmuxctl.Driver.Blocking.Written.{Quiet, read_step-Quiet}
use tmuxctl.Driver.Blocking.Dropped.{step-writer}
use tmuxctl.Driver.Blocking.Passive.{refusals, Passive-nothing, read-Passive}
use tmuxctl.Driver.Blocking.Returns.{callers}

pub data Phase : Type 0 where
  live : Phase
  broken : Phase
  over : Phase

abbrev pub phase : {W : Type 0} → Client W → Phase
phase c = if c.reading then (if c.shared.connected then live else broken) else over

-- How the life of a client goes on, in one step and in many.
infix 40 ◌⇝◌ ◌⇝*◌
pub data ◌⇝◌ : Phase → Phase → Type 0 where
  stays : {p : Phase} → p ⇝ p
  breaks : live ⇝ broken
  ends : {p : Phase} → p ⇝ over

pub data ◌⇝*◌ : Phase → Phase → Type 0 where
  here : {p : Phase} → p ⇝* p
  onwards : {p q r : Phase} → p ⇝ q → q ⇝* r → p ⇝* r

module _ {W : Type 0} (io : Write W) where
  call-⇝ : (c : Client W) (tx : Sender) (cmd : Text) → phase c ⇝ phase (step io c (call tx cmd)).0
  unfolding step command
  call-⇝ c tx cmd = elim (Bool-cases c.reading) [
    | inr off ↦ simp off stays
    | inl on ↦ elim (Bool-cases c.shared.connected) [
      | inr gone ↦ simp (on, gone) stays
      | inl there ↦ elim (Bool-cases (write_command io c.shared.writer cmd).1) [
        | inl fine ↦ simp (on, there, fine) stays
        | inr bad ↦ simp (on, there, bad) breaks
      ]
    ]
  ]

  read-⇝ : (c : Client W) (r : ReadResult) → phase c ⇝ phase (step io c (read r)).0
  unfolding step Quiet
  read-⇝ c r =
      let (_, _, kept) = read_step-Quiet c.shared r in
      elim (Bool-cases c.reading) [
        | inr off ↦ simp off stays
        | inl on ↦ elim (Bool-cases (read_step c.shared r).1) [
          | inr ended ↦ simp (on, ended) ends
          | inl goes_on ↦ elim (Bool-cases (read_step c.shared r).0.0.connected) [
            | inl there ↦ simp (on, goes_on, there, kept there) stays
            | inr gone ↦ elim (Bool-cases c.shared.connected) [
              | inl was ↦ simp (on, goes_on, gone, was) breaks
              | inr was ↦ simp (on, goes_on, gone, was) stays
            ]
          ]
        ]
      ]

  step-⇝ : (c : Client W) (a : Act) → phase c ⇝ phase (step io c a).0
  step-⇝ c (call tx cmd) = call-⇝ c tx cmd
  step-⇝ c (read r) = read-⇝ c r

refusals-append : (xs ys : List Effect) → refusals (xs ++ ys) ≡ refusals xs ++ refusals ys
refusals-append [] ys = refl
refusals-append (event n ∷ xs) ys = refusals-append xs ys
refusals-append (sent tx r ∷ xs) ys = refusals-append xs ys
refusals-append (waits tx cmd ∷ xs) ys = refusals-append xs ys
refusals-append (refused tx ∷ xs) ys = ap (◌∷◌ tx) (refusals-append xs ys)

module _ {W : Type 0} (io : Write W) where
  pub read-gone :
      (c : Client W) (r : ReadResult)
      → c.shared.connected ≡ false
      → (step io c (read r)).0.shared.connected ≡ false
  unfolding Quiet step
  read-gone c r gone =
      let (_, _, kept) = read_step-Quiet c.shared r in
      elim (Bool-cases c.reading) [
        | inr off ↦ simp off gone
        | inl on ↦ elim (Bool-cases (read_step c.shared r).0.0.connected) [
          | inr left ↦ simp on left
          | inl there ↦ absurd (cc (gone, kept there))
        ]
      ]

  Closed : Client W → List Act → Client W × List Effect → Type 0
  Closed c acts (c', out) =
      (c'.shared.connected ≡ false)
      × (c'.shared.writer ≡ c.shared.writer)
      × (refusals out ≡ callers acts)

  step-Closed :
      (c : Client W) (a : Act) → c.shared.connected ≡ false → Closed c (a ∷ []) (step io c a)
  unfolding Closed
  step-Closed c (call tx cmd) gone = unfold step command in simp gone (refl, refl, refl)
  step-Closed c (read r) gone = (
    read-gone c r gone,
    step-writer io c r,
    (Passive-nothing (step io c (read r)).1 (read-Passive io c r)).1,
  )

-- From any state in which the client is not connected, whether a write failed or the stream ended, and
-- whatever its callers and its reader thread do: it is never connected again, its life only goes on
-- to its end, nothing more is written, and every call is refused, in order, while those who wait may
-- still be answered.
pub disconnected_stays :
    {W : Type 0} (io : Write W) (c : Client W) (acts : List Act)
    → c.shared.connected ≡ false
    → let (c', out) = steps io c acts in
      (c'.shared.connected ≡ false)
      × (phase c ⇝* phase c')
      × (c'.shared.writer ≡ c.shared.writer)
      × (refusals out ≡ callers acts)
unfolding steps Closed
disconnected_stays io c [] gone = (gone, here, refl, refl)
disconnected_stays io c (a ∷ acts) gone =
    let (c', now) = step io c a in
    let (gone', same, told) = step-Closed io c a gone in
    let (gone'', on, same', told') = disconnected_stays io c' acts gone' in
    (
      gone'',
      onwards (step-⇝ io c a) on,
      same' ∙ same,
      refusals-append now (steps io c' acts).1 ∙ rw (told, told') (joined a acts),
    )
  where
    joined : (a : Act) (acts : List Act) → callers (a ∷ []) ++ callers acts ≡ callers (a ∷ acts)
    joined (call tx cmd) acts = refl
    joined (read r) acts = refl
