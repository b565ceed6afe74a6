-- ===== src/Driver/Blocking/Returns.antt =====
-- src/blocking.rs: every call of `command` returns, once.
use tmuxctl.Base.{
  ◌+◌, ◌<◌, ◌≡◌, refl, ap, ◌∙◌, subst, true, false, List, [], ◌∷◌, ◌++◌, arith, length,
  length-append, Bool-cases, inl, inr,
}
use tmuxctl.Text.Number.{u64_bound}
use tmuxctl.Driver.Blocking.{
  Write, Sender, Client, Effect, ReadResult, bytes, interrupted, failed, Act, call, read, step,
  steps, read_step,
}
use tmuxctl.Driver.Blocking
use tmuxctl.Driver.Blocking.Waiting.{senders}
use tmuxctl.Driver.Blocking.Session.{session, session_drained}
use tmuxctl.Driver.Blocking.Refines.{view, input_of, inputs, session_refines}
use tmuxctl.Driver.Contract.{Input, fresh}
use tmuxctl.Driver.Contract.Counts.{count, returned, askers, reacts-count}

-- The callers of `command`.
abbrev pub callers : List Act → List Sender
callers [] = []
callers (call tx cmd ∷ acts) = tx ∷ callers acts
callers (read r ∷ acts) = callers acts

askers-input_of : (r : ReadResult) (rest : List Input) → askers (input_of r ++ rest) ≡ askers rest
askers-input_of (bytes []) rest = refl
askers-input_of (bytes (b ∷ input)) rest = refl
askers-input_of interrupted rest = refl
askers-input_of failed rest = refl

askers-inputs :
    {W : Type 0} (io : Write W) (c : Client W) (acts : List Act)
    → askers (inputs io c acts) ≡ callers acts
unfolding inputs
askers-inputs io c [] = refl
askers-inputs io c (call tx cmd ∷ acts) =
    ap (◌∷◌ tx) (askers-inputs io (step io c (call tx cmd)).0 acts)
askers-inputs io c (read r ∷ acts) =
    let later = askers-inputs io (step io c (read r)).0 acts in
    elim (Bool-cases c.reading) [
      | inl on ↦ simp on (askers-input_of r _ ∙ later)
      | inr off ↦ simp off later
    ]

-- In a session of a new client with fewer than 2^64 steps, in any interleaving of its callers with
-- its reader thread, a caller's calls of `command` are those that returned and those that still
-- wait: none is lost, and none returns twice.
pub session_returns :
    {W : Type 0} (io : Write W) (w : W) (acts : List Act) (tx : Sender)
    → length acts < u64_bound
    → count tx (returned (session io w acts).1)
        + count tx (senders (session io w acts).0.shared.waiters)
      ≡ count tx (callers acts)
unfolding view
session_returns io w acts tx h =
    let c : Client _ = record { shared = Blocking.new w; reading = true } in
    let total = reacts-count tx fresh (inputs io c acts) in
    subst (λ x. count tx (returned x.1) + count tx x.0.queue ≡ count tx (askers (inputs io c acts)))
      (session_refines io w acts h) (omega (arith, total))
    ∙ ap (count tx) (askers-inputs io c acts)

-- In a session of a new client with fewer than 2^64 steps, in any interleaving of its callers with
-- its reader thread: once the reader thread has left its loop, every call of `command` has
-- returned, and no call twice.
pub session_all_returned :
    {W : Type 0} (io : Write W) (w : W) (acts : List Act) (tx : Sender)
    → length acts < u64_bound
    → (session io w acts).0.reading ≡ false
    → count tx (returned (session io w acts).1) ≡ count tx (callers acts)
session_all_returned io w acts tx h ended =
    let (_, none_left, _) = session_drained io w acts h ended in
    omega (arith, session_returns io w acts tx h, ap (count tx) none_left)

pub steps-append :
    {W : Type 0} (io : Write W) (c : Client W) (xs ys : List Act)
    → (steps io c (xs ++ ys)).0 ≡ (steps io (steps io c xs).0 ys).0
unfolding steps
steps-append io c [] ys = refl
steps-append io c (a ∷ xs) ys = steps-append io (step io c a).0 xs ys

callers-end : (acts : List Act) (r : ReadResult) → callers (acts ++ read r ∷ []) ≡ callers acts
callers-end [] r = refl
callers-end (call tx cmd ∷ acts) r = ap (◌∷◌ tx) (callers-end acts r)
callers-end (read r' ∷ acts) r = callers-end acts r

end_of_stream-ends :
    {W : Type 0} (io : Write W) (c : Client W)
    → (steps io c (read (bytes []) ∷ [])).0.reading ≡ false
unfolding steps step read_step
end_of_stream-ends io c = elim (Bool-cases c.reading) [
  | inl on ↦ simp on refl
  | inr off ↦ simp off refl
]

-- After fewer than 2^64 steps of a new client, in any interleaving of its callers with its reader
-- thread, and the end of the stream, the reader thread has left its loop, and every call of `command`
-- has returned, and no call twice.
pub session_end :
    {W : Type 0} (io : Write W) (w : W) (acts : List Act) (tx : Sender)
    → length acts + 1 < u64_bound
    → let (c, out) = session io w (acts ++ read (bytes []) ∷ []) in
      (c.reading ≡ false) × (count tx (returned out) ≡ count tx (callers acts))
session_end io w acts tx h =
    let start : Client _ = record { shared = Blocking.new w; reading = true } in
    let ended =
      ap (λ (c : Client _). c.reading) (steps-append io start acts (read (bytes []) ∷ []))
      ∙ end_of_stream-ends io (steps io start acts).0 in
    (
      ended,
      session_all_returned io w (acts ++ read (bytes []) ∷ []) tx
            (omega (arith, length-append acts (read (bytes []) ∷ []))) ended
          ∙ ap (count tx) (callers-end acts (bytes [])),
    )
