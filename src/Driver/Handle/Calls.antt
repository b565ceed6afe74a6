-- ===== src/Driver/Handle/Calls.antt =====
-- src/tokio_rt.rs, src/smol_rt.rs: who calls `command`.
use tmuxctl.Base.{
  ◌≡◌, refl, ap, ◌∙◌, Bool, false, Option, none, some, List, [], ◌∷◌, ◌++◌, arith, if◌then◌else◌,
  Bool-cases, inl, inr,
}
use tmuxctl.Driver.Blocking.{Write, Sender}
use tmuxctl.Driver.Owner.{Turn, request}
use tmuxctl.Driver.Contract.Counts.{returned}
use tmuxctl.Driver.Handle.{
  Request, Channel, Ends, Act, call, drop_handle, receive, read, refuse, command, advance, received,
  step,
}

-- The callers of the requests.
abbrev pub callers : List Request → List Sender
callers [] = []
callers ((cmd, tx) ∷ requests) = tx ∷ callers requests

pub callers-append : (xs ys : List Request) → callers (xs ++ ys) ≡ callers xs ++ callers ys
callers-append [] ys = refl
callers-append ((cmd, tx) ∷ xs) ys = ap (◌∷◌ tx) (callers-append xs ys)

pub returned-refuse : (rs : List Request) → returned (refuse rs) ≡ callers rs
returned-refuse [] = refl
returned-refuse ((cmd, tx) ∷ rs) = ap (◌∷◌ tx) (returned-refuse rs)

-- The calls of `command`, as long as the handle is there to call it on.
unfoldable pub calls : Bool → List Act → List Request
calls held [] = []
calls held (call tx cmd ∷ acts) =
    let rest = calls held acts in if held then (cmd, tx) ∷ rest else rest
calls held (drop_handle ∷ acts) = calls false acts
calls held (receive ∷ acts) = calls held acts
calls held (read r ∷ acts) = calls held acts

-- The calls of one step.
unfoldable pub asked : {W Q : Type 0} → Ends W Q → Act → List Request
asked s (call tx cmd) = if s.held then (cmd, tx) ∷ [] else []
asked s drop_handle = []
asked s receive = []
asked s (read r) = []

module _ {W Q : Type 0} (io : Write W) (ch : Channel Q) where
  advance-held : (s : Ends W Q) (q : Q) (u : Turn) → (advance io ch s q u).0.held ≡ s.held
  unfolding advance
  advance-held s q u = ground arith

  received-held : (s : Ends W Q) (r : Option Request × Q) → (received io ch s r).0.held ≡ s.held
  unfolding received
  received-held s (some r, q) = advance-held s q (request (some r))
  received-held s (none, q) = elim (Bool-cases s.held) [
    | inl alive ↦ simp alive refl
    | inr dropped ↦ simp dropped (advance-held s q (request none) ∙ dropped)
  ]

  pub calls-step :
      (s : Ends W Q) (a : Act) (acts : List Act)
      → calls s.held (a ∷ acts) ≡ asked s a ++ calls (step io ch s a).0.held acts
  unfolding calls asked step command
  calls-step s (call tx cmd) acts = ground arith
  calls-step s drop_handle acts = refl
  calls-step s receive acts = elim (Bool-cases s.running) [
    | inl on ↦ simp (on, received-held s (ch.recv s.queue)) refl
    | inr off ↦ simp off refl
  ]
  calls-step s (read r) acts = elim (Bool-cases s.running) [
    | inl on ↦ simp (on, advance-held s s.queue (Turn.read r)) refl
    | inr off ↦ simp off refl
  ]
