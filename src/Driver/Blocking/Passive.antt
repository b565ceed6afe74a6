-- ===== src/Driver/Blocking/Passive.antt =====
-- src/blocking.rs: what the reader thread does to the outside.
use tmuxctl.Base.{
  ◌≡◌, refl, Option, none, some, List, [], ◌∷◌, false, Text, All, All-append, Bool-cases, inl, inr,
}
use tmuxctl.Engine.{CommandResult, Incoming, feed, on_eof}
use tmuxctl.Driver.Blocking.{
  Write, Sender, Shared, Client, Effect, event, sent, waits, refused, ReadResult, bytes,
  interrupted, failed, read, resolve, deliver, dispatch, resolve_all, disconnect, read_step, step,
  notify, remove,
}
use tmuxctl.Driver.Blocking.Waiting.{accepted}

abbrev IsTold : Effect → Type 0
IsTold (event n) = Unit
IsTold (sent tx r) = Unit
IsTold (waits tx cmd) = ⊥
IsTold (refused tx) = ⊥

-- No caller starts to wait, and none is refused.
abbrev pub Passive : List Effect → Type 0
Passive = All IsTold

-- The commands whose callers started to wait, and the callers that were refused.
abbrev pub commands : List Effect → List Text
commands [] = []
commands (event n ∷ out) = commands out
commands (sent tx r ∷ out) = commands out
commands (waits tx cmd ∷ out) = cmd ∷ commands out
commands (refused tx ∷ out) = commands out

abbrev pub refusals : List Effect → List Sender
refusals [] = []
refusals (event n ∷ out) = refusals out
refusals (sent tx r ∷ out) = refusals out
refusals (waits tx cmd ∷ out) = refusals out
refusals (refused tx ∷ out) = tx ∷ refusals out

pub Passive-nothing :
    (out : List Effect)
    → Passive out
    → (commands out ≡ []) × (refusals out ≡ []) × (accepted out ≡ [])
Passive-nothing [] h = (refl, refl, refl)
Passive-nothing (event n ∷ out) (_, h) = Passive-nothing out h
Passive-nothing (sent tx r ∷ out) (_, h) = Passive-nothing out h
Passive-nothing (waits tx cmd ∷ out) (p, h) = absurd p
Passive-nothing (refused tx ∷ out) (p, h) = absurd p

notify-Passive : (found : Option Sender) (r : CommandResult) → Passive (notify found r)
unfolding notify
notify-Passive none r = tt
notify-Passive (some tx) r = (tt, tt)

module _ {W : Type 0} where
  deliver-Passive : (incoming : List Incoming) (s : Shared W) → Passive (deliver incoming s).1
  unfolding deliver resolve
  deliver-Passive [] s = tt
  deliver-Passive (Incoming.notification n ∷ incoming) s = (tt, deliver-Passive incoming s)
  deliver-Passive (Incoming.reply id r ∷ incoming) s =
      let (s', now) = resolve s id r in
      All-append IsTold now (deliver incoming s').1 (notify-Passive (remove id s.waiters).0 r)
        (deliver-Passive incoming s')

  resolve_all-Passive :
      (incoming : List Incoming) (s : Shared W) → Passive (resolve_all incoming s).1
  unfolding resolve_all resolve
  resolve_all-Passive [] s = tt
  resolve_all-Passive (Incoming.notification n ∷ incoming) s = resolve_all-Passive incoming s
  resolve_all-Passive (Incoming.reply id r ∷ incoming) s =
      let (s', now) = resolve s id r in
      All-append IsTold now (resolve_all incoming s').1 (notify-Passive (remove id s.waiters).0 r)
        (resolve_all-Passive incoming s')

  disconnect-Passive : (s : Shared W) → Passive (disconnect s).1
  unfolding disconnect
  disconnect-Passive s =
      let (engine, incoming) = on_eof s.engine in
      resolve_all-Passive incoming (record s { engine = engine; connected = false })

  read_step-Passive : (s : Shared W) (r : ReadResult) → Passive (read_step s r).0.1
  unfolding read_step dispatch
  read_step-Passive s (bytes []) = disconnect-Passive s
  read_step-Passive s (bytes (b ∷ input)) =
      let (engine, incoming) = feed s.engine (b ∷ input) in
      deliver-Passive incoming (record s { engine = engine })
  read_step-Passive s interrupted = tt
  read_step-Passive s failed = disconnect-Passive s

pub read-Passive :
    {W : Type 0} (io : Write W) (c : Client W) (r : ReadResult) → Passive (step io c (read r)).1
unfolding step
read-Passive io c r = elim (Bool-cases c.reading) [
  | inl on ↦ simp on (read_step-Passive c.shared r)
  | inr off ↦ simp off tt
]
