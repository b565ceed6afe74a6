-- ===== src/Driver/Blocking/Events.antt =====
-- src/blocking.rs: what the event receiver gets.
use tmuxctl.Base.{◌<◌, ◌≡◌, refl, sym, ap, ◌∙◌, true, false, List, [], ◌∷◌, ◌++◌, Bytes, length}
use tmuxctl.Text.Number.{u64_bound}
use tmuxctl.Parser.Frame
use tmuxctl.Driver.Blocking.{
  Write, Client, ReadResult, bytes, interrupted, failed, Act, call, read, read_step, step,
}
use tmuxctl.Driver.Blocking
use tmuxctl.Driver.Blocking.Session.{session}
use tmuxctl.Driver.Blocking.Refines.{inputs, session_refines}
use tmuxctl.Driver.Contract.{fresh}
use tmuxctl.Driver.Contract.Events.{events_of, notified, stream_of, reacts-events}

-- What the reader reads until its loop ends: at the end of the stream, or at an error that is no
-- interrupt.
abbrev pub bytes_read : List Act → Bytes
bytes_read [] = []
bytes_read (call tx cmd ∷ acts) = bytes_read acts
bytes_read (read (bytes []) ∷ acts) = []
bytes_read (read (bytes (b ∷ input)) ∷ acts) = (b ∷ input) ++ bytes_read acts
bytes_read (read interrupted ∷ acts) = bytes_read acts
bytes_read (read failed ∷ acts) = []

module _ {W : Type 0} (io : Write W) where
  -- Once the loop has ended, nothing is read.
  stream_of-ended :
      (c : Client W) (acts : List Act) → c.reading ≡ false → stream_of (inputs io c acts) ≡ []
  unfolding inputs step
  stream_of-ended c [] off = refl
  stream_of-ended c (call tx cmd ∷ acts) off = stream_of-ended (step io c (call tx cmd)).0 acts off
  stream_of-ended c (read r ∷ acts) off = simp off (stream_of-ended c acts off)

  stream_of-inputs :
      (c : Client W) (acts : List Act)
      → c.reading ≡ true
      → stream_of (inputs io c acts) ≡ bytes_read acts
  unfolding inputs step read_step
  stream_of-inputs c [] on = refl
  stream_of-inputs c (call tx cmd ∷ acts) on = stream_of-inputs (step io c (call tx cmd)).0 acts on
  stream_of-inputs c (read (bytes []) ∷ acts) on =
      let later =
        stream_of-ended (record { shared = (Blocking.disconnect c.shared).0; reading = false }) acts
          refl in
      simp on later
  stream_of-inputs c (read (bytes (b ∷ input)) ∷ acts) on =
      let later =
        stream_of-inputs
          (record { shared = (Blocking.dispatch c.shared (b ∷ input)).0; reading = true }) acts
          refl in
      simp on (ap (λ t. (b ∷ input) ++ t) later)
  stream_of-inputs c (read interrupted ∷ acts) on =
      let later = stream_of-inputs (record { shared = c.shared; reading = true }) acts refl in
      simp on later
  stream_of-inputs c (read failed ∷ acts) on =
      let later =
        stream_of-ended (record { shared = (Blocking.disconnect c.shared).0; reading = false }) acts
          refl in
      simp on later

-- In a session of a new client with fewer than 2^64 steps, in any interleaving of its callers with
-- its reader thread and however the reads cut the stream, the event receiver gets exactly the
-- notifications that the parser reports in the complete lines read until the loop ends, each once
-- and in order.
pub session_events :
    {W : Type 0} (io : Write W) (w : W) (acts : List Act)
    → length acts < u64_bound
    → events_of (session io w acts).1 ≡ notified Frame.new (bytes_read acts)
session_events io w acts h =
    let start : Client _ = record { shared = Blocking.new w; reading = true } in
    ap (λ x. events_of x.1) (sym (session_refines io w acts h))
    ∙ reacts-events fresh (inputs io start acts) tt
    ∙ ap (notified Frame.new) (stream_of-inputs io start acts refl)
