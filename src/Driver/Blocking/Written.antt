-- ===== src/Driver/Blocking/Written.antt =====
-- src/blocking.rs: what the callers' commands put on the wire.
use tmuxctl.Base.{
  ◌≡◌, refl, sym, ap, ◌∙◌, true, false, Option, none, some, List, [], ◌∷◌, ◌++◌, append_assoc,
  append-nil, Text, Bytes, Bool-cases, inl, inr,
}
use tmuxctl.Text.Utf8.{as_bytes}
use tmuxctl.Engine.{CommandId, CommandResult, Incoming, feed, on_eof}
use tmuxctl.Driver.Blocking.{
  Write, Sender, Shared, Client, Effect, event, sent, waits, refused, ReadResult, bytes,
  interrupted, failed, Act, call, read, resolve, deliver, dispatch, resolve_all, disconnect,
  read_step, write_command, command, step, steps, notify, remove, and_then,
}
use tmuxctl.Driver.Blocking
use tmuxctl.Driver.Blocking.Session.{session}

-- The lines of the commands whose callers started to wait, in order.
abbrev pub lines_of : List Effect → Bytes
lines_of [] = []
lines_of (event n ∷ out) = lines_of out
lines_of (sent tx r ∷ out) = lines_of out
lines_of (waits tx cmd ∷ out) = as_bytes cmd ++ b'\n' ∷ lines_of out
lines_of (refused tx ∷ out) = lines_of out

pub lines_of-append : (xs ys : List Effect) → lines_of (xs ++ ys) ≡ lines_of xs ++ lines_of ys
lines_of-append [] ys = refl
lines_of-append (event n ∷ xs) ys = lines_of-append xs ys
lines_of-append (sent tx r ∷ xs) ys = lines_of-append xs ys
lines_of-append (waits tx cmd ∷ xs) ys =
    ap (λ t. as_bytes cmd ++ b'\n' ∷ t) (lines_of-append xs ys)
    ∙ sym (append_assoc (as_bytes cmd) (b'\n' ∷ lines_of xs) (lines_of ys))
lines_of-append (refused tx ∷ xs) ys = lines_of-append xs ys

pub notify-lines : (found : Option Sender) (r : CommandResult) → lines_of (notify found r) ≡ []
unfolding notify
notify-lines none r = refl
notify-lines (some tx) r = refl

module _ {W : Type 0} where
  -- The step left the writer alone, wrote no command and did not connect the client again.
  unfoldable pub Quiet : Shared W → Shared W × List Effect → Type 0
  Quiet s (s', out) =
      (s'.writer ≡ s.writer) × (lines_of out ≡ []) × (s'.connected ≡ true → s.connected ≡ true)

  Quiet-trans :
      (s s' : Shared W) (now : List Effect) (next : Shared W × List Effect)
      → Quiet s (s', now)
      → Quiet s' next
      → Quiet s (next.0, now ++ next.1)
  unfolding Quiet
  Quiet-trans s s' now (s'', later) (a, b, c) (a', b', c') =
      (a' ∙ a, lines_of-append now later ∙ cc (b, b'), λ h. c (c' h))

  resolve-Quiet : (s : Shared W) (id : CommandId) (r : CommandResult) → Quiet s (resolve s id r)
  unfolding resolve Quiet
  resolve-Quiet s id r = (refl, notify-lines (remove id s.waiters).0 r, λ h. h)

  pub deliver-Quiet : (incoming : List Incoming) (s : Shared W) → Quiet s (deliver incoming s)
  unfolding deliver Quiet
  deliver-Quiet [] s = (refl, refl, λ h. h)
  deliver-Quiet (Incoming.notification n ∷ incoming) s = deliver-Quiet incoming s
  deliver-Quiet (Incoming.reply id r ∷ incoming) s =
      let (s', now) = resolve s id r in
      Quiet-trans s s' now (deliver incoming s') (resolve-Quiet s id r) (deliver-Quiet incoming s')

  resolve_all-Quiet : (incoming : List Incoming) (s : Shared W) → Quiet s (resolve_all incoming s)
  unfolding resolve_all Quiet
  resolve_all-Quiet [] s = (refl, refl, λ h. h)
  resolve_all-Quiet (Incoming.notification n ∷ incoming) s = resolve_all-Quiet incoming s
  resolve_all-Quiet (Incoming.reply id r ∷ incoming) s =
      let (s', now) = resolve s id r in
      Quiet-trans s s' now (resolve_all incoming s') (resolve-Quiet s id r)
        (resolve_all-Quiet incoming s')

  disconnect-Quiet : (s : Shared W) → Quiet s (disconnect s)
  unfolding disconnect Quiet
  disconnect-Quiet s =
      let (engine, incoming) = on_eof s.engine in
      let (a, b, c) =
        resolve_all-Quiet incoming (record s { engine = engine; connected = false }) in
      (a, b, λ h. let e = c h in cc)

  pub read_step-Quiet : (s : Shared W) (r : ReadResult) → Quiet s (read_step s r).0
  unfolding read_step dispatch Quiet
  read_step-Quiet s (bytes []) = disconnect-Quiet s
  read_step-Quiet s (bytes (b ∷ input)) =
      let (engine, incoming) = feed s.engine (b ∷ input) in
      deliver-Quiet incoming (record s { engine = engine })
  read_step-Quiet s interrupted = (refl, refl, λ h. h)
  read_step-Quiet s failed = disconnect-Quiet s

module _ {W : Type 0} (io : Write W) (written : W → Bytes)
    (write_all-written : (w : W) (b : Bytes)
      → (io.write_all w b).1 ≡ true
      → written (io.write_all w b).0 ≡ written w ++ b)
    (flush-written : (w : W) → written (io.flush w).0 ≡ written w) where
  pub write_command-written :
      (w : W) (cmd : Text)
      → (write_command io w cmd).1 ≡ true
      → written (write_command io w cmd).0 ≡ written w ++ (as_bytes cmd ++ b'\n' ∷ [])
  unfolding write_command
  write_command-written w cmd h =
      let (w₁, ok₁) = io.write_all w (as_bytes cmd) in
      let (w₂, ok₂) = io.write_all w₁ (b'\n' ∷ []) in
      elim (Bool-cases ok₁) [
        | inr bad ↦ absurd (cc (simp bad at h))
        | inl good₁ ↦ elim (Bool-cases ok₂) [
          | inr bad ↦ absurd (cc (simp (good₁, bad) at h))
          | inl good₂ ↦
              rw (good₁, good₂)
                (flush-written w₂
                  ∙ write_all-written w₁ (b'\n' ∷ []) good₂
                  ∙ ap (λ t. t ++ b'\n' ∷ []) (write_all-written w (as_bytes cmd) good₁)
                  ∙ append_assoc (written w) (as_bytes cmd) (b'\n' ∷ []))
        ]
      ]

  command-Writes :
      (s : Shared W) (tx : Sender) (cmd : Text)
      → (command io s tx cmd).0.connected ≡ true
      → (s.connected ≡ true)
        × (written (command io s tx cmd).0.writer
            ≡ written s.writer ++ lines_of (command io s tx cmd).1)
  unfolding command
  command-Writes s tx cmd h = elim (Bool-cases s.connected) [
    | inr off ↦ absurd (cc (simp off at h))
    | inl on ↦ elim (Bool-cases (write_command io s.writer cmd).1) [
      | inr bad ↦ absurd (cc (simp (on, bad) at h))
      | inl ok ↦ (on, simp (on, ok) (write_command-written s.writer cmd ok))
    ]
  ]

  -- A step that leaves the client connected wrote the lines of the commands it accepted.
  Writes : Client W → Client W × List Effect → Type 0
  Writes c (c', out) =
      c'.shared.connected ≡ true
      → (c.shared.connected ≡ true)
        × (written c'.shared.writer ≡ written c.shared.writer ++ lines_of out)

  step-Writes : (c : Client W) (a : Act) → Writes c (step io c a)
  unfolding step Writes Quiet
  step-Writes c (call tx cmd) = command-Writes c.shared tx cmd
  step-Writes c (read r) = elim (Bool-cases c.reading) [
    | inl on ↦ rw on λ h.
        let (a, b, e) = read_step-Quiet c.shared r in
        (
          e h,
          ap written a
              ∙ sym (append-nil (written c.shared.writer))
              ∙ ap (◌++◌ (written c.shared.writer)) (sym b),
        )
    | inr off ↦ rw off λ h. (h, sym (append-nil (written c.shared.writer)))
  ]

  steps-Writes : (c : Client W) (acts : List Act) → Writes c (steps io c acts)
  unfolding steps Writes
  steps-Writes c [] h = (h, sym (append-nil (written c.shared.writer)))
  steps-Writes c (a ∷ acts) h =
      let (c', now) = step io c a in
      let (on', later) = steps-Writes c' acts h in
      let (on, first) = step-Writes c a on' in
      let out = (steps io c' acts).1 in
      (
        on,
        later
            ∙ ap (λ t. t ++ lines_of out) first
            ∙ append_assoc (written c.shared.writer) (lines_of now) (lines_of out)
            ∙ ap (◌++◌ (written c.shared.writer)) (sym (lines_of-append now out)),
      )

  -- As long as a session leaves the client connected, what its callers put on the wire is exactly
  -- the lines of the commands that they wait for, in the order in which they wait. `written` is
  -- what a writer was given; a successful `write_all` adds the bytes, and `flush` adds none.
  pub session_written :
      (w : W) (acts : List Act)
      → (session io w acts).0.shared.connected ≡ true
      → written (session io w acts).0.shared.writer ≡ written w ++ lines_of (session io w acts).1
  unfolding Writes
  session_written w acts h =
      (steps-Writes (record { shared = Blocking.new w; reading = true }) acts h).1
