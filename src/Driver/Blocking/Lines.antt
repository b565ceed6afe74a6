-- ===== src/Driver/Blocking/Lines.antt =====
-- src/blocking.rs: what the peer reads of the callers' commands, line by line.
use tmuxctl.Base.{
  ◌≡◌, refl, ap, ◌∙◌, true, List, [], ◌∷◌, ◌++◌, map, Text, Bytes, All, All-append, Lacks,
  Bool-cases, inl, inr,
}
use tmuxctl.Text.Utf8.{as_bytes}
use tmuxctl.Engine.{newline}
use tmuxctl.Engine.Framing.{split_lines, split_lines-append}
use tmuxctl.Engine.Answers.{unlines, split_lines-unlines}
use tmuxctl.Driver.Blocking.{
  Write, Sender, Shared, Client, Effect, event, sent, waits, refused, ReadResult, bytes,
  interrupted, failed, Act, call, read, resolve, deliver, dispatch, resolve_all, disconnect,
  read_step, write_command, command, detach, step, steps, notify, remove,
}
use tmuxctl.Driver.Blocking
use tmuxctl.Driver.Blocking.Passive.{commands, Passive-nothing, read-Passive}
use tmuxctl.Driver.Blocking.Session.{session}
use tmuxctl.Driver.Blocking.Written.{lines_of, session_written}

-- The commands of the calls.
abbrev pub called : List Act → List Text
called [] = []
called (call tx cmd ∷ acts) = cmd ∷ called acts
called (read r ∷ acts) = called acts

commands-append : (xs ys : List Effect) → commands (xs ++ ys) ≡ commands xs ++ commands ys
commands-append [] ys = refl
commands-append (event n ∷ xs) ys = commands-append xs ys
commands-append (sent tx r ∷ xs) ys = commands-append xs ys
commands-append (waits tx cmd ∷ xs) ys = ap (◌∷◌ cmd) (commands-append xs ys)
commands-append (refused tx ∷ xs) ys = commands-append xs ys

lines_of-unlines : (out : List Effect) → lines_of out ≡ unlines (map as_bytes (commands out))
lines_of-unlines [] = refl
lines_of-unlines (event n ∷ out) = lines_of-unlines out
lines_of-unlines (sent tx r ∷ out) = lines_of-unlines out
lines_of-unlines (waits tx cmd ∷ out) = ap (λ t. as_bytes cmd ++ newline ∷ t) (lines_of-unlines out)
lines_of-unlines (refused tx ∷ out) = lines_of-unlines out

module _ {W : Type 0} (io : Write W) (P : Text → Type 0) where
  command-All :
      (s : Shared W) (tx : Sender) (cmd : Text) → P cmd → All P (commands (command io s tx cmd).1)
  unfolding command
  command-All s tx cmd p = elim (Bool-cases s.connected) [
    | inr off ↦ simp off tt
    | inl on ↦ elim (Bool-cases (write_command io s.writer cmd).1) [
      | inr bad ↦ simp (on, bad) tt
      | inl fine ↦ simp (on, fine) (p, tt)
    ]
  ]

  step-All : (c : Client W) (a : Act) → All P (called (a ∷ [])) → All P (commands (step io c a).1)
  step-All c (call tx cmd) (p, _) = unfold step in command-All c.shared tx cmd p
  step-All c (read r) h = rw (Passive-nothing (step io c (read r)).1 (read-Passive io c r)).0 tt

  -- Only what was called is written and waited for.
  pub steps-All :
      (c : Client W) (acts : List Act) → All P (called acts) → All P (commands (steps io c acts).1)
  unfolding steps
  steps-All c [] h = tt
  steps-All c (a ∷ acts) h =
      let (c', now) = step io c a in
      rw (commands-append now (steps io c' acts).1) (
        All-append P (commands now) (commands (steps io c' acts).1) (step-All c a (first a h))
          (steps-All c' acts (rest a h)))
    where
      first : (a : Act) → All P (called (a ∷ acts)) → All P (called (a ∷ []))
      first (call tx cmd) (p, h) = (p, tt)
      first (read r) h = tt

      rest : (a : Act) → All P (called (a ∷ acts)) → All P (called acts)
      rest (call tx cmd) (p, h) = h
      rest (read r) h = h

All-as_bytes :
    (cmds : List Text)
    → All (λ cmd. Lacks newline (as_bytes cmd)) cmds
    → All (Lacks newline) (map as_bytes cmds)
All-as_bytes [] h = tt
All-as_bytes (cmd ∷ cmds) (p, h) = (p, All-as_bytes cmds h)

module _ {W : Type 0} (io : Write W) (written : W → Bytes)
    (write_all-written : (w : W) (b : Bytes)
      → (io.write_all w b).1 ≡ true
      → written (io.write_all w b).0 ≡ written w ++ b)
    (flush-written : (w : W) → written (io.flush w).0 ≡ written w) where
  -- If no command of a session holds a newline, and the session leaves the client connected, then a
  -- peer that reads the wire by lines reads exactly the commands that are waited for, one line
  -- each, in the order in which their callers wait, and nothing after them. The writer was given
  -- nothing before; a successful `write_all` adds the bytes, and `flush` adds none.
  pub session_lines :
      (w : W) (acts : List Act)
      → written w ≡ []
      → All (λ cmd. Lacks newline (as_bytes cmd)) (called acts)
      → (session io w acts).0.shared.connected ≡ true
      → split_lines (written (session io w acts).0.shared.writer)
        ≡ (map as_bytes (commands (session io w acts).1), [])
  session_lines w acts empty h on =
      let out = (session io w acts).1 in
      let clean =
        steps-All io (λ cmd. Lacks newline (as_bytes cmd))
          (record { shared = Blocking.new w; reading = true }) acts h in
      ap split_lines (
        session_written io written write_all-written flush-written w acts on
        ∙ ap (λ x. x ++ lines_of out) empty
        ∙ lines_of-unlines out)
      ∙ split_lines-unlines (map as_bytes (commands out)) (All-as_bytes (commands out) clean)

  -- If no command of a session holds a newline, the session leaves the client connected, and the
  -- client is then dropped with a `write_all` that succeeds, then a peer that reads the wire by
  -- lines reads exactly the commands that are waited for, one line each and in order, and then one
  -- more line, which is empty and the last. The writer was given nothing before; a successful
  -- `write_all` adds the bytes, and `flush` adds none.
  pub detach_line :
      (w : W) (acts : List Act)
      → written w ≡ []
      → All (λ cmd. Lacks newline (as_bytes cmd)) (called acts)
      → (session io w acts).0.shared.connected ≡ true
      → (io.write_all (session io w acts).0.shared.writer (newline ∷ [])).1 ≡ true
      → split_lines (written (detach io (session io w acts).0.shared).writer)
        ≡ (map as_bytes (commands (session io w acts).1) ++ [] ∷ [], [])
  unfolding detach
  detach_line w acts empty h on ok =
      let (c, out) = session io w acts in
      let whole : written (detach io c.shared).writer ≡ written c.shared.writer ++ newline ∷ [] =
        flush-written (io.write_all c.shared.writer (newline ∷ [])).0
        ∙ write_all-written c.shared.writer (newline ∷ []) ok in
      ap split_lines whole
      ∙ split_lines-append (written c.shared.writer) (newline ∷ [])
      ∙ rw (session_lines w acts empty h on) (unfold split_lines in refl)
