-- ===== src/Driver/Handle/Wire.antt =====
-- src/tokio_rt.rs: what a peer that reads by lines reads of the requests.
use tmuxctl.Base.{
  ◌≡◌, refl, sym, ap, ◌∙◌, subst, true, List, [], ◌∷◌, ◌++◌, map, append_assoc, Text, Bytes, All,
  All-append, Lacks,
}
use tmuxctl.Text.Utf8.{as_bytes}
use tmuxctl.Engine.{newline}
use tmuxctl.Engine.Framing.{split_lines}
use tmuxctl.Engine.Answers.{unlines, split_lines-unlines}
use tmuxctl.Driver.Blocking.{Write, Effect, event, sent, waits, refused}
use tmuxctl.Driver.Blocking.Written.{lines_of}
use tmuxctl.Driver.Handle.{Request, Channel, Act, from_parts, steps}
use tmuxctl.Driver.Handle.Calls.{calls}
use tmuxctl.Driver.Handle.Order.{written_requests, handle-lines}

-- The command strings of the requests.
abbrev pub texts : List Request → List Text
texts [] = []
texts ((cmd, tx) ∷ requests) = cmd ∷ texts requests

-- A command that is one line.
abbrev pub IsLine : Text → Type 0
IsLine cmd = Lacks newline (as_bytes cmd)

texts-append : (xs ys : List Request) → texts (xs ++ ys) ≡ texts xs ++ texts ys
texts-append [] ys = refl
texts-append ((cmd, tx) ∷ xs) ys = ap (◌∷◌ cmd) (texts-append xs ys)

All-left : (P : Text → Type 0) (xs ys : List Text) → All P (xs ++ ys) → All P xs
All-left P [] ys h = tt
All-left P (x ∷ xs) ys (p, h) = (p, All-left P xs ys h)

pub All-front :
    (P : Text → Type 0) (xs ys zs : List Request)
    → xs ++ ys ≡ zs
    → All P (texts zs)
    → All P (texts xs)
All-front P xs ys zs order h =
    All-left P (texts xs) (texts ys) (subst (All P) (sym (ap texts order) ∙ texts-append xs ys) h)

IsLine-as_bytes : (cmds : List Text) → All IsLine cmds → All (Lacks newline) (map as_bytes cmds)
IsLine-as_bytes [] h = tt
IsLine-as_bytes (cmd ∷ cmds) (p, h) = (p, IsLine-as_bytes cmds h)

lines_of-texts :
    (out : List Effect) → lines_of out ≡ unlines (map as_bytes (texts (written_requests out)))
lines_of-texts [] = refl
lines_of-texts (event n ∷ out) = lines_of-texts out
lines_of-texts (sent tx r ∷ out) = lines_of-texts out
lines_of-texts (waits tx cmd ∷ out) = rw (lines_of-texts out) refl
lines_of-texts (refused tx ∷ out) = lines_of-texts out

unlines-last : (ls : List Bytes) → unlines ls ++ newline ∷ [] ≡ unlines (ls ++ [] ∷ [])
unlines-last [] = refl
unlines-last (l ∷ ls) =
    append_assoc l (newline ∷ unlines ls) (newline ∷ [])
    ∙ ap (λ t. l ++ newline ∷ t) (unlines-last ls)

-- Lines and an empty one, as a peer reads them.
pub read_detached :
    (cmds : List Text)
    → All IsLine cmds
    → split_lines (unlines (map as_bytes cmds) ++ newline ∷ []) ≡ (map as_bytes cmds ++ [] ∷ [], [])
read_detached cmds h = rw (unlines-last (map as_bytes cmds)) (
    split_lines-unlines (map as_bytes cmds ++ [] ∷ [])
      (All-append _ (map as_bytes cmds) ([] ∷ []) (IsLine-as_bytes cmds h) (tt, tt)))

module _ {W Q : Type 0} (io : Write W) (ch : Channel Q) (written : W → Bytes)
    (write_all-written : (w : W) (b : Bytes)
      → (io.write_all w b).1 ≡ true
      → written (io.write_all w b).0 ≡ written w ++ b)
    (flush-written : (w : W) → written (io.flush w).0 ≡ written w) where
  pub handle-unlines :
      (w : W) (acts : List Act)
      → written w ≡ []
      → (steps io ch (from_parts io ch w) acts).0.running ≡ true
      → let (s, out) = steps io ch (from_parts io ch w) acts in
        written s.task.writer ≡ unlines (map as_bytes (texts (written_requests out)))
  handle-unlines w acts empty on =
      let (s, out) = steps io ch (from_parts io ch w) acts in
      let (_, lines) = handle-lines io ch written write_all-written flush-written w acts on in
      lines ∙ ap (λ x. x ++ lines_of out) empty ∙ lines_of-texts out

  -- If a new client has no child and no command of its callers holds a newline, then as long as
  -- its owner task runs, in any interleaving of the calls, the drop of the handle and the task's
  -- turns, a peer that reads the wire by lines reads exactly one line for each request that was
  -- written, its command, in order, and nothing after them; and these requests and then those in
  -- the channel are those of the calls, in order. The writer was given nothing before; a
  -- successful `write_all` adds the bytes, and `flush` adds none.
  pub handle_wire :
      (w : W) (acts : List Act)
      → written w ≡ []
      → All IsLine (texts (calls true acts))
      → (steps io ch (from_parts io ch w) acts).0.running ≡ true
      → let (s, out) = steps io ch (from_parts io ch w) acts in
        (split_lines (written s.task.writer) ≡ (map as_bytes (texts (written_requests out)), []))
        × (written_requests out ++ ch.contents s.queue ≡ calls true acts)
  handle_wire w acts empty clean on =
      let (s, out) = steps io ch (from_parts io ch w) acts in
      let (order, _) = handle-lines io ch written write_all-written flush-written w acts on in
      let clean' = All-front IsLine (written_requests out) (ch.contents s.queue) _ order clean in
      (
        ap split_lines (handle-unlines w acts empty on)
            ∙ split_lines-unlines (map as_bytes (texts (written_requests out)))
                (IsLine-as_bytes (texts (written_requests out)) clean'),
        order,
      )
