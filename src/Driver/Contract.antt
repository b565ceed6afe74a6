-- ===== src/Driver/Contract.antt =====
-- What a client promises its callers, without ids, buffers and maps: one queue of callers, and the
-- lines of the stream in order. The drivers of src/blocking.rs and src/tokio_rt.rs are compared with
-- it.
pub mod Waiters
pub mod Counts
pub mod Stream
pub mod Events
pub mod Block
pub mod Blocks
use tmuxctl.Base.{
  Bool, ◌≡◌, refl, sym, ap, ◌∙◌, append_assoc, append-nil, true, false, Option, none, some, List,
  [], ◌∷◌, ◌++◌, map, Text, Bytes, if◌then◌else◌,
}
use tmuxctl.Parser.Frame.{Parser, Event, Reply, push}
use tmuxctl.Parser.Frame
use tmuxctl.Engine.{CommandResult, disconnected, result_of}
use tmuxctl.Engine.Framing.{split_lines}
use tmuxctl.Driver.Blocking.{Sender, Effect, event, sent, waits, refused}

-- The parser says where the stream stands in a reply block, `partial` is the line in progress,
-- `queue` the callers that wait, the longest waiting first, and `taking` whether a caller may join.
pub record Contract : Type 0 where
  pub parser : Parser
  pub partial : Bytes
  pub queue : List Sender
  pub taking : Bool

-- A new session.
abbrev pub fresh : Contract
fresh = record { parser = Frame.new; partial = []; queue = []; taking = true }

-- A caller with a command, and whether the transport takes the command; bytes of the stream; the
-- end of the session.
pub data Input : Type 0 where
  ask : Sender → Text → Bool → Input
  receive : Bytes → Input
  hang_up : Input

-- The result goes to the caller that has waited longest, and to nobody if nobody waits.
unfoldable pub serve : Reply → List Sender → List Sender × List Effect
serve r [] = ([], [])
serve r (tx ∷ queue) = (queue, sent tx (result_of r) ∷ [])

-- Only a reply with the control mark is for a caller.
unfoldable pub surface : Option Event → List Sender → List Sender × List Effect
unfolding serve
surface none queue = (queue, [])
surface (some (Event.notification n)) queue = (queue, event n ∷ [])
surface (some (Event.reply r)) queue = if r.control then serve r queue else (queue, [])

unfoldable pub take_lines : List Bytes → Parser → List Sender → (Parser × List Sender) × List Effect
take_lines [] p queue = ((p, queue), [])
take_lines (l ∷ ls) p queue =
    let (p', e) = push l p in
    let (queue', now) = surface e queue in
    let (end, later) = take_lines ls p' queue' in (end, now ++ later)

-- Every caller that waits is told that the session is over, the longest waiting first.
abbrev pub tell_all : List Sender → List Effect
tell_all [] = []
tell_all (tx ∷ queue) = sent tx (CommandResult.err disconnected) ∷ tell_all queue

unfoldable pub react : Contract → Input → Contract × List Effect
react c (ask tx cmd taken) =
    if c.taking
    then if taken
      then (record c { queue = c.queue ++ tx ∷ [] }, waits tx cmd ∷ [])
      else (record c { taking = false }, refused tx ∷ [])
    else (c, refused tx ∷ [])
react c (receive input) =
    let (lines, rest) = split_lines (c.partial ++ input) in
    let ((parser, queue), out) = take_lines lines c.parser c.queue in
    (record c { parser = parser; partial = rest; queue = queue }, out)
react c hang_up = (record c { queue = []; taking = false }, tell_all c.queue)

unfoldable pub reacts : Contract → List Input → Contract × List Effect
reacts c [] = (c, [])
reacts c (i ∷ inputs) =
    let (c', now) = react c i in let (c'', later) = reacts c' inputs in (c'', now ++ later)

pub reacts-append :
    (c : Contract) (xs ys : List Input)
    → reacts c (xs ++ ys)
      ≡ ((reacts (reacts c xs).0 ys).0, (reacts c xs).1 ++ (reacts (reacts c xs).0 ys).1)
unfolding reacts
reacts-append c [] ys = refl
reacts-append c (i ∷ xs) ys =
    let (c', now) = react c i in
    ap (λ x. (x.0, now ++ x.1)) (reacts-append c' xs ys)
    ∙ ap (λ out. ((reacts (reacts c' xs).0 ys).0, out))
        (sym (append_assoc now (reacts c' xs).1 (reacts (reacts c' xs).0 ys).1))

pub one_input :
    (c : Contract) (i : Input) {after : Contract × List Effect}
    → react c i ≡ after
    → reacts c (i ∷ []) ≡ after
unfolding reacts
one_input c i h = ap (λ out. ((react c i).0, out)) (append-nil (react c i).1) ∙ h
