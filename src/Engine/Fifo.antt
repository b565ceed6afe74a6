-- ===== src/Engine/Fifo.antt =====
-- src/engine.rs: replies are matched to commands in the order in which they were registered.
use tmuxctl.Base.{
  ◌≡◌, refl, sym, ap, ◌∙◌, Option, none, some, List, [], ◌∷◌, ◌++◌, map, arith, Bytes,
  if◌then◌else◌, Bool-cases, inl, inr,
}
use tmuxctl.Parser.Frame.{Parser, Event, Reply, push}
use tmuxctl.Engine.{
  Engine, Incoming, CommandId, CommandResult, disconnected, answer, correlate, on_event, on_line,
  append_some, feed, on_eof, result_of,
}
use tmuxctl.Engine.Framing.{run, feed-run, split_lines}

-- The replies among the outcomes, in order.
abbrev pub replies : List Incoming → List (CommandId × CommandResult)
replies [] = []
replies (Incoming.notification n ∷ out) = replies out
replies (Incoming.reply id r ∷ out) = (id, r) ∷ replies out

abbrev pub ids : List (CommandId × CommandResult) → List CommandId
ids [] = []
ids ((id, r) ∷ rs) = id ∷ ids rs

-- The control replies among what the parser surfaces.
abbrev pub control_reply : Option Event → List Reply
control_reply (some (Event.reply r)) = if r.control then r ∷ [] else []
control_reply _ = []

-- The control replies that the parser surfaces from the lines, in order.
unfoldable pub control_replies : Parser → List Bytes → List Reply
control_replies p [] = []
control_replies p (l ∷ ls) = control_reply (push l p).1 ++ control_replies (push l p).0 ls

-- The n-th command with the n-th reply.
unfoldable pub pair_up : List CommandId → List Reply → List (CommandId × CommandResult)
pair_up [] rs = []
pair_up (id ∷ pending) [] = []
pair_up (id ∷ pending) (r ∷ rs) = (id, result_of r) ∷ pair_up pending rs

-- What is left of the queue after that many replies.
unfoldable pub left_over : List CommandId → List Reply → List CommandId
left_over [] rs = []
left_over (id ∷ pending) [] = id ∷ pending
left_over (id ∷ pending) (r ∷ rs) = left_over pending rs

ids-pair_up :
    (pending : List CommandId) (rs : List Reply)
    → ids (pair_up pending rs) ++ left_over pending rs ≡ pending
unfolding pair_up left_over
ids-pair_up [] rs = refl
ids-pair_up (id ∷ pending) [] = refl
ids-pair_up (id ∷ pending) (r ∷ rs) = ap (◌∷◌ id) (ids-pair_up pending rs)

-- A control reply answers the oldest command, if there is one; nothing else touches the queue.
answer-pair_up :
    (e : Engine) (r : Reply) (pending : List CommandId) (out : List Incoming) (rs : List Reply)
    → e.pending ≡ pending
    → replies out ≡ pair_up (answer e r pending).0.pending rs
    → (replies (append_some (answer e r pending).1 out) ≡ pair_up pending (r ∷ rs))
      × (left_over (answer e r pending).0.pending rs ≡ left_over pending (r ∷ rs))
unfolding answer append_some pair_up left_over
answer-pair_up e r [] out rs q h = (h ∙ rw (q, pair_up), rw (q, left_over))
answer-pair_up e r (id ∷ pending) out rs q h = (ap (◌∷◌ (id, result_of r)) h, refl)

on_event-pair_up :
    (e : Engine) (ev : Option Event) (out : List Incoming) (rs : List Reply)
    → replies out ≡ pair_up (on_event e ev).0.pending rs
    → (replies (append_some (on_event e ev).1 out) ≡ pair_up e.pending (control_reply ev ++ rs))
      × (left_over (on_event e ev).0.pending rs ≡ left_over e.pending (control_reply ev ++ rs))
unfolding on_event correlate append_some
on_event-pair_up e none out rs h = (h, refl)
on_event-pair_up e (some (Event.notification n)) out rs h = (h, refl)
on_event-pair_up e (some (Event.reply r)) out rs h = elim (Bool-cases r.control) [
  | inl c ↦ simp c (
      answer-pair_up (record e { last_number = some r.number }) r e.pending out rs refl
        (simp c at h))
  | inr c ↦ simp c (simp c at h, refl)
]

on_event-parser : (e : Engine) (ev : Option Event) → (on_event e ev).0.parser ≡ e.parser
unfolding on_event correlate
on_event-parser e none = refl
on_event-parser e (some (Event.notification n)) = refl
on_event-parser e (some (Event.reply r)) = ground arith

pub pair_up-nil : (pending : List CommandId) → pair_up pending [] ≡ []
unfolding pair_up
pair_up-nil [] = refl
pair_up-nil (id ∷ pending) = refl

pub left_over-nil : (pending : List CommandId) → left_over pending [] ≡ pending
unfolding left_over
left_over-nil [] = refl
left_over-nil (id ∷ pending) = refl

pub on_line-parser : (e : Engine) (l : Bytes) → (on_line e l).0.parser ≡ (push l e.parser).0
unfolding on_line
on_line-parser e l = on_event-parser (record e { parser = (push l e.parser).0 }) (push l e.parser).1

run-pair_up :
    (e : Engine) (ls : List Bytes)
    → (replies (run e ls).1 ≡ pair_up e.pending (control_replies e.parser ls))
      × ((run e ls).0.pending ≡ left_over e.pending (control_replies e.parser ls))
unfolding run control_replies on_line
run-pair_up e [] = (sym (pair_up-nil e.pending), sym (left_over-nil e.pending))
run-pair_up e (l ∷ ls) =
    let ev = (push l e.parser).1 in
    let e₁ = record e { parser = (push l e.parser).0 } in
    let (later, left) = run-pair_up (on_line e l).0 ls in
    let (now, rest) =
      on_event-pair_up e₁ ev (run (on_line e l).0 ls).1 (control_replies (push l e.parser).0 ls) (
        later
        ∙ ap (λ p. pair_up (on_line e l).0.pending (control_replies p ls)) (on_line-parser e l)) in
    (
      now,
      left
          ∙ ap (λ p. left_over (on_line e l).0.pending (control_replies p ls)) (on_line-parser e l)
          ∙ rest,
    )

-- What `feed` surfaces as replies: the n-th outstanding command gets the n-th control reply of the
-- stream, with its lines, as an error where tmux closed the block with `%error`; a server-internal
-- block and a notification take nothing off the queue, and the commands left over stay in order.
pub feed-pair_up :
    (e : Engine) (bytes : Bytes)
    → let ls = (split_lines (e.buf ++ bytes)).0 in
      (replies (feed e bytes).1 ≡ pair_up e.pending (control_replies e.parser ls))
      × ((feed e bytes).0.pending ≡ left_over e.pending (control_replies e.parser ls))
feed-pair_up e bytes = rw (feed-run e bytes) (run-pair_up e (split_lines (e.buf ++ bytes)).0)

-- The replies of `feed` are to a prefix of the queue; the rest stays.
pub feed-ids :
    (e : Engine) (bytes : Bytes)
    → ids (replies (feed e bytes).1) ++ (feed e bytes).0.pending ≡ e.pending
feed-ids e bytes =
    let (now, left) = feed-pair_up e bytes in rw (now, left) (ids-pair_up e.pending _)

replies-on_eof :
    (pending : List CommandId)
    → replies (map (λ id. Incoming.reply id (CommandResult.err disconnected)) pending)
      ≡ map (λ id. (id, CommandResult.err disconnected)) pending
replies-on_eof [] = refl
replies-on_eof (id ∷ pending) =
    ap (◌∷◌ (id, CommandResult.err disconnected)) (replies-on_eof pending)

ids-on_eof :
    (pending : List CommandId)
    → ids (map (λ id. (id, CommandResult.err disconnected)) pending) ≡ pending
ids-on_eof [] = refl
ids-on_eof (id ∷ pending) = ap (◌∷◌ id) (ids-on_eof pending)

pub on_eof-ids : (e : Engine) → ids (replies (on_eof e).1) ≡ e.pending
unfolding on_eof
on_eof-ids e = ap ids (replies-on_eof e.pending) ∙ ids-on_eof e.pending

on_line-next_id : (e : Engine) (l : Bytes) → (on_line e l).0.next_id ≡ e.next_id
unfolding on_line on_event correlate
on_line-next_id e l = go (record e { parser = (push l e.parser).0 }) (push l e.parser).1
  where
    go : (e : Engine) (ev : Option Event) → (on_event e ev).0.next_id ≡ e.next_id
    go e none = refl
    go e (some (Event.notification n)) = refl
    go e (some (Event.reply r)) = ground arith

run-next_id : (e : Engine) (ls : List Bytes) → (run e ls).0.next_id ≡ e.next_id
unfolding run
run-next_id e [] = refl
run-next_id e (l ∷ ls) = run-next_id (on_line e l).0 ls ∙ on_line-next_id e l

pub feed-next_id : (e : Engine) (bytes : Bytes) → (feed e bytes).0.next_id ≡ e.next_id
feed-next_id e bytes = rw feed-run (run-next_id e (split_lines (e.buf ++ bytes)).0)
