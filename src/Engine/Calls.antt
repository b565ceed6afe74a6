-- ===== src/Engine/Calls.antt =====
-- src/engine.rs: an engine in use: any sequence of `register_command`, `feed` and `on_eof`.
use tmuxctl.Base.{
  ℕ, zero, suc, ◌+◌, ◌<◌, ◌≡◌, refl, sym, ap, ◌∙◌, List, [], ◌∷◌, ◌++◌, append_assoc, append-nil,
  arith, Bytes, length,
}
use tmuxctl.Text.Number.{u64_bound}
use tmuxctl.Engine.{Engine, Incoming, CommandId, CommandResult, feed, on_eof, register_command}
use tmuxctl.Engine.Fifo.{replies, ids, feed-ids, feed-next_id, on_eof-ids}

-- What a driver may do with an engine.
pub data Call : Type 0 where
  register : Call
  receive : Bytes → Call
  end_of_stream : Call

pub call : Engine → Call → Engine × List Incoming
call e register = ((register_command e).0, [])
call e (receive bytes) = feed e bytes
call e end_of_stream = on_eof e

-- The outcomes of calls, one after the other, and the ids that `register_command` returned.
pub calls : Engine → List Call → Engine × List Incoming
calls e [] = (e, [])
calls e (c ∷ cs) = let (e', out) = call e c in let (e'', more) = calls e' cs in (e'', out ++ more)

abbrev registered_by : Engine → Call → List CommandId
registered_by e register = (register_command e).1 ∷ []
registered_by e _ = []

unfoldable pub registered : Engine → List Call → List CommandId
unfolding call
registered e [] = []
registered e (c ∷ cs) = registered_by e c ++ registered (call e c).0 cs

replies-append : (xs ys : List Incoming) → replies (xs ++ ys) ≡ replies xs ++ replies ys
replies-append [] ys = refl
replies-append (Incoming.notification n ∷ xs) ys = replies-append xs ys
replies-append (Incoming.reply id r ∷ xs) ys = ap (◌∷◌ (id, r)) (replies-append xs ys)

ids-append : (xs ys : List (CommandId × CommandResult)) → ids (xs ++ ys) ≡ ids xs ++ ids ys
ids-append [] ys = refl
ids-append ((id, r) ∷ xs) ys = ap (◌∷◌ id) (ids-append xs ys)

-- One call answers a prefix of the queue, or adds to its end.
call-ids :
    (e : Engine) (c : Call)
    → ids (replies (call e c).1) ++ (call e c).0.pending ≡ e.pending ++ registered_by e c
unfolding call register_command on_eof
call-ids e register = refl
call-ids e (receive bytes) = feed-ids e bytes ∙ sym (append-nil e.pending)
call-ids e end_of_stream =
    append-nil (ids (replies (on_eof e).1)) ∙ on_eof-ids e ∙ sym (append-nil e.pending)

-- Whatever calls a driver makes, the ids of the replies, in the order they came, followed by the
-- commands still outstanding, are the commands outstanding at the start followed by those
-- registered since, in the order of registration: each command is answered at most once, none is
-- lost, and none is overtaken.
pub calls_fifo :
    (e : Engine) (cs : List Call)
    → ids (replies (calls e cs).1) ++ (calls e cs).0.pending ≡ e.pending ++ registered e cs
unfolding calls registered
calls_fifo e [] = sym (append-nil e.pending)
calls_fifo e (c ∷ cs) =
    rw
      (
        replies-append,
        ids-append,
        append_assoc,
        calls_fifo (call e c).0 cs,
        ← append_assoc,
        call-ids e c,
      )
      (append_assoc e.pending (registered_by e c) (registered (call e c).0 cs))

calls-end : (e : Engine) (cs : List Call) → (calls e (cs ++ end_of_stream ∷ [])).0.pending ≡ []
unfolding calls call on_eof
calls-end e [] = refl
calls-end e (c ∷ cs) = calls-end (call e c).0 cs

registered-end :
    (e : Engine) (cs : List Call) → registered e (cs ++ end_of_stream ∷ []) ≡ registered e cs
unfolding registered
registered-end e [] = refl
registered-end e (c ∷ cs) = ap (◌++◌ (registered_by e c)) (registered-end (call e c).0 cs)

-- After the end of the stream nothing is outstanding: from an engine with no command outstanding,
-- such as a new one, every command that was ever registered has been answered exactly once, in the
-- order of registration.
pub calls_end :
    (e : Engine) (cs : List Call)
    → e.pending ≡ []
    → ((calls e (cs ++ end_of_stream ∷ [])).0.pending ≡ [])
      × (ids (replies (calls e (cs ++ end_of_stream ∷ [])).1) ≡ registered e cs)
calls_end e cs h =
    let done = calls-end e cs in
    (
      done,
      sym (append-nil _)
          ∙ ap (◌++◌ _) (sym done)
          ∙ calls_fifo e (cs ++ end_of_stream ∷ [])
          ∙ ap (λ p. p ++ registered e (cs ++ end_of_stream ∷ [])) h
          ∙ registered-end e cs,
    )

-- `n`, `n + 1`, and so on, as many as `k`
abbrev pub count_up : ℕ → ℕ → List ℕ
count_up n zero = []
count_up n (suc k) = n ∷ count_up (suc n) k

-- As long as the counter does not reach 2^64, the ids are the numbers from it on: no two commands
-- share an id.
pub registered-count_up :
    (e : Engine) (cs : List Call)
    → e.next_id + length (registered e cs) < u64_bound
    → registered e cs ≡ count_up e.next_id (length (registered e cs))
unfolding registered register_command on_eof
registered-count_up e [] h = refl
registered-count_up e (register ∷ cs) h =
    let next : (call e register).0.next_id ≡ suc e.next_id = unfold call in omega arith in
    ap (◌∷◌ e.next_id) (
      registered-count_up (call e register).0 cs (omega (arith, next))
      ∙ ap (λ n. count_up n (length (registered (call e register).0 cs))) next)
registered-count_up e (receive bytes ∷ cs) h =
    let same : (call e (receive bytes)).0.next_id ≡ e.next_id =
      unfold call in feed-next_id e bytes in
    registered-count_up (call e (receive bytes)).0 cs (omega (arith, same))
    ∙ ap (λ n. count_up n (length (registered (call e (receive bytes)).0 cs))) same
registered-count_up e (end_of_stream ∷ cs) h =
    registered-count_up (call e end_of_stream).0 cs (unfold call in h)
