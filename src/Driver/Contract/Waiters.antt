-- ===== src/Driver/Contract/Waiters.antt =====
-- src/tokio_rt.rs, src/engine.rs: a map of waiters whose keys are the engine's queue serves as the
-- contract's queue of callers.
use tmuxctl.Base.{
  ◌≡◌, refl, sym, ap, ◌∙◌, true, Option, none, some, List, [], ◌∷◌, ◌++◌, map, append-nil, Bytes,
  ◌==◌, ==_refl, Bool-cases, inl, inr, arith,
}
use tmuxctl.Parser.Frame.{Event, Reply, push}
use tmuxctl.Engine.{
  Engine, Incoming, CommandId, CommandResult, disconnected, answer, correlate, on_event, on_line,
  append_some,
}
use tmuxctl.Engine.Framing.{run}
use tmuxctl.Engine.Fifo.{on_line-parser}
use tmuxctl.Driver.Blocking.{Waiters, Sender, Effect, remove, notify}
use tmuxctl.Driver.Blocking.Waiting.{keys, senders}
use tmuxctl.Driver.Owner.{resolve, deliver, resolve_all}
use tmuxctl.Driver.Contract.{serve, surface, take_lines, tell_all}

deliver-append_some :
    (i : Option Incoming) (out : List Incoming) (ws : Waiters)
    → deliver (append_some i out) ws ≡ (
      (deliver out (deliver (append_some i []) ws).0).0,
      (deliver (append_some i []) ws).1 ++ (deliver out (deliver (append_some i []) ws).0).1,
    )
unfolding deliver append_some
deliver-append_some none out ws = refl
deliver-append_some (some (Incoming.notification n)) out ws = refl
deliver-append_some (some (Incoming.reply id r)) out ws = simp append-nil refl

-- One outcome delivered: the queue and the effects are the contract's, and the map's keys are still
-- in front of the engine's queue.
Served : List Sender × List Effect → Engine × Option Incoming → Waiters → Type 0
Served (queue, effects) (e, i) ws =
    let (ws', out) = deliver (append_some i []) ws in
    (queue ≡ senders ws')
    × (effects ≡ out)
    × (left : List CommandId) × (e.pending ≡ keys ws' ++ left)

answer-Served :
    (e : Engine) (r : Reply) (pending : List CommandId) (ws : Waiters) (orphans : List CommandId)
    → e.pending ≡ pending
    → pending ≡ keys ws ++ orphans
    → Served (serve r (senders ws)) (answer e r pending) ws
unfolding Served serve answer append_some deliver resolve remove notify
answer-Served e r [] [] orphans q h = (refl, refl, orphans, q ∙ h)
answer-Served e r [] ((k, tx) ∷ ws) orphans q h = absurd cc
answer-Served e r (id ∷ rest) [] orphans q h = (refl, refl, rest, refl)
answer-Served e r (id ∷ rest) ((k, tx) ∷ ws) orphans q h =
    let same : k ≡ id = cc in
    let here : k == id ≡ true = ground arith in rw here (refl, refl, orphans, cc)

on_event-Served :
    (e : Engine) (ev : Option Event) (ws : Waiters) (orphans : List CommandId)
    → e.pending ≡ keys ws ++ orphans
    → Served (surface ev (senders ws)) (on_event e ev) ws
unfolding on_event surface correlate
on_event-Served e none ws orphans q = unfold Served deliver append_some in (refl, refl, orphans, q)
on_event-Served e (some (Event.notification n)) ws orphans q =
    unfold Served deliver append_some in (refl, refl, orphans, q)
on_event-Served e (some (Event.reply r)) ws orphans q = elim (Bool-cases r.control) [
  | inl on ↦
      simp on
        (answer-Served (record e { last_number = some r.number }) r e.pending ws orphans refl q)
  | inr off ↦ simp off (unfold Served deliver append_some in (refl, refl, orphans, q))
]

-- Line after line, the engine and the map do what the contract does.
pub run-take_lines :
    (ls : List Bytes) (e : Engine) (ws : Waiters) (orphans : List CommandId)
    → e.pending ≡ keys ws ++ orphans
    → take_lines ls e.parser (senders ws)
      ≡ (((run e ls).0.parser, senders (deliver (run e ls).1 ws).0), (deliver (run e ls).1 ws).1)
unfolding take_lines run on_line Served
run-take_lines [] e ws orphans q = unfold deliver in refl
run-take_lines (l ∷ ls) e ws orphans q =
    let (p, ev) = push l e.parser in
    let (e', i) = on_line e l in
    let (now, effects, left, q') = on_event-Served (record e { parser = p }) ev ws orphans q in
    let ws' = (deliver (append_some i []) ws).0 in
    let later = run-take_lines ls e' ws' left q' in
    let same : e'.parser ≡ p = on_line-parser e l in
    rw (deliver-append_some i (run e' ls).1 ws, now, effects)
      (ap (λ x. (x.0, (deliver (append_some i []) ws).1 ++ x.1))
        (ap (λ p. take_lines ls p (senders ws')) (sym same) ∙ later))

pub eof-tell_all :
    (ws : Waiters) (orphans : List CommandId)
    → resolve_all
        (map (λ id. Incoming.reply id (CommandResult.err disconnected)) (keys ws ++ orphans))
        ws
      ≡ ([], tell_all (senders ws))
unfolding resolve_all resolve remove notify
eof-tell_all [] [] = refl
eof-tell_all [] (id ∷ orphans) = rw (eof-tell_all [] orphans) refl
eof-tell_all ((k, tx) ∷ ws) orphans = rw (==_refl k, eof-tell_all ws orphans) refl
