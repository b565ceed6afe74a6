-- ===== src/Driver/Handle.antt =====
-- src/tokio_rt.rs, src/smol_rt.rs: the two ends of a client, the handle of its callers and the owner
-- task, and the channel of requests between them, a parameter. Calls, the drop of the handle and the
-- turns of the task interleave in any order; what follows the task's loop is one step with its last
-- turn, for a request that comes meanwhile is not received either. The client here has no child, as
-- `with_transport` makes it; Handle.Child is the client with one, whose task goes on to wait for it.
pub mod Calls
pub mod Turns
pub mod Order
pub mod Wire
pub mod Returns
pub mod Projection
pub mod Turned
pub mod Refines
pub mod Events
pub mod Answers
pub mod Detach
pub mod Fifo
pub mod Child
pub mod Reaping
pub mod Exits
pub mod Loop
use tmuxctl.Base.{
  Bool, true, false, Option, none, some, List, [], ◌∷◌, ◌++◌, ◌≡◌, map, Text, Bytes, if◌then◌else◌,
  ◌>>=◌,
}
use tmuxctl.Driver.Blocking.{Write, Sender, Effect, refused}
use tmuxctl.Driver.Owner.{Task, Turn, request, start, turn, teardown}

-- A request: the command, and the caller's channel for the reply.
abbrev pub Request : Type 0
Request = Text × Sender

-- An unbounded channel of requests, by what it holds, the oldest first. Its receiver takes the
-- oldest; `close` is the drop of the receiver, which drops some of what is left: with tokio all of
-- it.
pub record Channel (Q : Type 0) : Type 0 where
  pub empty : Q
  pub send : Request → Q → Q
  pub recv : Q → Option Request × Q
  pub close : Q → List Request × Q
  pub contents : Q → List Request
  pub contents_empty : contents empty ≡ []
  pub contents_send : (r : Request) (q : Q) → contents (send r q) ≡ contents q ++ r ∷ []
  pub recv_none : (q : Q) → contents q ≡ [] → recv q ≡ (none, q)
  pub recv_some :
      (q : Q) (r : Request) (rest : List Request)
      → contents q ≡ r ∷ rest
      → ((recv q).0 ≡ some r) × (contents (recv q).1 ≡ rest)
  pub close_splits : (q : Q) → (close q).0 ++ contents (close q).1 ≡ contents q

-- The drop of the receiver drops everything that is left, as with tokio's `mpsc`.
unfoldable pub DropsAll : {Q : Type 0} → Channel Q → Type 0
DropsAll {Q} ch = (q : Q) → ch.contents (ch.close q).1 ≡ []

-- The task with its end of the channel, whether it runs, and whether the handle is alive.
pub record Ends (W Q : Type 0) : Type 0 where
  pub task : Task W
  pub queue : Q
  pub running : Bool
  pub held : Bool

-- A caller's `command`, the drop of the handle, the task's `recv`, or a return of its `read`.
pub data Act : Type 0 where
  call : Sender → Text → Act
  drop_handle : Act
  receive : Act
  read : Option Bytes → Act

-- What a caller whose request is dropped gets: `rx.await` fails, which is `Err(Disconnected)`.
abbrev pub refuse : List Request → List Effect
refuse [] = []
refuse ((cmd, tx) ∷ requests) = refused tx ∷ refuse requests

module _ {W Q : Type 0} (io : Write W) (ch : Channel Q) where
  -- `from_parts` without a child.
  abbrev pub from_parts : W → Ends W Q
  from_parts w = record { task = start io w; queue = ch.empty; running = true; held = true }

  -- `command` up to its await; nobody can call it once the handle is dropped.
  unfoldable pub command : Ends W Q → Sender → Text → Ends W Q × List Effect
  command s tx cmd =
      if s.held
      then if s.running
        then (record s { queue = ch.send (cmd, tx) s.queue }, [])
        else (s, refused tx ∷ [])
      else (s, [])

  -- A turn of `owner_task`, and what follows the loop if it ends it, where there is no child.
  unfoldable pub advance : Ends W Q → Q → Turn → Ends W Q × List Effect
  advance s q u =
      let ((t, out), goes_on) = turn io s.task u in
      let (ended, last) = teardown io t in
      let (dropped, left) = ch.close q in
      if goes_on then (record s { task = t; queue = q }, out) else (
        record s { task = ended; queue = left; running = false },
        (out ++ last) ++ refuse dropped,
      )

  -- What `recv` gives: `None` once the handle is dropped; while it is alive, `recv` waits on.
  unfoldable pub received : Ends W Q → Option Request × Q → Ends W Q × List Effect
  received s (some r, q) = advance s q (request (some r))
  received s (none, q) = if s.held then (s, []) else advance s q (request none)

  unfoldable pub step : Ends W Q → Act → Ends W Q × List Effect
  step s (call tx cmd) = command s tx cmd
  step s drop_handle = (record s { held = false }, [])
  step s receive = if s.running then received s (ch.recv s.queue) else (s, [])
  step s (read r) = if s.running then advance s s.queue (Turn.read r) else (s, [])

  unfoldable pub steps : Ends W Q → List Act → Ends W Q × List Effect
  steps s [] = (s, [])
  steps s (a ∷ acts) =
      let (s', now) = step s a in let (s'', later) = steps s' acts in (s'', now ++ later)
