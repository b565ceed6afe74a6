-- ===== src/Driver/Blocking/Owned.antt =====
-- src/blocking.rs: the client as its owner holds it, with the event receiver, the reader thread's handle
-- and the child process, and its drop. Nobody calls `command` while it is dropped, for a call borrows
-- it. What `read` returns from then on is an input; the drop is `none` if the reads that are given do
-- not end the reader thread, which the drop waits for, or if the child does not exit, which it waits
-- for next. Whether the child exits is the operating system's, and depends on what its end of the
-- pipe was given: a parameter.
use tmuxctl.Base.{Bool, true, false, Option, none, some, List, [], ◌∷◌, ◌++◌, if◌then◌else◌, ◌>>=◌}
use tmuxctl.Driver.Blocking.{
  Write, Process, Shared, Client, Effect, ReadResult, bytes, interrupted, failed, Act, read, detach,
}
use tmuxctl.Driver.Blocking
use tmuxctl.Driver.Blocking.Poison.{Locked, step_debug}
use tmuxctl.Driver.Methods
use tmuxctl.Spawn.{SpawnOpts, argv}
use tmuxctl.Engine.{Engine}

-- `Client`: the receiver until it is taken, whether the thread is still to be joined, and the child of
-- a client that was spawned.
pub record Owned (W E C : Type 0) : Type 0 where
  pub locked : Locked W
  pub receiver : Option E
  pub reader : Bool
  pub child : Option C

module _ {W E C : Type 0} where
  unfoldable pub from_parts : W → E → Option C → Owned W E C
  from_parts w events_rx child = record {
    locked = record {
      client = record { shared = Blocking.new w; reading = true };
      poisoned = false;
    };
    receiver = some events_rx;
    reader = true;
    child = child;
  }

  -- `spawn`: the program runs with the arguments of the options, and the client is over its pipes.
  unfoldable pub spawn : Process W C → SpawnOpts → E → Option (Owned W E C)
  spawn os opts events_rx = do
    (stdin, child) ← os.run opts.program (argv opts)
    some (from_parts stdin events_rx (some child))

  unfoldable pub with_transport : W → E → Owned W E C
  with_transport w events_rx = from_parts w events_rx none

  unfoldable pub events : Owned W E C → Owned W E C × Option E
  events o = let (left, taken) = Methods.events o.receiver in (record o { receiver = left }, taken)

-- The child, if there is one.
abbrev pub reaped : {C : Type 0} → Option C → List C
reaped none = []
reaped (some child) = child ∷ []

-- Whether the child exits, if there is one.
abbrev pub gone : {C : Type 0} → (C → Bool) → Option C → Bool
gone exits none = true
gone exits (some child) = exits child

-- `Option::take` of the child, and `wait` on it, which returns if the child exits.
unfoldable pub wait : {C : Type 0} → (C → Bool) → Option C → Option (List C)
wait exits child = if gone exits child then some (reaped child) else none

-- The empty line, if the lock is not poisoned.
unfoldable pub detach_locked : {W : Type 0} → Write W → Locked W → Locked W
detach_locked io l =
    if l.poisoned
    then l
    else record l { client = record l.client { shared = detach io l.client.shared } }

module _ {W : Type 0} (io : Write W) (wreck : Engine → Engine) where
  -- `join`: the reader thread goes on until its loop ends.
  unfoldable pub join : Locked W → List ReadResult → Option (Locked W × List Effect)
  join l [] = if l.client.reading then none else some (l, [])
  join l (r ∷ rs) =
      let (l', now) = step_debug io wreck l (read r) in
      let rest = join l' rs in
      if l.client.reading
      then (rest >>= λ (last : Locked W × List Effect). some (last.0, now ++ last.1))
      else some (l, [])

  -- `Drop`: the client's state, what happens meanwhile, and the children that are reaped. `exits`
  -- says whether the child exits, by the writer as it then is.
  unfoldable pub drop :
      {E C : Type 0}
      → (W → C → Bool)
      → Owned W E C
      → List ReadResult
      → Option ((Locked W × List Effect) × List C)
  unfolding wait
  drop exits o rs =
      let l = detach_locked io o.locked in
      (if o.reader then join l rs else some (l, [])) >>= λ (last : Locked W × List Effect).
      wait (exits last.0.client.shared.writer) o.child >>= λ (children : List _).
      some (last, children)
