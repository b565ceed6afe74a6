-- ===== src/Driver/Blocking/Dropped.antt =====
-- src/blocking.rs: the drop of a client and the end of its reader thread.
use tmuxctl.Base.{
  ◌≡◌, refl, ap, ◌∙◌, Bool, true, false, Option, none, some, List, [], ◌∷◌, ◌++◌, map, ◌>>=◌,
  bind-if, if◌then◌else◌, Bool-cases, inl, inr,
}
use tmuxctl.Engine.{Engine, Incoming}
use tmuxctl.Driver.Blocking.{
  Write, Client, Effect, ReadResult, bytes, interrupted, failed, read, read_step, detach, step,
}
use tmuxctl.Driver.Blocking.Poison.{Locked, step_debug, steps_debug, dispatch_debug}
use tmuxctl.Engine.Tripwire.{feed_debug}
use tmuxctl.Driver.Blocking.Written.{Quiet, read_step-Quiet, deliver-Quiet}
use tmuxctl.Driver.Blocking.Owned.{Owned, reaped, gone, wait, detach_locked, join, drop}

-- The reads that end the reader thread: the end of the stream, or an error that is no interrupt.
unfoldable pub closes : ReadResult → Bool
closes (bytes []) = true
closes (bytes (b ∷ input)) = false
closes interrupted = false
closes failed = true

pub step-writer :
    {W : Type 0} (io : Write W) (c : Client W) (r : ReadResult)
    → (step io c (read r)).0.shared.writer ≡ c.shared.writer
unfolding step Quiet
step-writer io c r =
    let (same, _, _) = read_step-Quiet c.shared r in
    elim (Bool-cases c.reading) [ inl on ↦ simp on same | inr off ↦ simp off refl ]

module _ {W : Type 0} (io : Write W) (wreck : Engine → Engine) where
  -- Reads leave the writer alone, whatever the lock.
  read-writer :
      (l : Locked W) (r : ReadResult)
      → (step_debug io wreck l (read r)).0.client.shared.writer ≡ l.client.shared.writer
  unfolding step_debug dispatch_debug Quiet
  read-writer l (bytes []) = step-writer io l.client (bytes [])
  read-writer l (bytes (b ∷ input)) = elim (Bool-cases l.client.reading) [
    | inr off ↦ simp off refl
    | inl on ↦ simp on (fed (feed_debug l.client.shared.engine (b ∷ input)))
  ]
    where
      fed :
          (done : Option (Engine × List Incoming))
          → (dispatch_debug io wreck l done).0.client.shared.writer ≡ l.client.shared.writer
      fed none = refl
      fed (some (engine, incoming)) =
          (deliver-Quiet incoming (record l.client.shared { engine = engine })).0
  read-writer l interrupted = step-writer io l.client interrupted
  read-writer l failed = step-writer io l.client failed

  debug_reads-writer :
      (l : Locked W) (rs : List ReadResult)
      → (steps_debug io wreck l (map read rs)).0.client.shared.writer ≡ l.client.shared.writer
  unfolding steps_debug
  debug_reads-writer l [] = refl
  debug_reads-writer l (r ∷ rs) =
      debug_reads-writer (step_debug io wreck l (read r)).0 rs ∙ read-writer l r

  read-off :
      (l : Locked W) (r : ReadResult)
      → l.client.reading ≡ false
      → step_debug io wreck l (read r) ≡ (l, [])
  unfolding step_debug step
  read-off l (bytes []) off = simp off refl
  read-off l (bytes (b ∷ input)) off = simp off refl
  read-off l interrupted off = simp off refl
  read-off l failed off = simp off refl

  reads-off :
      (l : Locked W) (rs : List ReadResult)
      → l.client.reading ≡ false
      → steps_debug io wreck l (map read rs) ≡ (l, [])
  unfolding steps_debug
  reads-off l [] off = refl
  reads-off l (r ∷ rs) off = rw (read-off l r off, reads-off l rs off) refl

  read-closes :
      (l : Locked W) (r : ReadResult)
      → closes r ≡ true
      → (step_debug io wreck l (read r)).0.client.reading ≡ false
  unfolding closes step_debug step read_step
  read-closes l (bytes []) h = elim (Bool-cases l.client.reading) [
    | inl on ↦ simp on refl
    | inr off ↦ simp off refl
  ]
  read-closes l (bytes (b ∷ input)) h = absurd cc
  read-closes l interrupted h = absurd cc
  read-closes l failed h = elim (Bool-cases l.client.reading) [
    | inl on ↦ simp on refl
    | inr off ↦ simp off refl
  ]

  pub reads-close :
      (l : Locked W) (rs : List ReadResult) (r : ReadResult) (more : List ReadResult)
      → closes r ≡ true
      → (steps_debug io wreck l (map read (rs ++ r ∷ more))).0.client.reading ≡ false
  unfolding steps_debug
  reads-close l [] r more h =
      let off = read-closes l r h in
      ap (λ x. x.0.client.reading) (reads-off (step_debug io wreck l (read r)).0 more off) ∙ off
  reads-close l (r' ∷ rs) r more h = reads-close (step_debug io wreck l (read r')).0 rs r more h

  pub join-steps :
      (l : Locked W) (rs : List ReadResult)
      → (steps_debug io wreck l (map read rs)).0.client.reading ≡ false
      → join io wreck l rs ≡ some (steps_debug io wreck l (map read rs))
  unfolding join steps_debug
  join-steps l [] ended = simp ended refl
  join-steps l (r ∷ rs) ended =
      let l' = (step_debug io wreck l (read r)).0 in
      elim (Bool-cases l.client.reading) [
        | inl on ↦ simp (on, join-steps l' rs ended) refl
        | inr off ↦ simp (off, read-off l r off, reads-off l rs off) refl
      ]

-- What the drop does behind the end of the reader thread.
abbrev pub drop_end :
    {W C : Type 0}
    → (W → C → Bool)
    → Option C
    → Option (Locked W × List Effect)
    → Option ((Locked W × List Effect) × List C)
drop_end {W} exits child joined = joined >>= λ (last : Locked W × List Effect).
    (if gone (exits last.0.client.shared.writer) child then some (reaped child) else none)
    >>= λ (children : List _). some (last, children)

-- The drop of a client whose thread is still to be joined, whatever the state of its lock and its
-- transport, if the reads that are left hold the end of the stream or an error that is no interrupt:
-- the reader thread leaves its loop; the writer was given one empty line and flushed, or, if the lock
-- is poisoned, nothing; and the drop returns exactly if there is no child or the child exits upon
-- that, and then exactly the child is reaped.
pub drop_returns :
    {W E C : Type 0} (io : Write W) (wreck : Engine → Engine) (exits : W → C → Bool)
    (o : Owned W E C) (rs : List ReadResult) (r : ReadResult) (more : List ReadResult)
    → o.reader ≡ true
    → closes r ≡ true
    → let w = o.locked.client.shared.writer in
      let given = if o.locked.poisoned then w else (io.flush (io.write_all w (b'\n' ∷ [])).0).0 in
      (after : Locked W × List Effect) × (drop io wreck exits o (rs ++ r ∷ more)
        ≡ (if gone (exits given) o.child then some (after, reaped o.child) else none))
      × (after.0.client.reading ≡ false)
      × (after.0.client.shared.writer ≡ given)
unfolding drop detach_locked detach wait
drop_returns {W} io wreck exits o rs r more joins h =
    let l = detach_locked io o.locked in
    let ended = reads-close io wreck l rs r more h in
    let same = debug_reads-writer io wreck l (rs ++ r ∷ more) in
    let last = steps_debug io wreck l (map read (rs ++ r ∷ more)) in
    let given = same ∙ given_to o.locked in
    let joined : (if o.reader then join io wreck l (rs ++ r ∷ more) else some (l, [])) ≡ some last =
      rw (joins, join-steps io wreck l (rs ++ r ∷ more) ended) refl in
    (
      last,
      ap (drop_end exits o.child) joined
          ∙ bind-if (gone (exits last.0.client.shared.writer) o.child) (reaped o.child)
              (λ children. (last, children))
          ∙ ap (λ w. if gone (exits w) o.child then some (last, reaped o.child) else none) given,
      ended,
      given,
    )
  where
    given_to :
        (l : Locked W)
        → (detach_locked io l).client.shared.writer ≡ (
            let w = l.client.shared.writer in
            if l.poisoned then w else (io.flush (io.write_all w (b'\n' ∷ [])).0).0)
    given_to l = elim (Bool-cases l.poisoned) [
      | inl bad ↦ simp bad refl
      | inr fine ↦ simp fine refl
    ]
