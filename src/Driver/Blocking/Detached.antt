-- ===== src/Driver/Blocking/Detached.antt =====
-- src/blocking.rs: what the drop of a client tells those who wait, and the peer.
use tmuxctl.Base.{
  ◌+◌, ◌<◌, ◌≤◌, ◌≡◌, refl, sym, ap, ◌∙◌, true, false, Option, some, List, [], ◌∷◌, ◌++◌, map,
  append-nil, arith, length, inl, inr, none, bind-if, if◌then◌else◌, Bool,
}
use tmuxctl.Text.Number.{u64_bound}
use tmuxctl.Engine.{Engine}
use tmuxctl.Driver.Blocking.{Write, Client, Effect, ReadResult, Act, read, detach, step, steps}
use tmuxctl.Driver.Blocking.Waiting.{senders, answered, accepted, accepted-append}
use tmuxctl.Driver.Blocking.Moves.{Waited, Sound}
use tmuxctl.Driver.Blocking.Session.{session, session-Sound, steps-Sound}
use tmuxctl.Driver.Blocking.Poison.{Locked, steps_debug, steps-released}
use tmuxctl.Driver.Blocking.Passive.{Passive-nothing, read-Passive}
use tmuxctl.Driver.Blocking.Answers.{session-next_id}
use tmuxctl.Driver.Blocking.Dropped.{closes, step-writer, reads-close, join-steps, drop_end}
use tmuxctl.Driver.Blocking.Owned.{Owned, reaped, gone, wait, detach_locked, drop}

length-reads : (rs : List ReadResult) → length (map read rs) ≡ length rs
length-reads [] = refl
length-reads (r ∷ rs) = omega (arith, length-reads rs)

module _ {W : Type 0} (io : Write W) where
  abbrev detached : Client W → Client W
  detached c = record c { shared = detach io c.shared }

  detached-Sound : (c : Client W) → Sound c → Sound (detached c)
  unfolding Sound Waited detach
  detached-Sound c sound = sound

  reads-accepted :
      (c : Client W) (rs : List ReadResult) → accepted (steps io c (map read rs)).1 ≡ []
  unfolding steps
  reads-accepted c [] = refl
  reads-accepted c (r ∷ rs) =
      let (c', now) = step io c (read r) in
      accepted-append now (steps io c' (map read rs)).1
      ∙ rw ((Passive-nothing now (read-Passive io c r)).2, reads-accepted c' rs) refl

  reads-writer :
      (c : Client W) (rs : List ReadResult)
      → (steps io c (map read rs)).0.shared.writer ≡ c.shared.writer
  unfolding steps
  reads-writer c [] = refl
  reads-writer c (r ∷ rs) = reads-writer (step io c (read r)).0 rs ∙ step-writer io c r

-- The drop of a client after any steps, fewer than 2^64 with the reads that are left, of which one is
-- the end of the stream or an error that is no interrupt, and none makes the reader thread panic: the
-- writer was given one empty line and nothing more; every caller that still waits has
-- been sent a result, in the order of the calls; nobody waits, the client is not connected, the
-- reader thread has left its loop; and the drop returns exactly if there is no child or the child
-- exits upon that, and then exactly the child is reaped.
pub drop_session :
    {W E C : Type 0} (io : Write W) (wreck : Engine → Engine) (exits : W → C → Bool) (w : W)
    (acts : List Act) (receiver : Option E) (child : Option C) (rs : List ReadResult)
    (r : ReadResult) (more : List ReadResult)
    → length acts + length (rs ++ r ∷ more) < u64_bound
    → closes r ≡ true
    → (steps_debug io wreck
        (record {
          client = record (session io w acts).0 { shared = detach io (session io w acts).0.shared };
          poisoned = false;
        })
        (map read (rs ++ r ∷ more))).0.poisoned
      ≡ false
    → let c = (session io w acts).0 in
      let owned : Owned W E C = record {
        locked = record { client = c; poisoned = false };
        receiver = receiver;
        reader = true;
        child = child;
      } in
      (after : Client W × List Effect) × (drop io wreck exits owned (rs ++ r ∷ more) ≡ (
        if gone (exits (detach io c.shared).writer) child
        then some ((record { client = after.0; poisoned = false }, after.1), reaped child)
        else none))
      × (after.0.shared.writer ≡ (detach io c.shared).writer)
      × (answered after.1 ≡ senders c.shared.waiters)
      × (senders after.0.shared.waiters ≡ [])
      × (after.0.shared.connected ≡ false)
      × (after.0.reading ≡ false)
unfolding drop detach_locked Sound detach wait
drop_session io wreck exits w acts receiver child rs r more h end calm =
    let c = (session io w acts).0 in
    let reads = map read (rs ++ r ∷ more) in
    let l : Locked _ = record { client = detached io c; poisoned = false } in
    let ended = reads-close io wreck l rs r more end in
    let few : c.shared.engine.next_id ≤ length acts = session-next_id io w acts (omega arith) in
    let (sound, _) = session-Sound io w acts (omega arith) in
    let (sound', all) =
      steps-Sound io (detached io c) reads
        (unfold detach in omega (arith, few, length-reads (rs ++ r ∷ more)))
        (detached-Sound io c sound) in
    let (after, out) = steps io (detached io c) reads in
    elim (steps-released io wreck (detached io c) reads) [
      | inr bad ↦ absurd (cc (calm, bad))
      | inl same ↦
          let off : after.reading ≡ false = sym (ap (λ x. x.0.client.reading) same) ∙ ended in
          let (nobody, over) = sound'.1 off in
          let writer = reads-writer io (detached io c) (rs ++ r ∷ more) in
          (
            (after, out),
            ap (drop_end exits child) (join-steps io wreck l (rs ++ r ∷ more) ended ∙ ap some same)
                ∙ bind-if (gone (exits after.shared.writer) child) (reaped child)
                    (λ children. (_, children))
                ∙ ap
                    (λ w.
                      if gone (exits w) child
                      then some ((record { client = after; poisoned = false }, out), reaped child)
                      else none)
                    writer,
            writer,
            sym (append-nil (answered out))
                ∙ ap (◌++◌ (answered out)) (sym nobody)
                ∙ all
                ∙ ap (◌++◌ (senders c.shared.waiters))
                    (reads-accepted io (detached io c) (rs ++ r ∷ more))
                ∙ append-nil (senders c.shared.waiters),
            nobody,
            over,
            off,
          )
    ]
