-- ===== src/Driver/Handle/Exits.antt =====
-- src/tokio_rt.rs: the calls of a client over a child or without one, and the end of its task.
use tmuxctl.Base.{
  if-cases, ◌+◌, ◌<◌, ◌≤◌, ◌≡◌, refl, sym, ap, ◌∙◌, Bool, true, false, Option, none, some, List, [],
  ◌∷◌, ◌++◌, arith, length, length-append, append_assoc, Text, Bool-cases, inl, inr,
}
use tmuxctl.Text.Number.{u64_bound}
use tmuxctl.Driver.Blocking.{Write, Sender, Effect, Waiters}
use tmuxctl.Driver.Blocking.Waiting.{senders, keys}
use tmuxctl.Driver.Blocking.Moves.{Waited}
use tmuxctl.Driver.Contract.Counts.{count, count-append, returned, count-returned}
use tmuxctl.Driver.Owner.{Task, Turn, request, turn, teardown}
use tmuxctl.Engine.{on_eof}
use tmuxctl.Driver.Owner.Same.{shared}
use tmuxctl.Driver.Handle.{
  Request, Channel, DropsAll, Ends, Act, call, drop_handle, receive, read, refuse, command, advance,
  received, step,
}
use tmuxctl.Driver.Handle.Calls.{callers, callers-append, calls, asked, returned-refuse}
use tmuxctl.Driver.Handle.Turns.{open_calls, Sound, Keeps, step-Keeps}
use tmuxctl.Driver.Handle.Returns.{new-Sound, calls-end}
use tmuxctl.Driver.Handle.Child.{
  Life, Event, act, exits, acts_of, client_over, close, advance_life, received_life, step_life,
  steps_life, steps_life-last, command-running,
}
use tmuxctl.Driver.Handle.Reaping.{read_error-looping}

module _ {W Q : Type 0} (io : Write W) (ch : Channel Q) where
  -- Behind the loop nobody waits, and without a child the task has ended.
  unfoldable LifeSound : Life W Q → Type 0
  LifeSound l =
      Sound io ch l.ends
      × (l.looping ≡ false
          → (senders l.ends.task.waiters ≡ []) × (l.child ≡ false → l.ends.running ≡ false))
      × (l.looping ≡ true → l.ends.running ≡ true)

  -- An event loses no call, and returns from none twice.
  unfoldable LifeKeeps : Life W Q → List Sender → Life W Q × List Effect → Type 0
  LifeKeeps l new (l', out) =
      LifeSound l'
      × ((tx : Sender)
          → count tx (returned out) + open_calls io ch tx l'.ends
            ≡ open_calls io ch tx l.ends + count tx new)
      × (l'.ends.task.engine.next_id ≤ l.ends.task.engine.next_id + 1)

  close-count :
      (q : Q) (tx : Sender)
      → count tx (returned (refuse (ch.close q).0))
          + count tx (callers (ch.contents (ch.close q).1))
        ≡ count tx (callers (ch.contents q))
  close-count q tx = omega (
    arith,
    ap (count tx) (returned-refuse (ch.close q).0),
    count-append tx (callers (ch.close q).0) (callers (ch.contents (ch.close q).1)),
    ap (count tx) (callers-append (ch.close q).0 (ch.contents (ch.close q).1)),
    ap (λ rs. count tx (callers rs)) (ch.close_splits q),
  )

  teardown-Waited :
      (t : Task W) → senders (teardown io t).0.waiters ≡ [] → Waited (shared true (teardown io t).0)
  unfolding teardown on_eof Waited shared
  teardown-Waited t nobody = ([], no_keys (teardown io t).0.waiters nobody, (λ e. refl), tt)
    where
      no_keys : (ws : Waiters) → senders ws ≡ [] → [] ≡ keys ws ++ []
      no_keys [] h = refl
      no_keys ((id, tx) ∷ ws) h = absurd cc

  idle-LifeKeeps : (l : Life W Q) → LifeSound l → LifeKeeps l [] (l, [])
  unfolding LifeKeeps
  idle-LifeKeeps l sound = (sound, (λ tx. omega arith), omega arith)

  -- A turn of the loop keeps what it keeps without a child.
  advance-LifeKeeps :
      (l : Life W Q) (q : Q) (u : Turn)
      → l.ends.running ≡ true
      → l.looping ≡ true
      → Keeps io ch l.ends [] (advance io ch l.ends q u)
      → LifeKeeps l [] (advance_life io ch l q u)
  unfolding advance advance_life Keeps LifeKeeps LifeSound Sound close
  advance-LifeKeeps l q u on loops kept =
      let ((t, out), goes_on) = turn io l.ends.task u in
      elim (Bool-cases goes_on) [
        | inl more ↦
            let (sound, total, lt) = simp more at kept in
            simp more ((sound, (λ off. absurd (cc (loops, off))), λ _. on), total, lt)
        | inr less ↦
            let (sound, total, lt) = simp less at kept in
            let (nobody, none_queued) = sound.1 refl in
            elim (Bool-cases l.child) [
              | inr childless ↦
                  simp (less, childless) ((sound, (λ _. (nobody, λ _. refl)), λ e. cc), total, lt)
              | inl there ↦
                  simp (less, there)
                    (
                      (
                        ((λ _. teardown-Waited t nobody), λ off. absurd (cc (on, off))),
                        (λ _. (nobody, λ gone. absurd (cc (there, gone)))),
                        λ e. cc,
                      ),
                      (λ tx. omega (
                        arith,
                        total tx,
                        close-count q tx,
                        count-returned tx (out ++ (teardown io t).1) (refuse (ch.close q).0),
                      )),
                      lt,
                    )
            ]
      ]

  received-LifeKeeps :
      (l : Life W Q) (r : Option Request × Q)
      → l.ends.running ≡ true
      → l.looping ≡ true
      → LifeSound l
      → Keeps io ch l.ends [] (received io ch l.ends r)
      → LifeKeeps l [] (received_life io ch l r)
  unfolding received received_life
  received-LifeKeeps l (some r, q) on loops sound kept =
      advance-LifeKeeps l q (request (some r)) on loops kept
  received-LifeKeeps l (none, q) on loops sound kept = elim (Bool-cases l.ends.held) [
    | inl held ↦ simp held (idle-LifeKeeps l sound)
    | inr dropped ↦
        simp dropped (advance-LifeKeeps l q (request none) on loops (simp dropped at kept))
  ]

  command-task :
      (s : Ends W Q) (tx : Sender) (cmd : Text) → (command io ch s tx cmd).0.task ≡ s.task
  unfolding command
  command-task s tx cmd = ground arith

  call-LifeKeeps :
      (l : Life W Q) (tx : Sender) (cmd : Text)
      → l.ends.task.engine.next_id + 1 < u64_bound
      → LifeSound l
      → LifeKeeps l (callers (asked l.ends (call tx cmd))) (step_life io ch l (act (call tx cmd)))
  unfolding LifeKeeps LifeSound step_life step Keeps
  call-LifeKeeps l tx cmd h (sound, behind, before) =
      let (sound', total, lt) = step-Keeps io ch l.ends (call tx cmd) h sound in
      let same = command-running io ch l.ends tx cmd in
      let task = command-task l.ends tx cmd in
      (
        (
          sound',
          (λ off. (
            ap (λ (t : Task W). senders t.waiters) task ∙ (behind off).0,
            λ gone. same ∙ (behind off).1 gone,
          )),
          λ on. same ∙ before on,
        ),
        total,
        lt,
      )

  drop-LifeKeeps :
      (l : Life W Q)
      → l.ends.task.engine.next_id + 1 < u64_bound
      → LifeSound l
      → LifeKeeps l [] (step_life io ch l (act drop_handle))
  unfolding LifeKeeps LifeSound step_life step asked Keeps
  drop-LifeKeeps l h (sound, behind, before) =
      let (sound', total, lt) = step-Keeps io ch l.ends drop_handle h sound in
      ((sound', behind, before), total, lt)

  act-LifeKeeps :
      (l : Life W Q) (a : Act)
      → l.ends.task.engine.next_id + 1 < u64_bound
      → LifeSound l
      → LifeKeeps l (callers (asked l.ends a)) (step_life io ch l (act a))
  unfolding step_life step asked
  act-LifeKeeps l (call tx cmd) h sound = call-LifeKeeps l tx cmd h sound
  act-LifeKeeps l drop_handle h sound = drop-LifeKeeps l h sound
  act-LifeKeeps l receive h sound =
      if-cases (LifeKeeps l []) l.looping _ _
        (λ loops.
          let on : l.ends.running ≡ true = unfold LifeSound in sound.2 loops in
          let kept = step-Keeps io ch l.ends receive h (unfold LifeSound in sound.0) in
          received-LifeKeeps l (ch.recv l.ends.queue) on loops sound (simp on at kept))
        (λ off. idle-LifeKeeps l sound)
  act-LifeKeeps l (read r) h sound =
      if-cases (LifeKeeps l []) l.looping _ _
        (λ loops.
          let on : l.ends.running ≡ true = unfold LifeSound in sound.2 loops in
          let kept = step-Keeps io ch l.ends (read r) h (unfold LifeSound in sound.0) in
          advance-LifeKeeps l l.ends.queue (Turn.read r) on loops (simp on at kept))
        (λ off. idle-LifeKeeps l sound)

  gone-LifeKeeps :
      (l : Life W Q)
      → l.looping ≡ true
      → LifeSound l
      → LifeKeeps l [] (record l { child = false }, [])
  unfolding LifeKeeps LifeSound
  gone-LifeKeeps l loops (sound, behind, before) =
      ((sound, (λ off. absurd (cc (loops, off))), before), (λ tx. omega arith), omega arith)

  close-LifeKeeps :
      (l : Life W Q)
      → l.looping ≡ false
      → LifeSound l
      → LifeKeeps l [] (close io ch (record l { child = false }))
  unfolding LifeKeeps LifeSound close Sound DropsAll
  close-LifeKeeps l off (sound, behind, before) =
      let (nobody, _) = behind off in
      (
        (
          ((λ e. cc), λ _. (nobody, λ drops. drops l.ends.queue)),
          (λ _. (nobody, λ _. refl)),
          λ on. absurd (cc (on, off)),
        ),
        (λ tx. omega (arith, close-count l.ends.queue tx)),
        omega arith,
      )

  exits-LifeKeeps : (l : Life W Q) → LifeSound l → LifeKeeps l [] (step_life io ch l exits)
  unfolding step_life
  exits-LifeKeeps l sound =
      if-cases (LifeKeeps l []) l.child _ _
        (λ there.
          if-cases (LifeKeeps l []) l.looping _ _ (λ loops. gone-LifeKeeps l loops sound)
            (λ off. close-LifeKeeps l off sound))
        (λ gone. idle-LifeKeeps l sound)

  -- The calls of an event.
  abbrev asked_by : Life W Q → Event → List Request
  asked_by l (act a) = asked l.ends a
  asked_by l exits = []

  event-LifeKeeps :
      (l : Life W Q) (e : Event)
      → l.ends.task.engine.next_id + 1 < u64_bound
      → LifeSound l
      → LifeKeeps l (callers (asked_by l e)) (step_life io ch l e)
  event-LifeKeeps l (act a) h sound = act-LifeKeeps l a h sound
  event-LifeKeeps l exits h sound = exits-LifeKeeps l sound

  advance-held :
      (l : Life W Q) (q : Q) (u : Turn) → (advance_life io ch l q u).0.ends.held ≡ l.ends.held
  unfolding advance_life close
  advance-held l q u =
      if-cases (λ (x : Life W Q × List Effect). x.0.ends.held ≡ l.ends.held)
        (turn io l.ends.task u).1 _ _ (λ more. refl)
        (λ less.
          if-cases (λ (x : Life W Q × List Effect). x.0.ends.held ≡ l.ends.held) l.child _ _
            (λ there. refl) (λ gone. refl))

  received-held :
      (l : Life W Q) (r : Option Request × Q) → (received_life io ch l r).0.ends.held ≡ l.ends.held
  unfolding received_life
  received-held l (some r, q) = advance-held l q (request (some r))
  received-held l (none, q) =
      if-cases (λ (x : Life W Q × List Effect). x.0.ends.held ≡ l.ends.held) l.ends.held _ _
        (λ held. refl) (λ dropped. advance-held l q (request none))

  calls-event :
      (l : Life W Q) (e : Event) (events : List Event)
      → calls l.ends.held (acts_of (e ∷ events))
        ≡ asked_by l e ++ calls (step_life io ch l e).0.ends.held (acts_of events)
  unfolding calls asked step_life command close
  calls-event l (act (call tx cmd)) events = ground arith
  calls-event l (act drop_handle) events = refl
  calls-event l (act receive) events =
      ap (λ b. calls b (acts_of events))
        (sym (
          if-cases (λ (x : Life W Q × List Effect). x.0.ends.held ≡ l.ends.held) l.looping _ _
            (λ loops. received-held l (ch.recv l.ends.queue)) (λ off. refl)))
  calls-event l (act (read r)) events =
      ap (λ b. calls b (acts_of events))
        (sym (
          if-cases (λ (x : Life W Q × List Effect). x.0.ends.held ≡ l.ends.held) l.looping _ _
            (λ loops. advance-held l l.ends.queue (Turn.read r)) (λ off. refl)))
  calls-event l exits events =
      ap (λ b. calls b (acts_of events))
        (sym (
          if-cases (λ (x : Life W Q × List Effect). x.0.ends.held ≡ l.ends.held) l.child _ _
            (λ there.
              if-cases (λ (x : Life W Q × List Effect). x.0.ends.held ≡ l.ends.held) l.looping _ _
                (λ loops. refl) (λ off. refl))
            (λ gone. refl)))

  events-LifeKeeps :
      (l : Life W Q) (events : List Event)
      → l.ends.task.engine.next_id + length events < u64_bound
      → LifeSound l
      → LifeSound (steps_life io ch l events).0
        × ((tx : Sender)
            → count tx (returned (steps_life io ch l events).1)
                + open_calls io ch tx (steps_life io ch l events).0.ends
              ≡ open_calls io ch tx l.ends
                + count tx (callers (calls l.ends.held (acts_of events))))
  unfolding steps_life LifeKeeps
  events-LifeKeeps l [] h sound = (sound, λ tx. unfold calls in omega arith)
  events-LifeKeeps l (e ∷ events) h sound =
      let (l', now) = step_life io ch l e in
      let (sound', total, lt) = event-LifeKeeps l e (omega arith) sound in
      let (sound'', later) = events-LifeKeeps l' events (omega arith) sound' in
      (
        sound'',
        λ tx. omega (
          arith,
          total tx,
          later tx,
          count-returned tx now (steps_life io ch l' events).1,
          ap (λ rs. count tx (callers rs)) (calls-event l e events),
          ap (count tx) (callers-append (asked_by l e) (calls l'.ends.held (acts_of events))),
          count-append tx (callers (asked_by l e)) (callers (calls l'.ends.held (acts_of events))),
        ),
      )

  -- Once the loop has ended and the child has exited, the task has ended.
  exits-ends :
      (l : Life W Q)
      → LifeSound l
      → l.looping ≡ false
      → (step_life io ch l exits).0.ends.running ≡ false
  unfolding step_life LifeSound close
  exits-ends l sound off =
      let Off = λ (x : Life W Q × List Effect). x.0.ends.running ≡ false in
      if-cases Off l.child _ _
        (λ there. if-cases Off l.looping _ _ (λ loops. absurd (cc (loops, off))) (λ _. refl))
        (λ gone. (sound.1 off).1 gone)

  all_told :
      (l : Life W Q)
      → LifeSound l
      → l.ends.running ≡ false
      → (senders l.ends.task.waiters ≡ []) × (DropsAll ch → ch.contents l.ends.queue ≡ [])
  unfolding LifeSound Sound
  all_told l sound off = sound.0.1 off

acts_of-append : (xs ys : List Event) → acts_of (xs ++ ys) ≡ acts_of xs ++ acts_of ys
acts_of-append [] ys = refl
acts_of-append (act a ∷ xs) ys = ap (◌∷◌ a) (acts_of-append xs ys)
acts_of-append (exits ∷ xs) ys = acts_of-append xs ys

-- Over fewer than 2^64 events of a new client, over a child process or over an injected transport, in
-- which its callers, the drop of its handle, the turns of the owner task and the exit of the child
-- interleave in any order, and whatever the transport does: if a read then fails and the child, where
-- there is one, then exits, if it has not before, then the owner task has ended; and if the channel
-- drops what its receiver did not take, every call of `command` has returned, and no call twice.
pub handle_exits :
    {W Q E : Type 0} (io : Write W) (ch : Channel Q) (w : W) (child : Bool) (ev_rx : E)
    (events : List Event) (tx : Sender)
    → DropsAll ch
    → length events + 2 < u64_bound
    → let start = (client_over io ch w child ev_rx).life in
      let (l, out) = steps_life io ch start (events ++ act (read none) ∷ exits ∷ []) in
      (l.ends.running ≡ false)
      × (count tx (returned out) ≡ count tx (callers (calls true (acts_of events))))
unfolding client_over
handle_exits io ch w child ev_rx events tx drops h =
    let start = (client_over io ch w child ev_rx).life in
    let last = act (read none) ∷ exits ∷ [] in
    let sound : LifeSound io ch start =
      unfold LifeSound in (new-Sound io ch w, (λ off. absurd cc), λ _. refl) in
    let all = events ++ last in
    let (sound', total) =
      events-LifeKeeps io ch start all (omega (arith, length-append events last)) sound in
    let failed = events ++ act (read none) ∷ [] in
    let (failed_sound, _) =
      events-LifeKeeps io ch start failed
        (omega (arith, length-append events (act (read none) ∷ []))) sound in
    let off : (steps_life io ch start failed).0.looping ≡ false =
      ap (λ (l : Life _ _). l.looping) (steps_life-last io ch start events (act (read none)))
      ∙ read_error-looping io ch (steps_life io ch start events).0 in
    let ended : (steps_life io ch start all).0.ends.running ≡ false =
      ap (λ es. (steps_life io ch start es).0.ends.running)
        (sym (append_assoc events (act (read none) ∷ []) (exits ∷ [])))
      ∙ ap (λ (l : Life _ _). l.ends.running) (steps_life-last io ch start failed exits)
      ∙ exits-ends io ch (steps_life io ch start failed).0 failed_sound off in
    let (nobody, none_queued) = all_told io ch (steps_life io ch start all).0 sound' ended in
    (
      ended,
      omega (
        arith,
        total tx,
        ap (count tx) nobody,
        ap (λ rs. count tx (callers rs)) (none_queued drops),
        ap (λ rs. count tx (callers rs)) ch.contents_empty,
        ap (λ acts. count tx (callers (calls true acts))) (acts_of-append events last),
        ap (λ rs. count tx (callers rs)) (calls-end true (acts_of events)),
      ),
    )
