-- ===== src/Driver/Handle/Turns.antt =====
-- src/tokio_rt.rs, src/smol_rt.rs: a step of the two ends loses no call and answers none twice.
use tmuxctl.Base.{
  ℕ, ◌+◌, ◌<◌, ◌≤◌, ◌≡◌, refl, sym, ap, ◌∙◌, subst, true, false, Option, none, some, List, [], ◌∷◌,
  ◌++◌, arith, Text, Bytes, Bool-cases, inl, inr,
}
use tmuxctl.Text.Number.{u64_bound}
use tmuxctl.Driver.Blocking.{Write, Sender, Effect, refused}
use tmuxctl.Driver.Blocking.Waiting.{senders}
use tmuxctl.Driver.Blocking.Moves.{Waited, Moves}
use tmuxctl.Engine.{on_eof}
use tmuxctl.Driver.Owner.{Task, Turn, request, turn, teardown}
use tmuxctl.Driver.Owner.Same.{shared}
use tmuxctl.Driver.Owner.Drained.{turn-Moves}
use tmuxctl.Driver.Owner.Refines.{inputs_of, turn-react, teardown-react}
use tmuxctl.Driver.Blocking.Refines.{view}
use tmuxctl.Driver.Contract.{hang_up, react}
use tmuxctl.Driver.Contract.Counts.{
  count, count-append, returned, count-returned, askers, reacts-count, react-count,
}
use tmuxctl.Driver.Handle.{
  Request, Channel, DropsAll, Ends, Act, call, drop_handle, receive, read, refuse, command, advance,
  received, step,
}
use tmuxctl.Driver.Handle.Calls.{callers, callers-append, returned-refuse, asked}

module _ {W Q : Type 0} (io : Write W) (ch : Channel Q) where
  -- How many calls of a caller are under way: it waits for a reply, or its request is queued.
  abbrev pub open_calls : Sender → Ends W Q → ℕ
  open_calls tx s = count tx (senders s.task.waiters) + count tx (callers (ch.contents s.queue))

  -- While the task runs its engine agrees with those who wait, and then nobody waits, and no request
  -- is left in a channel that drops what its receiver did not take.
  unfoldable pub Sound : Ends W Q → Type 0
  Sound s =
      (s.running ≡ true → Waited (shared true s.task))
      × (s.running ≡ false
          → (senders s.task.waiters ≡ []) × (DropsAll ch → ch.contents s.queue ≡ []))

  -- A step loses no call, and returns from none twice.
  unfoldable pub Keeps : Ends W Q → List Sender → Ends W Q × List Effect → Type 0
  Keeps s new (s', out) =
      Sound s'
      × ((tx : Sender)
          → count tx (returned out) + open_calls tx s' ≡ open_calls tx s + count tx new)
      × (s'.task.engine.next_id ≤ s.task.engine.next_id + 1)

  turn-count :
      (t : Task W) (u : Turn) (tx : Sender)
      → t.engine.next_id + 1 < u64_bound
      → Waited (shared true t)
      → count tx (returned (turn io t u).0.1) + count tx (senders (turn io t u).0.0.waiters)
        ≡ count tx (senders t.waiters) + count tx (askers (inputs_of io t u))
  unfolding view shared
  turn-count t u tx h w =
      let (b, now, same) = turn-react io t u h w in
      subst
        (λ x.
          count tx (returned x.1) + count tx x.0.queue
          ≡ count tx (senders t.waiters) + count tx (askers (inputs_of io t u)))
        now (reacts-count tx (view (shared true t)) (inputs_of io t u))

  teardown-count :
      (t : Task W) (tx : Sender)
      → Waited (shared false t)
      → (count tx (returned (teardown io t).1) ≡ count tx (senders t.waiters))
        × (senders (teardown io t).0.waiters ≡ [])
  unfolding view shared react
  teardown-count t tx w =
      let last = teardown-react io t false w in
      let none_left = ap (λ x. x.0.queue) last in
      (
        omega (
          arith,
          subst
              (λ x. count tx (returned x.1) + count tx x.0.queue ≡ count tx (senders t.waiters) + 0)
              last (react-count tx (view (shared false t)) hang_up),
          ap (count tx) none_left,
        ),
        sym none_left,
      )

  askers-read : (t : Task W) (r : Option Bytes) → askers (inputs_of io t (Turn.read r)) ≡ []
  askers-read t none = refl
  askers-read t (some []) = refl
  askers-read t (some (b ∷ input)) = refl

  advance-Keeps :
      (s : Ends W Q) (q : Q) (u : Turn)
      → s.running ≡ true
      → s.task.engine.next_id + 1 < u64_bound
      → Waited (shared true s.task)
      → Sound (advance io ch s q u).0
        × ((tx : Sender)
            → count tx (returned (advance io ch s q u).1) + open_calls tx (advance io ch s q u).0
              ≡ count tx (senders s.task.waiters)
                + count tx (askers (inputs_of io s.task u))
                + count tx (callers (ch.contents q)))
        × ((advance io ch s q u).0.task.engine.next_id ≤ s.task.engine.next_id + 1)
  unfolding advance Sound Moves shared teardown on_eof DropsAll
  advance-Keeps s q u on h w =
      let ((t, out), goes_on) = turn io s.task u in
      let (w', _, lt) = turn-Moves io s.task u h w in
      elim (Bool-cases goes_on) [
        | inl more ↦ rw more (
          ((λ _. subst (λ b. Waited (shared b t)) more w'), λ e. cc),
          (λ tx. omega (arith, turn-count s.task u tx h w)),
          lt,
        )
        | inr less ↦
            let w'' = subst (λ b. Waited (shared b t)) less w' in
            let none_left = (teardown-count t 0 w'').1 in
            rw less (
              ((λ e. cc), λ _. (none_left, λ drops. drops q)),
              (λ tx. omega (
                arith,
                turn-count s.task u tx h w,
                teardown-count t tx w'',
                count-returned tx (out ++ (teardown io t).1) (refuse (ch.close q).0),
                count-returned tx out (teardown io t).1,
                ap (count tx) none_left,
                ap (count tx) (returned-refuse (ch.close q).0),
                count-append tx (callers (ch.close q).0) (callers (ch.contents (ch.close q).1)),
                ap (count tx) (callers-append (ch.close q).0 (ch.contents (ch.close q).1)),
                ap (λ rs. count tx (callers rs)) (ch.close_splits q),
              )),
              lt,
            )
      ]

  idle-Keeps : (s : Ends W Q) → Sound s → Keeps s [] (s, [])
  unfolding Keeps
  idle-Keeps s sound = (sound, (λ tx. omega arith), omega arith)

  -- With a turn the task takes either nothing from the queue or a request.
  taken-Keeps :
      (s : Ends W Q) (q : Q) (u : Turn)
      → callers (ch.contents s.queue) ≡ askers (inputs_of io s.task u) ++ callers (ch.contents q)
      → s.running ≡ true
      → s.task.engine.next_id + 1 < u64_bound
      → Sound s
      → Keeps s [] (advance io ch s q u)
  unfolding Keeps
  taken-Keeps s q u same on h sound =
      let (sound', total, lt) = advance-Keeps s q u on h (unfold Sound in sound.0 on) in
      (
        sound',
        (λ tx. omega (
          arith,
          total tx,
          ap (count tx) same,
          count-append tx (askers (inputs_of io s.task u)) (callers (ch.contents q)),
        )),
        lt,
      )

  received-Keeps :
      (s : Ends W Q) (rs : List Request)
      → ch.contents s.queue ≡ rs
      → s.running ≡ true
      → s.task.engine.next_id + 1 < u64_bound
      → Sound s
      → Keeps s [] (received io ch s (ch.recv s.queue))
  unfolding received
  received-Keeps s [] none_queued on h sound =
      rw (ch.recv_none s.queue none_queued) (elim (Bool-cases s.held) [
        | inl alive ↦ simp alive (idle-Keeps s sound)
        | inr dropped ↦ simp dropped (taken-Keeps s s.queue (request none) refl on h sound)
      ])
  received-Keeps s ((cmd, tx') ∷ rest) queued on h sound =
      let (first, later) = ch.recv_some s.queue (cmd, tx') rest queued in
      subst (λ r. Keeps s [] (received io ch s (r, (ch.recv s.queue).1))) (sym first)
        (taken-Keeps s (ch.recv s.queue).1 (request (some (cmd, tx')))
          (ap callers queued ∙ ap (λ rs. tx' ∷ callers rs) (sym later)) on h sound)

  sent-Keeps :
      (s : Ends W Q) (tx' : Sender) (cmd : Text)
      → s.running ≡ true
      → Sound s
      → Keeps s (tx' ∷ []) (record s { queue = ch.send (cmd, tx') s.queue }, [])
  unfolding Keeps Sound
  sent-Keeps s tx' cmd on sound = (
    (sound.0, λ e. cc),
    (λ tx. omega (
      arith,
      ap (λ rs. count tx (callers rs)) (ch.contents_send (cmd, tx') s.queue),
      ap (count tx) (callers-append (ch.contents s.queue) ((cmd, tx') ∷ [])),
      count-append tx (callers (ch.contents s.queue)) (tx' ∷ []),
    )),
    omega arith,
  )

  refused-Keeps : (s : Ends W Q) (tx' : Sender) → Sound s → Keeps s (tx' ∷ []) (s, refused tx' ∷ [])
  unfolding Keeps
  refused-Keeps s tx' sound = (sound, (λ tx. omega arith), omega arith)

  command-Keeps :
      (s : Ends W Q) (tx : Sender) (cmd : Text)
      → Sound s
      → Keeps s (callers (asked s (call tx cmd))) (command io ch s tx cmd)
  unfolding command asked
  command-Keeps s tx cmd sound = elim (Bool-cases s.held) [
    | inr dropped ↦ simp dropped (idle-Keeps s sound)
    | inl alive ↦ elim (Bool-cases s.running) [
      | inl on ↦
          let kept : Keeps s (tx ∷ []) (record s { queue = ch.send (cmd, tx) s.queue }, []) =
            sent-Keeps s tx cmd on sound in
          simp (alive, on) (simp (alive, on) at kept)
      | inr off ↦ simp (alive, off) (refused-Keeps s tx sound)
    ]
  ]

  pub step-Keeps :
      (s : Ends W Q) (a : Act)
      → s.task.engine.next_id + 1 < u64_bound
      → Sound s
      → Keeps s (callers (asked s a)) (step io ch s a)
  unfolding step asked
  step-Keeps s (call tx cmd) h sound = command-Keeps s tx cmd sound
  step-Keeps s drop_handle h sound = unfold Keeps Sound in (sound, (λ tx. omega arith), omega arith)
  step-Keeps s receive h sound = elim (Bool-cases s.running) [
    | inl on ↦ simp on (received-Keeps s (ch.contents s.queue) refl on h sound)
    | inr off ↦ simp off (idle-Keeps s sound)
  ]
  step-Keeps s (read r) h sound = elim (Bool-cases s.running) [
    | inl on ↦ simp on (
        taken-Keeps s s.queue (Turn.read r)
          (sym (ap (λ xs. xs ++ callers (ch.contents s.queue)) (askers-read s.task r))) on h sound)
    | inr off ↦ simp off (idle-Keeps s sound)
  ]
