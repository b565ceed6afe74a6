-- ===== src/Driver/Blocking/Moves.antt =====
-- src/blocking.rs: what a step of a caller or of the reader does to those who wait.
use tmuxctl.Base.{
  ℕ, ◌+◌, ◌%◌, ◌<◌, ◌≤◌, ◌≡◌, refl, sym, ap, ◌∙◌, subst, true, false, List, [], ◌∷◌, ◌++◌,
  append-nil, arith, Text, Bytes, ◌==◌, All, All-append, All-map, Bool-cases, inl, inr,
}
use tmuxctl.Text.Number.{u64_bound}
use tmuxctl.Engine.{CommandId, register_command, feed, on_eof}
use tmuxctl.Engine.Fifo.{replies, ids, feed-ids, feed-next_id, on_eof-ids}
use tmuxctl.Driver.Blocking.{
  Write, Sender, Waiters, Shared, Client, Effect, ReadResult, interrupted, failed, bytes, insert,
  dispatch, resolve_all, disconnect, read_step, write_command, command,
}
use tmuxctl.Driver.Blocking.Waiting.{
  keys, senders, answered, accepted, Settled, deliver-Settled, resolve_all-Settled,
}

-- Inserting a key that is not there puts it at the end.
insert-fresh :
    (id : CommandId) (tx : Sender) (ws : Waiters)
    → All (λ k. k < id) (keys ws)
    → (keys (insert id tx ws) ≡ keys ws ++ id ∷ [])
      × (senders (insert id tx ws) ≡ senders ws ++ tx ∷ [])
unfolding insert
insert-fresh id tx [] h = (refl, refl)
insert-fresh id tx ((k, old) ∷ ws) (lt, h) =
    let (a, b) = insert-fresh id tx ws h in
    let other : k == id ≡ false = ground arith in rw other (ap (◌∷◌ k) a, ap (◌∷◌ old) b)

All-right : (P : ℕ → Type 0) (xs ys : List ℕ) → All P (xs ++ ys) → All P ys
All-right P [] ys h = h
All-right P (x ∷ xs) ys (p, h) = All-right P xs ys h

append-eq-nil : {A : Type 0} (xs ys : List A) → xs ++ ys ≡ [] → xs ≡ []
append-eq-nil [] ys h = refl
append-eq-nil (x ∷ xs) ys h = cc

keys-nil : (ws : Waiters) → keys ws ≡ [] → senders ws ≡ []
keys-nil [] h = refl
keys-nil ((id, tx) ∷ ws) h = cc

module _ {W : Type 0} where
  -- The engine's queue is the commands that are waited for, in the order in which their callers
  -- came. Only a command whose write failed is on the queue without a waiter, behind the others, and
  -- then the client is no longer connected. No id of the queue is given again.
  unfoldable pub Waited : Shared W → Type 0
  Waited s =
      (orphans : List CommandId) × (s.engine.pending ≡ keys s.waiters ++ orphans)
      × (s.connected ≡ true → orphans ≡ [])
      × All (λ id. id < s.engine.next_id) s.engine.pending

  -- Once the reader thread has left its loop, nobody waits and nobody will.
  unfoldable pub Sound : Client W → Type 0
  Sound c =
      Waited c.shared
      × (c.reading ≡ false → (senders c.shared.waiters ≡ []) × (c.shared.connected ≡ false))

  -- What a step does to those who wait: the first ones are answered, new ones wait behind.
  unfoldable pub Moves : Shared W → Shared W × List Effect → Type 0
  Moves s (s', out) =
      (Waited s')
      × (answered out ++ senders s'.waiters ≡ senders s.waiters ++ accepted out)
      × (s'.engine.next_id ≤ s.engine.next_id + 1)

  pub dispatch-Moves : (s : Shared W) (input : Bytes) → Waited s → Moves s (dispatch s input)
  unfolding dispatch Waited Moves Settled
  dispatch-Moves s input (orphans, q, c, lt) =
      let (engine, incoming) = feed s.engine input in
      let filled = feed-ids s.engine input in
      let same = feed-next_id s.engine input in
      let (left, a, b, d, e, f, g) =
        deliver-Settled incoming (record s { engine = engine }) engine.pending orphans
          (filled ∙ q) in
      (
        (
          left,
          ap (λ e. e.pending) f ∙ a,
          (λ h. b (c (sym g ∙ h))),
          rw f (rw same (All-right _ (ids (replies incoming)) engine.pending (rw filled lt))),
        ),
        d ∙ sym (append-nil (senders s.waiters)) ∙ ap (◌++◌ (senders s.waiters)) (sym e),
        rw (f, same) (omega arith),
      )

  pub disconnect-Moves :
      (s : Shared W)
      → Waited s
      → Moves s (disconnect s)
        × (senders (disconnect s).0.waiters ≡ [])
        × ((disconnect s).0.connected ≡ false)
  unfolding disconnect Waited Moves Settled on_eof
  disconnect-Moves s (orphans, q, c, lt) =
      let (engine, incoming) = on_eof s.engine in
      let start = record s { engine = engine; connected = false } in
      let (left, a, b, d, e, f, g) =
        resolve_all-Settled incoming start [] orphans
          (append-nil (ids (replies incoming)) ∙ on_eof-ids s.engine ∙ q) in
      let (s', out) = resolve_all incoming start in
      let none_left = keys-nil s'.waiters (append-eq-nil (keys s'.waiters) left (sym a)) in
      (
        (
          (
            left,
            ap (λ e. e.pending) f ∙ a,
            (λ h. b cc),
            subst (λ e. All (λ id. id < e.next_id) e.pending) (sym f) tt,
          ),
          d ∙ sym (append-nil (senders s.waiters)) ∙ ap (◌++◌ (senders s.waiters)) (sym e),
          rw f (omega arith),
        ),
        none_left,
        g,
      )

  pub stays : (s : Shared W) → Waited s → Moves s (s, [])
  unfolding Moves
  stays s w = (w, sym (append-nil (senders s.waiters)), omega arith)

  pub read_step-Moves :
      (s : Shared W) (r : ReadResult)
      → Waited s
      → Moves s (read_step s r).0
        × ((read_step s r).1 ≡ false
            → (senders (read_step s r).0.0.waiters ≡ []) × ((read_step s r).0.0.connected ≡ false))
  unfolding read_step
  read_step-Moves s (bytes []) w =
      let (m, none_left, off) = disconnect-Moves s w in (m, λ _. (none_left, off))
  read_step-Moves s (bytes (b ∷ input)) w = (dispatch-Moves s (b ∷ input) w, λ e. cc)
  read_step-Moves s interrupted w = (stays s w, λ e. cc)
  read_step-Moves s failed w =
      let (m, none_left, off) = disconnect-Moves s w in (m, λ _. (none_left, off))

module _ {W : Type 0} (io : Write W) where
  pub command-Moves :
      (s : Shared W) (tx : Sender) (cmd : Text)
      → s.engine.next_id + 1 < u64_bound
      → Waited s
      → Moves s (command io s tx cmd)
  unfolding command Waited Moves register_command
  command-Moves s tx cmd h (orphans, q, c, lt) =
      let id = s.engine.next_id in
      let wider : All (λ i. i < id + 1) (s.engine.pending ++ id ∷ []) =
        All-append (λ i. i < id + 1) s.engine.pending (id ∷ [])
          (All-map (λ i l. omega arith) s.engine.pending lt) (omega arith, tt) in
      let next : (id + 1) % u64_bound ≡ id + 1 = omega arith in
      elim (Bool-cases s.connected) [
        | inr off ↦
            rw off ((orphans, q, (λ e. cc), lt), sym (append-nil (senders s.waiters)), omega arith)
        | inl on ↦
            let whole : s.engine.pending ≡ keys s.waiters =
              q ∙ ap (◌++◌ (keys s.waiters)) (c on) ∙ append-nil (keys s.waiters) in
            let (ks, txs) = insert-fresh id tx s.waiters (subst (All (λ k. k < id)) whole lt) in
            elim (Bool-cases (write_command io s.writer cmd).1) [
              | inl ok ↦
                  rw (on, ok)
                    (
                      (
                        [],
                        ap (λ p. p ++ id ∷ []) whole
                            ∙ sym ks
                            ∙ sym (append-nil (keys (insert id tx s.waiters))),
                        (λ _. refl),
                        rw next wider,
                      ),
                      txs,
                      omega arith,
                    )
              | inr bad ↦
                  rw (on, bad)
                    (
                      (id ∷ [], ap (λ p. p ++ id ∷ []) whole, (λ e. cc), rw next wider),
                      sym (append-nil (senders s.waiters)),
                      omega arith,
                    )
            ]
      ]
