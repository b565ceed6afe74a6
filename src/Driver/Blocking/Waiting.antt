-- ===== src/Driver/Blocking/Waiting.antt =====
-- src/blocking.rs: who waits for a result, and who gets it.
use tmuxctl.Base.{◌≡◌, refl, ap, ◌∙◌, true, List, [], ◌∷◌, ◌++◌, append_assoc, arith, ◌==◌}
use tmuxctl.Engine.{CommandId, CommandResult, Incoming}
use tmuxctl.Engine.Fifo.{replies, ids}
use tmuxctl.Driver.Blocking.{
  Sender, Waiters, Shared, Effect, event, sent, waits, refused, remove, resolve, deliver,
  resolve_all, notify,
}

abbrev pub keys : Waiters → List CommandId
keys [] = []
keys ((id, tx) ∷ ws) = id ∷ keys ws

abbrev pub senders : Waiters → List Sender
senders [] = []
senders ((id, tx) ∷ ws) = tx ∷ senders ws

-- The channels that a result was sent to, in order.
abbrev pub answered : List Effect → List Sender
answered [] = []
answered (event n ∷ out) = answered out
answered (sent tx r ∷ out) = tx ∷ answered out
answered (waits tx cmd ∷ out) = answered out
answered (refused tx ∷ out) = answered out

-- The channels that a caller started to wait on, in order.
abbrev pub accepted : List Effect → List Sender
accepted [] = []
accepted (event n ∷ out) = accepted out
accepted (sent tx r ∷ out) = accepted out
accepted (waits tx cmd ∷ out) = tx ∷ accepted out
accepted (refused tx ∷ out) = accepted out

pub answered-append : (xs ys : List Effect) → answered (xs ++ ys) ≡ answered xs ++ answered ys
answered-append [] ys = refl
answered-append (event n ∷ xs) ys = answered-append xs ys
answered-append (sent tx r ∷ xs) ys = ap (◌∷◌ tx) (answered-append xs ys)
answered-append (waits tx cmd ∷ xs) ys = answered-append xs ys
answered-append (refused tx ∷ xs) ys = answered-append xs ys

pub accepted-append : (xs ys : List Effect) → accepted (xs ++ ys) ≡ accepted xs ++ accepted ys
accepted-append [] ys = refl
accepted-append (event n ∷ xs) ys = accepted-append xs ys
accepted-append (sent tx r ∷ xs) ys = accepted-append xs ys
accepted-append (waits tx cmd ∷ xs) ys = ap (◌∷◌ tx) (accepted-append xs ys)
accepted-append (refused tx ∷ xs) ys = accepted-append xs ys

-- Taking the waiter of the oldest command.
remove-first :
    (id : CommandId) (result : CommandResult) (ws : Waiters) (rest orphans : List CommandId)
    → id ∷ rest ≡ keys ws ++ orphans
    → (left : List CommandId) × (rest ≡ keys (remove id ws).1 ++ left)
      × (orphans ≡ [] → left ≡ [])
      × (answered (notify (remove id ws).0 result) ++ senders (remove id ws).1 ≡ senders ws)
      × (accepted (notify (remove id ws).0 result) ≡ [])
unfolding remove notify
remove-first id result [] rest orphans h = (rest, refl, λ e. cc, refl, refl)
remove-first id result ((k, tx) ∷ ws) rest orphans h =
    let same : k ≡ id = cc in
    let here : k == id ≡ true = ground arith in rw here (orphans, cc, λ e. e, refl, refl)

module _ {W : Type 0} where
  -- Replies to the commands in front of the queue have gone to their waiters, and the commands left
  -- have theirs, but for orphans behind them.
  unfoldable pub Settled :
      Shared W → (rest orphans : List CommandId) → Shared W × List Effect → Type 0
  Settled s rest orphans (s', out) =
      (left : List CommandId) × (rest ≡ keys s'.waiters ++ left)
      × (orphans ≡ [] → left ≡ [])
      × (answered out ++ senders s'.waiters ≡ senders s.waiters)
      × (accepted out ≡ [])
      × (s'.engine ≡ s.engine)
      × (s'.connected ≡ s.connected)

  resolve-Settled :
      (s : Shared W) (id : CommandId) (result : CommandResult) (rest orphans : List CommandId)
      → id ∷ rest ≡ keys s.waiters ++ orphans
      → Settled s rest orphans (resolve s id result)
  unfolding resolve Settled
  resolve-Settled s id result rest orphans h =
      let (left, a, b, c, d) = remove-first id result s.waiters rest orphans h in
      (left, a, b, c, d, refl, refl)

  Settled-trans :
      (s s' : Shared W) (mid rest orphans : List CommandId) (now : List Effect)
      (next : Shared W × List Effect)
      → Settled s mid orphans (s', now)
      → ((left : List CommandId) → mid ≡ keys s'.waiters ++ left → Settled s' rest left next)
      → Settled s rest orphans (next.0, now ++ next.1)
  unfolding Settled
  Settled-trans s s' mid rest orphans now (s'', later) (left, a, b, c, d, e, f) h =
      let (left', a', b', c', d', e', f') = h left a in
      (
        left',
        a',
        (λ q. b' (b q)),
        ap (λ xs. xs ++ senders s''.waiters) (answered-append now later)
            ∙ append_assoc (answered now) (answered later) (senders s''.waiters)
            ∙ ap (◌++◌ (answered now)) c'
            ∙ c,
        accepted-append now later ∙ cc (d, d'),
        e' ∙ e,
        f' ∙ f,
      )

  pub deliver-Settled :
      (incoming : List Incoming) (s : Shared W) (rest orphans : List CommandId)
      → ids (replies incoming) ++ rest ≡ keys s.waiters ++ orphans
      → Settled s rest orphans (deliver incoming s)
  unfolding deliver Settled
  deliver-Settled [] s rest orphans h = (orphans, h, λ q. q, refl, refl, refl, refl)
  deliver-Settled (Incoming.notification n ∷ incoming) s rest orphans h =
      deliver-Settled incoming s rest orphans h
  deliver-Settled (Incoming.reply id r ∷ incoming) s rest orphans h =
      let (s', now) = resolve s id r in
      Settled-trans s s' (ids (replies incoming) ++ rest) rest orphans now (deliver incoming s')
        (resolve-Settled s id r (ids (replies incoming) ++ rest) orphans h)
        (λ left q. deliver-Settled incoming s' rest left q)

  pub resolve_all-Settled :
      (incoming : List Incoming) (s : Shared W) (rest orphans : List CommandId)
      → ids (replies incoming) ++ rest ≡ keys s.waiters ++ orphans
      → Settled s rest orphans (resolve_all incoming s)
  unfolding resolve_all Settled
  resolve_all-Settled [] s rest orphans h = (orphans, h, λ q. q, refl, refl, refl, refl)
  resolve_all-Settled (Incoming.notification n ∷ incoming) s rest orphans h =
      resolve_all-Settled incoming s rest orphans h
  resolve_all-Settled (Incoming.reply id r ∷ incoming) s rest orphans h =
      let (s', now) = resolve s id r in
      Settled-trans s s' (ids (replies incoming) ++ rest) rest orphans now (resolve_all incoming s')
        (resolve-Settled s id r (ids (replies incoming) ++ rest) orphans h)
        (λ left q. resolve_all-Settled incoming s' rest left q)
