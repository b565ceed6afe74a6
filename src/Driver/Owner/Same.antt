-- ===== src/Driver/Owner/Same.antt =====
-- src/tokio_rt.rs, src/blocking.rs: the loops over outcomes are the same in both drivers.
use tmuxctl.Base.{◌≡◌, refl, ap, Bool, List, [], ◌∷◌, ◌++◌}
use tmuxctl.Engine.{Incoming}
use tmuxctl.Driver.Blocking.{Waiters, Shared}
use tmuxctl.Driver.Blocking
use tmuxctl.Driver.Owner.{Task, resolve, deliver, resolve_all}

module _ {W : Type 0} where
  -- The task as the shared state of a blocking client, which is connected as long as the loop runs.
  unfoldable pub shared : Bool → Task W → Shared W
  shared running t = record {
    engine = t.engine;
    writer = t.writer;
    waiters = t.waiters;
    connected = running;
  }

  unfoldable pub with_waiters : Shared W → Waiters → Shared W
  with_waiters s ws = record s { waiters = ws }

  pub deliver_same :
      (incoming : List Incoming) (s : Shared W)
      → Blocking.deliver incoming s
        ≡ (with_waiters s (deliver incoming s.waiters).0, (deliver incoming s.waiters).1)
  unfolding Blocking.deliver deliver with_waiters resolve Blocking.resolve
  deliver_same [] s = refl
  deliver_same (Incoming.notification n ∷ incoming) s =
      ap (λ x. (x.0, Blocking.event n ∷ x.1)) (deliver_same incoming s)
  deliver_same (Incoming.reply id r ∷ incoming) s =
      ap (λ x. (x.0, (Blocking.resolve s id r).1 ++ x.1))
        (deliver_same incoming (Blocking.resolve s id r).0)

  pub resolve_all_same :
      (incoming : List Incoming) (s : Shared W)
      → Blocking.resolve_all incoming s
        ≡ (with_waiters s (resolve_all incoming s.waiters).0, (resolve_all incoming s.waiters).1)
  unfolding Blocking.resolve_all resolve_all with_waiters resolve Blocking.resolve
  resolve_all_same [] s = refl
  resolve_all_same (Incoming.notification n ∷ incoming) s = resolve_all_same incoming s
  resolve_all_same (Incoming.reply id r ∷ incoming) s =
      ap (λ x. (x.0, (Blocking.resolve s id r).1 ++ x.1))
        (resolve_all_same incoming (Blocking.resolve s id r).0)
