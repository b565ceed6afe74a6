-- ===== src/Driver/Handle/Loop.antt =====
-- src/tokio_rt.rs: a client over a child process, as long as its task is in the loop.
use tmuxctl.Base.{◌≡◌, ◌⊎◌, true, false, List}
use tmuxctl.Driver.Blocking.{Write, Effect}
use tmuxctl.Driver.Handle.{Channel, Ends}
use tmuxctl.Driver.Handle.Child.{Life}

module _ {W Q : Type 0} (io : Write W) (ch : Channel Q) where
  -- The loop goes on and does what the loop without a child does, or it has ended.
  Follows : Ends W Q × List Effect → Life W Q × List Effect → Type 0
  Follows s (l, out) =
      (((l.ends, out) ≡ s) × (l.looping ≡ true) × (l.ends.running ≡ true)) ⊎ (l.looping ≡ false)
