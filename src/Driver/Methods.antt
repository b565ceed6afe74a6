-- ===== src/Driver/Methods.antt =====
-- src/blocking.rs, src/tokio_rt.rs, src/smol_rt.rs: the typed methods, which the clients share up to
-- the `command` that they call.
pub mod Wire
pub mod Returns
pub mod Tokio
pub mod Smol
use tmuxctl.Base.{ℕ, ◌≡◌, refl, Option, none, List, Text, Bytes}
use tmuxctl.Ids.{PaneId, WindowId}
use tmuxctl.Layout.{Layout}
use tmuxctl.Commands
use tmuxctl.Engine.{CommandError, CommandResult}
use tmuxctl.Driver.Blocking.{Sender, Effect}

-- `Result<(), CommandError>`
pub data Done : Type 0 where
  ok : Done
  err : CommandError → Done

-- `.map(drop)`, on what `command` returns
unfoldable pub map_drop : CommandResult → Done
map_drop (CommandResult.ok lines) = Done.ok
map_drop (CommandResult.err e) = Done.err e

-- `events`, on the field with the receiver: `Option::take`.
unfoldable pub events : {E : Type 0} → Option E → Option E × Option E
events field = (none, field)

-- The receiver is there once.
events_twice : {E : Type 0} (field : Option E) → (events (events field).0).1 ≡ none
unfolding events
events_twice field = refl

module _ {S : Type 0} (command : S → Sender → Text → S × List Effect) where
  -- The methods up to the reply; what they return is `map_drop` of it.
  unfoldable pub send_keys : S → Sender → PaneId → Bytes → S × List Effect
  send_keys s tx pane keys = command s tx (Commands.send_keys pane keys)

  unfoldable pub resize : S → Sender → ℕ → ℕ → S × List Effect
  resize s tx cols rows = command s tx (Commands.resize cols rows)

  unfoldable pub resize_window : S → Sender → WindowId → ℕ → ℕ → S × List Effect
  resize_window s tx window cols rows = command s tx (Commands.resize_window window cols rows)

  unfoldable pub select_layout : S → Sender → WindowId → Layout → S × List Effect
  select_layout s tx window layout = command s tx (Commands.select_layout window layout)
