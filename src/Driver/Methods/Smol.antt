-- ===== src/Driver/Methods/Smol.antt =====
-- src/smol_rt.rs: the typed methods of `SmolClient`, and that they do what those of `TokioClient` do.
use tmuxctl.Base.{ℕ, ◌≡◌, refl, ap, List, Bytes, sym, ◌∙◌}
use tmuxctl.Ids.{PaneId, WindowId}
use tmuxctl.Layout.{Layout}
use tmuxctl.Driver.Blocking.{Write, Sender, Effect}
use tmuxctl.Driver.Handle.{Channel, call}
use tmuxctl.Driver.Smol.Handle.{SmolEnds, command, step, ends_of, with_ends, step_same}
use tmuxctl.Driver.Methods
use tmuxctl.Driver.Methods.Wire.{
  Method, send_keys_to, resize_to, resize_window_to, select_layout_of, text_of,
}
use tmuxctl.Driver.Methods.Tokio

module _ {W Q : Type 0} (io : Write W) (ch : Channel Q) where
  unfoldable pub send_keys : SmolEnds W Q → Sender → PaneId → Bytes → SmolEnds W Q × List Effect
  send_keys = Methods.send_keys (command io ch)

  unfoldable pub resize : SmolEnds W Q → Sender → ℕ → ℕ → SmolEnds W Q × List Effect
  resize = Methods.resize (command io ch)

  unfoldable pub resize_window :
      SmolEnds W Q → Sender → WindowId → ℕ → ℕ → SmolEnds W Q × List Effect
  resize_window = Methods.resize_window (command io ch)

  unfoldable pub select_layout :
      SmolEnds W Q → Sender → WindowId → Layout → SmolEnds W Q × List Effect
  select_layout = Methods.select_layout (command io ch)

  unfoldable pub invoke : SmolEnds W Q → Sender → Method → SmolEnds W Q × List Effect
  invoke s tx (send_keys_to pane keys) = send_keys s tx pane keys
  invoke s tx (resize_to cols rows) = resize s tx cols rows
  invoke s tx (resize_window_to window cols rows) = resize_window s tx window cols rows
  invoke s tx (select_layout_of window layout) = select_layout s tx window layout

  invoke-call :
      (s : SmolEnds W Q) (tx : Sender) (m : Method)
      → invoke s tx m ≡ step io ch s (call tx (text_of m))
  unfolding invoke step send_keys resize resize_window select_layout Methods.send_keys
      Methods.resize Methods.resize_window Methods.select_layout
  invoke-call s tx (send_keys_to pane keys) = refl
  invoke-call s tx (resize_to cols rows) = refl
  invoke-call s tx (resize_window_to window cols rows) = refl
  invoke-call s tx (select_layout_of window layout) = refl

  pub invoke_same :
      (s : SmolEnds W Q) (tx : Sender) (m : Method)
      → with_ends (invoke s tx m) ≡ Tokio.invoke io ch (ends_of s) tx m
  invoke_same s tx m =
      ap with_ends (invoke-call s tx m)
      ∙ step_same io ch s (call tx (text_of m))
      ∙ sym (Tokio.invoke-call io ch (ends_of s) tx m)
