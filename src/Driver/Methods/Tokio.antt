-- ===== src/Driver/Methods/Tokio.antt =====
-- src/tokio_rt.rs: the typed methods of `TokioClient`, and what its peer reads of them.
use tmuxctl.Base.{
  ℕ, ◌≡◌, refl, ap, ◌∙◌, Bool, true, false, Option, List, [], ◌∷◌, ◌++◌, map, Bytes, All, All-map,
}
use tmuxctl.Ids.{PaneId, WindowId}
use tmuxctl.Layout.{Layout}
use tmuxctl.Engine.Framing.{split_lines}
use tmuxctl.Commands.Lines.{IsPrintable}
use tmuxctl.Driver.Blocking.{Write, Sender, Effect}
use tmuxctl.Driver.Handle.{Channel, Ends, Act, call, from_parts, command, step, steps}
use tmuxctl.Driver.Handle.Calls.{calls}
use tmuxctl.Driver.Handle.Order.{written_requests}
use tmuxctl.Driver.Handle.Wire.{texts, All-front, handle_wire}
use tmuxctl.Driver.Methods
use tmuxctl.Driver.Methods.Wire.{
  Method, send_keys_to, resize_to, resize_window_to, select_layout_of, text_of, SendsBytes,
  text_of-IsPrintable, map-as_bytes, printable-Lacks,
}

module _ {W Q : Type 0} (io : Write W) (ch : Channel Q) where
  unfoldable pub send_keys : Ends W Q → Sender → PaneId → Bytes → Ends W Q × List Effect
  send_keys = Methods.send_keys (command io ch)

  unfoldable pub resize : Ends W Q → Sender → ℕ → ℕ → Ends W Q × List Effect
  resize = Methods.resize (command io ch)

  unfoldable pub resize_window : Ends W Q → Sender → WindowId → ℕ → ℕ → Ends W Q × List Effect
  resize_window = Methods.resize_window (command io ch)

  unfoldable pub select_layout : Ends W Q → Sender → WindowId → Layout → Ends W Q × List Effect
  select_layout = Methods.select_layout (command io ch)

  unfoldable pub invoke : Ends W Q → Sender → Method → Ends W Q × List Effect
  invoke s tx (send_keys_to pane keys) = send_keys s tx pane keys
  invoke s tx (resize_to cols rows) = resize s tx cols rows
  invoke s tx (resize_window_to window cols rows) = resize_window s tx window cols rows
  invoke s tx (select_layout_of window layout) = select_layout s tx window layout

  -- A method is the call of its command string.
  pub invoke-call :
      (s : Ends W Q) (tx : Sender) (m : Method) → invoke s tx m ≡ step io ch s (call tx (text_of m))
  unfolding invoke step send_keys resize resize_window select_layout Methods.send_keys
      Methods.resize Methods.resize_window Methods.select_layout
  invoke-call s tx (send_keys_to pane keys) = refl
  invoke-call s tx (resize_to cols rows) = refl
  invoke-call s tx (resize_window_to window cols rows) = refl
  invoke-call s tx (select_layout_of window layout) = refl

-- What a caller does who uses the typed methods alone, and the turns of the task.
pub data MethodAct : Type 0 where
  invoked : Sender → Method → MethodAct
  drop_handle : MethodAct
  receive : MethodAct
  read : Option Bytes → MethodAct

-- The same with a method's call of `command` in its place.
abbrev pub act_of : MethodAct → Act
act_of (invoked tx m) = call tx (text_of m)
act_of drop_handle = Act.drop_handle
act_of receive = Act.receive
act_of (read r) = Act.read r

abbrev pub methods : List MethodAct → List Method
methods [] = []
methods (invoked tx m ∷ acts) = m ∷ methods acts
methods (drop_handle ∷ acts) = methods acts
methods (receive ∷ acts) = methods acts
methods (read r ∷ acts) = methods acts

module _ {W Q : Type 0} (io : Write W) (ch : Channel Q) where
  unfoldable pub method_step : Ends W Q → MethodAct → Ends W Q × List Effect
  method_step s (invoked tx m) = invoke io ch s tx m
  method_step s drop_handle = step io ch s Act.drop_handle
  method_step s receive = step io ch s Act.receive
  method_step s (read r) = step io ch s (Act.read r)

  unfoldable pub method_steps : Ends W Q → List MethodAct → Ends W Q × List Effect
  method_steps s [] = (s, [])
  method_steps s (a ∷ acts) =
      let (s', now) = method_step s a in
      let (s'', later) = method_steps s' acts in (s'', now ++ later)

  method_step_same : (s : Ends W Q) (a : MethodAct) → method_step s a ≡ step io ch s (act_of a)
  unfolding method_step
  method_step_same s (invoked tx m) = invoke-call io ch s tx m
  method_step_same s drop_handle = refl
  method_step_same s receive = refl
  method_step_same s (read r) = refl

  method_steps_same :
      (s : Ends W Q) (acts : List MethodAct) → method_steps s acts ≡ steps io ch s (map act_of acts)
  unfolding method_steps steps
  method_steps_same s [] = refl
  method_steps_same s (a ∷ acts) =
      rw (method_step_same s a, method_steps_same (step io ch s (act_of a)).0 acts) refl

called-IsPrintable :
    (held : Bool) (acts : List MethodAct)
    → All SendsBytes (methods acts)
    → All (All IsPrintable) (texts (calls held (map act_of acts)))
unfolding calls
called-IsPrintable held [] h = tt
called-IsPrintable true (invoked tx m ∷ acts) (p, h) =
    (text_of-IsPrintable m p, called-IsPrintable true acts h)
called-IsPrintable false (invoked tx m ∷ acts) (p, h) = called-IsPrintable false acts h
called-IsPrintable held (drop_handle ∷ acts) h = called-IsPrintable false acts h
called-IsPrintable held (receive ∷ acts) h = called-IsPrintable held acts h
called-IsPrintable held (read r ∷ acts) h = called-IsPrintable held acts h

module _ {W Q : Type 0} (io : Write W) (ch : Channel Q) (written : W → Bytes)
    (write_all-written : (w : W) (b : Bytes)
      → (io.write_all w b).1 ≡ true
      → written (io.write_all w b).0 ≡ written w ++ b)
    (flush-written : (w : W) → written (io.flush w).0 ≡ written w) where
  -- If the callers of a new client without a child invoke its typed methods alone, with keys that
  -- are bytes, then as long as its owner task runs, in any interleaving of the methods, the drop
  -- of the handle and the task's turns, a peer that reads the wire by lines reads exactly the
  -- command strings of the requests that were written, one line each, and nothing after them; and
  -- these requests and then those in the channel are the command strings of the methods, each with
  -- its caller, in the order in which they were invoked. The writer was given nothing before; a
  -- successful `write_all` adds the bytes, and `flush` adds none.
  pub handle_methods :
      (w : W) (acts : List MethodAct)
      → written w ≡ []
      → All SendsBytes (methods acts)
      → (method_steps io ch (from_parts io ch w) acts).0.running ≡ true
      → let (s, out) = method_steps io ch (from_parts io ch w) acts in
        (split_lines (written s.task.writer) ≡ (texts (written_requests out), []))
        × (written_requests out ++ ch.contents s.queue ≡ calls true (map act_of acts))
  handle_methods w acts empty typed on =
      let start = from_parts io ch w in
      let same = method_steps_same io ch start acts in
      let (s, out) = steps io ch start (map act_of acts) in
      let printable = called-IsPrintable true acts typed in
      let clean =
        All-map (λ t p. printable-Lacks t p) (texts (calls true (map act_of acts))) printable in
      let (lines, order) =
        handle_wire io ch written write_all-written flush-written w (map act_of acts) empty clean
          (rw⁻¹ same on) in
      let printable' =
        All-front (All IsPrintable) (written_requests out) (ch.contents s.queue) _ order
          printable in
      rw same (
        lines ∙ ap (λ ls. (ls, [])) (map-as_bytes (texts (written_requests out)) printable'),
        order,
      )
