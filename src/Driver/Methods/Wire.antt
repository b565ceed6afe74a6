-- ===== src/Driver/Methods/Wire.antt =====
-- src/blocking.rs, src/commands.rs: a session whose callers use the typed methods alone.
use tmuxctl.Base.{
  ℕ, ◌<◌, ◌≡◌, refl, ap, ◌∙◌, true, List, [], ◌∷◌, ◌++◌, map, Text, Bytes, All, All-map, Lacks,
  arith,
}
use tmuxctl.Text.Utf8.{as_bytes}
use tmuxctl.Text.Utf8.RoundTrip.{as_bytes_ascii}
use tmuxctl.Ids.{PaneId, WindowId}
use tmuxctl.Layout.{Layout}
use tmuxctl.Commands
use tmuxctl.Commands.Lines.{
  IsPrintable, send_keys-IsPrintable, resize-IsPrintable, resize_window-IsPrintable,
  select_layout-IsPrintable,
}
use tmuxctl.Engine.{newline}
use tmuxctl.Engine.Framing.{split_lines}
use tmuxctl.Driver.Blocking.{
  Write, Sender, Shared, Client, Effect, ReadResult, Act, call, command, step, steps,
}
use tmuxctl.Driver.Blocking
use tmuxctl.Driver.Blocking.Session.{session}
use tmuxctl.Driver.Blocking.Passive.{commands}
use tmuxctl.Driver.Blocking.Lines.{called, steps-All, session_lines}
use tmuxctl.Driver.Methods.{send_keys, resize, resize_window, select_layout}

-- A method with its arguments.
pub data Method : Type 0 where
  send_keys_to : PaneId → Bytes → Method
  resize_to : ℕ → ℕ → Method
  resize_window_to : WindowId → ℕ → ℕ → Method
  select_layout_of : WindowId → Layout → Method

module _ {S : Type 0} (cmd : S → Sender → Text → S × List Effect) where
  unfoldable pub invoke : S → Sender → Method → S × List Effect
  invoke s tx (send_keys_to pane keys) = send_keys cmd s tx pane keys
  invoke s tx (resize_to cols rows) = resize cmd s tx cols rows
  invoke s tx (resize_window_to window cols rows) = resize_window cmd s tx window cols rows
  invoke s tx (select_layout_of window layout) = select_layout cmd s tx window layout

-- A caller's method, or the next return of `read`.
pub data MethodAct : Type 0 where
  invoked : Sender → Method → MethodAct
  read : ReadResult → MethodAct

abbrev pub text_of : Method → Text
text_of (send_keys_to pane keys) = Commands.send_keys pane keys
text_of (resize_to cols rows) = Commands.resize cols rows
text_of (resize_window_to window cols rows) = Commands.resize_window window cols rows
text_of (select_layout_of window layout) = Commands.select_layout window layout

abbrev pub act_of : MethodAct → Act
act_of (invoked tx m) = call tx (text_of m)
act_of (read r) = Act.read r

module _ {W : Type 0} (io : Write W) where
  -- The client's threads, with the methods in place of `command`.
  unfoldable pub method_steps : Client W → List MethodAct → Client W × List Effect
  method_steps c [] = (c, [])
  method_steps c (invoked tx m ∷ acts) =
      let (shared, now) = invoke (command io) c.shared tx m in
      let (end, later) = method_steps (record c { shared = shared }) acts in (end, now ++ later)
  method_steps c (read r ∷ acts) =
      let (c', now) = step io c (Act.read r) in
      let (end, later) = method_steps c' acts in (end, now ++ later)

  abbrev pub method_session : W → List MethodAct → Client W × List Effect
  method_session w = method_steps (record { shared = Blocking.new w; reading = true })

  pub method_steps_same :
      (c : Client W) (acts : List MethodAct) → method_steps c acts ≡ steps io c (map act_of acts)
  unfolding method_steps invoke steps step send_keys resize resize_window select_layout
  method_steps_same c [] = refl
  method_steps_same c (invoked tx m ∷ acts) =
      let x = command io c.shared tx (text_of m) in
      called_as m ∙ ap (λ y. (y.0, x.1 ++ y.1)) (method_steps_same (record c { shared = x.0 }) acts)
    where
      called_as :
          (m : Method)
          → method_steps c (invoked tx m ∷ acts) ≡ (
              let x = command io c.shared tx (text_of m) in
              let y = method_steps (record c { shared = x.0 }) acts in (y.0, x.1 ++ y.1))
      called_as (send_keys_to pane keys) = refl
      called_as (resize_to cols rows) = refl
      called_as (resize_window_to window cols rows) = refl
      called_as (select_layout_of window layout) = refl
  method_steps_same c (read r ∷ acts) =
      let x = step io c (Act.read r) in ap (λ y. (y.0, x.1 ++ y.1)) (method_steps_same x.0 acts)

-- The keys are bytes.
abbrev pub SendsBytes : Method → Type 0
SendsBytes (send_keys_to pane keys) = All (λ k. k < 256) keys
SendsBytes (resize_to cols rows) = Unit
SendsBytes (resize_window_to window cols rows) = Unit
SendsBytes (select_layout_of window layout) = Unit

abbrev pub methods : List MethodAct → List Method
methods [] = []
methods (invoked tx m ∷ acts) = m ∷ methods acts
methods (read r ∷ acts) = methods acts

pub text_of-IsPrintable : (m : Method) → SendsBytes m → All IsPrintable (text_of m)
text_of-IsPrintable (send_keys_to pane keys) h = send_keys-IsPrintable pane keys h
text_of-IsPrintable (resize_to cols rows) h = resize-IsPrintable cols rows
text_of-IsPrintable (resize_window_to window cols rows) h =
    resize_window-IsPrintable window cols rows
text_of-IsPrintable (select_layout_of window layout) h = select_layout-IsPrintable window layout

called-IsPrintable :
    (acts : List MethodAct)
    → All SendsBytes (methods acts)
    → All (All IsPrintable) (called (map act_of acts))
called-IsPrintable [] h = tt
called-IsPrintable (invoked tx m ∷ acts) (p, h) =
    (text_of-IsPrintable m p, called-IsPrintable acts h)
called-IsPrintable (read r ∷ acts) h = called-IsPrintable acts h

pub as_bytes_printable : (t : Text) → All IsPrintable t → as_bytes t ≡ t
as_bytes_printable t h = as_bytes_ascii t (All-map (λ c p. omega arith) t h)

pub printable-Lacks : (t : Text) → All IsPrintable t → Lacks newline (as_bytes t)
printable-Lacks t h = rw (as_bytes_printable t h) (All-map (λ c p e. omega arith) t h)

pub map-as_bytes : (ts : List Text) → All (All IsPrintable) ts → map as_bytes ts ≡ ts
map-as_bytes [] h = refl
map-as_bytes (t ∷ ts) (p, h) = rw (as_bytes_printable t p, map-as_bytes ts h) refl

module _ {W : Type 0} (io : Write W) (written : W → Bytes)
    (write_all-written : (w : W) (b : Bytes)
      → (io.write_all w b).1 ≡ true
      → written (io.write_all w b).0 ≡ written w ++ b)
    (flush-written : (w : W) → written (io.flush w).0 ≡ written w) where
  -- If the callers of a session use the typed methods alone, with keys that are bytes, and the session leaves the client
  -- connected, then a peer that reads the wire by lines reads exactly the command strings that are
  -- waited for, one line each, in the order in which their callers wait, and nothing after them.
  -- The writer was given nothing before; a successful `write_all` adds the bytes, and `flush` adds
  -- none.
  pub methods_lines :
      (w : W) (acts : List MethodAct)
      → All SendsBytes (methods acts)
      → written w ≡ []
      → (method_session io w acts).0.shared.connected ≡ true
      → split_lines (written (method_session io w acts).0.shared.writer)
        ≡ (commands (method_session io w acts).1, [])
  methods_lines w acts h empty on =
      let start : Client W = record { shared = Blocking.new w; reading = true } in
      let same : method_session io w acts ≡ session io w (map act_of acts) =
        method_steps_same io start acts in
      let printable = called-IsPrintable acts h in
      let clean = All-map (λ t p. printable-Lacks t p) (called (map act_of acts)) printable in
      let lines =
        session_lines io written write_all-written flush-written w (map act_of acts) empty clean
          (rw⁻¹ same on) in
      rw same (
        lines
        ∙ ap (λ ls. (ls, []))
            (map-as_bytes (commands (session io w (map act_of acts)).1)
              (steps-All io (All IsPrintable) start (map act_of acts) printable)))
