-- ===== src/Driver/Handle/Returns.antt =====
-- src/tokio_rt.rs, src/smol_rt.rs: the steps of a client without a child, and the calls that return or
-- are under way.
use tmuxctl.Base.{Bool, ◌++◌, none, ◌+◌, ◌<◌, ◌≡◌, refl, ap, false, List, [], ◌∷◌, arith, length}
use tmuxctl.Text.Number.{u64_bound}
use tmuxctl.Driver.Blocking.{Write, Sender}
use tmuxctl.Driver.Blocking.Moves.{Waited}
use tmuxctl.Driver.Owner.Same.{shared}
use tmuxctl.Driver.Contract.Counts.{count, count-append, returned, count-returned}
use tmuxctl.Driver.Handle.{
  Channel, Ends, Act, call, drop_handle, receive, read, from_parts, step, steps,
}
use tmuxctl.Driver.Handle.Calls.{callers, callers-append, calls, asked, calls-step}
use tmuxctl.Driver.Handle.Turns.{open_calls, Sound, Keeps, step-Keeps}

module _ {W Q : Type 0} (io : Write W) (ch : Channel Q) where
  pub steps-Keeps :
      (s : Ends W Q) (acts : List Act)
      → s.task.engine.next_id + length acts < u64_bound
      → Sound io ch s
      → Sound io ch (steps io ch s acts).0
        × ((tx : Sender)
            → count tx (returned (steps io ch s acts).1)
                + open_calls io ch tx (steps io ch s acts).0
              ≡ open_calls io ch tx s + count tx (callers (calls s.held acts)))
  unfolding steps Keeps
  steps-Keeps s [] h sound = (sound, λ tx. unfold calls in omega arith)
  steps-Keeps s (a ∷ acts) h sound =
      let (s', now) = step io ch s a in
      let (sound', total, lt) = step-Keeps io ch s a (omega arith) sound in
      let (sound'', later) = steps-Keeps s' acts (omega arith) sound' in
      (
        sound'',
        λ tx. omega (
          arith,
          total tx,
          later tx,
          count-returned tx now (steps io ch s' acts).1,
          ap (λ rs. count tx (callers rs)) (calls-step io ch s a acts),
          ap (count tx) (callers-append (asked s a) (calls s'.held acts)),
          count-append tx (callers (asked s a)) (callers (calls s'.held acts)),
        ),
      )

-- A new client.
pub new-Sound :
    {W Q : Type 0} (io : Write W) (ch : Channel Q) (w : W) → Sound io ch (from_parts io ch w)
unfolding Sound Waited shared
new-Sound io ch w = ((λ _. ([], refl, (λ _. refl), tt)), λ e. cc)

pub calls-end :
    (held : Bool) (acts : List Act) → calls held (acts ++ read none ∷ []) ≡ calls held acts
unfolding calls
calls-end held [] = refl
calls-end held (call tx cmd ∷ acts) = rw (calls-end held acts) refl
calls-end held (drop_handle ∷ acts) = calls-end false acts
calls-end held (receive ∷ acts) = calls-end held acts
calls-end held (read r ∷ acts) = calls-end held acts
