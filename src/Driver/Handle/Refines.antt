-- ===== src/Driver/Handle/Refines.antt =====
-- src/tokio_rt.rs: the two ends of the channel and the contract of a client.
use tmuxctl.Base.{◌<◌, ◌≡◌, refl, sym, ap, ◌∙◌, List, arith, length}
use tmuxctl.Text.Number.{u64_bound}
use tmuxctl.Driver.Blocking.{Write}
use tmuxctl.Driver.Blocking.Refines.{view}
use tmuxctl.Driver.Contract.{reacts, fresh}
use tmuxctl.Driver.Owner.{start}
use tmuxctl.Driver.Owner.Same.{shared}
use tmuxctl.Driver.Owner.Refines.{inputs, owner_task_refines}
use tmuxctl.Driver.Handle.{Channel, Act, from_parts, steps}
use tmuxctl.Driver.Handle.Projection.{heard, turns_of, steps-run}
use tmuxctl.Driver.Handle.Turned.{length-turns_of}

-- Over fewer than 2^64 acts of a new client without a child, in which its callers, the drop of its
-- handle and the turns of the owner task interleave in any order, and over any channel and
-- transport, the client does to the outside what the contract does, and after the acts the
-- contract's state is what it sees of the task's; but for refusals, which the channel makes too,
-- and which are compared on neither side. The contract's inputs are the requests that the task
-- receives, whether the transport took each, the bytes it reads, and the end of its loop.
pub handle_refines :
    {W Q : Type 0} (io : Write W) (ch : Channel Q) (w : W) (acts : List Act)
    → length acts < u64_bound
    → let (s, out) = steps io ch (from_parts io ch w) acts in
      let (c, told) =
        reacts fresh (inputs io (start io w) (turns_of io ch (from_parts io ch w) acts)) in
      (c ≡ view (shared s.running s.task)) × (heard told ≡ heard out)
handle_refines io ch w acts h =
    let client = from_parts io ch w in
    let turns = turns_of io ch client acts in
    let same = steps-run io ch client acts refl in
    let keeps =
      owner_task_refines io w turns (omega (arith, h, length-turns_of io ch client acts)) in
    (
      ap (λ x. x.0) keeps ∙ sym (ap (λ x. view (shared x.1 x.0.0)) same),
      ap (λ x. heard x.1) keeps ∙ sym (ap (λ x. x.0.1) same),
    )
