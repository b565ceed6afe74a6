-- ===== src/Driver/Contract/Stream.antt =====
-- The contract and the stream: where it is cut makes no difference, and what is served is what the
-- parser reports of its lines.
use tmuxctl.Base.{
  ◌≡◌, refl, sym, ap, ◌∙◌, Option, none, some, List, [], ◌∷◌, ◌++◌, append_assoc, append-nil, map,
  Bytes, Lacks,
}
use tmuxctl.Parser.Frame.{Parser, Event, push}
use tmuxctl.Parser.Frame.Blocks.{push_all, event_list}
use tmuxctl.Engine.{newline}
use tmuxctl.Engine.Framing.{split_lines-append, split_lines_rest, split_lines-Lacks, concat}
use tmuxctl.Driver.Blocking.{Sender, Effect}
use tmuxctl.Driver.Contract.{Contract, receive, surface, take_lines, react, reacts}

take_lines-append :
    (xs ys : List Bytes) (p : Parser) (queue : List Sender)
    → take_lines (xs ++ ys) p queue ≡ (
        let ((p', queue'), now) = take_lines xs p queue in
        let (end, later) = take_lines ys p' queue' in (end, now ++ later))
unfolding take_lines
take_lines-append [] ys p queue = refl
take_lines-append (l ∷ xs) ys p queue =
    let (p', e) = push l p in
    let (queue', now) = surface e queue in
    let ((p'', queue''), more) = take_lines xs p' queue' in
    let (end, later) = take_lines ys p'' queue'' in
    ap (λ x. (x.0, now ++ x.1)) (take_lines-append xs ys p' queue')
    ∙ ap (λ out. (end, out)) (sym (append_assoc now more later))

receive-append :
    (c : Contract) (x y : Bytes)
    → react c (receive (x ++ y)) ≡ (
        let (c', now) = react c (receive x) in
        let (c'', later) = react c' (receive y) in (c'', now ++ later))
unfolding react
receive-append c x y =
    rw (← append_assoc c.partial x y, split_lines-append (c.partial ++ x) y, take_lines-append) refl

react-Lacks : (c : Contract) (x : Bytes) → Lacks newline (react c (receive x)).0.partial
unfolding react
react-Lacks c x = split_lines_rest (c.partial ++ x)

-- The stream in chunks is the stream in one piece.
pub reacts-concat :
    (c : Contract) (chunks : List Bytes)
    → Lacks newline c.partial
    → reacts c (map receive chunks) ≡ react c (receive (concat chunks))
unfolding reacts
reacts-concat c [] h =
    sym (unfold react take_lines in rw (append-nil, split_lines-Lacks c.partial h) refl)
reacts-concat c (x ∷ chunks) h =
    rw
      (
        reacts-concat (react c (receive x)).0 chunks (react-Lacks c x),
        receive-append c x (concat chunks),
      )
      refl

-- What the parser reports, one event after the other.
unfoldable pub surface_all : List Event → List Sender → List Sender × List Effect
surface_all [] queue = (queue, [])
surface_all (e ∷ events) queue =
    let (queue', now) = surface (some e) queue in
    let (queue'', later) = surface_all events queue' in (queue'', now ++ later)

surface-event_list :
    (e : Option Event) (events : List Event) (queue : List Sender)
    → surface_all (event_list e ++ events) queue ≡ (
        let (queue', now) = surface e queue in
        let (queue'', later) = surface_all events queue' in (queue'', now ++ later))
unfolding surface_all surface
surface-event_list none events queue = refl
surface-event_list (some e) events queue = refl

pub take_lines-push_all :
    (ls : List Bytes) (p : Parser) (queue : List Sender)
    → take_lines ls p queue ≡ (
        let (p', events) = push_all p ls in
        let (queue', out) = surface_all events queue in ((p', queue'), out))
unfolding take_lines push_all
take_lines-push_all [] p queue = unfold surface_all in refl
take_lines-push_all (l ∷ ls) p queue =
    let (p', e) = push l p in
    let (queue', now) = surface e queue in
    rw (take_lines-push_all ls p' queue', surface-event_list e (push_all p' ls).1 queue) refl
