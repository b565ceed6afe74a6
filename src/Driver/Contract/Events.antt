-- ===== src/Driver/Contract/Events.antt =====
-- The contract and the notifications of the stream.
use tmuxctl.Base.{
  ◌≡◌, refl, sym, ap, ◌∙◌, Bool, some, List, [], ◌∷◌, ◌++◌, append_assoc, append-nil, Bytes, Lacks,
  arith, Text, Bool-cases, inl, inr,
}
use tmuxctl.Notification.{Notification}
use tmuxctl.Parser.Frame.{Parser, Event, push}
use tmuxctl.Parser.Frame.Blocks.{push_all, event_list}
use tmuxctl.Engine.{newline}
use tmuxctl.Engine.Framing.{split_lines, split_lines-append, split_lines_rest, split_lines-Lacks}
use tmuxctl.Driver.Blocking.{Sender, Effect, event, sent, waits, refused}
use tmuxctl.Driver.Contract.{
  Contract, Input, ask, receive, hang_up, surface, serve, react, reacts, tell_all,
}
use tmuxctl.Driver.Contract.Stream.{surface_all, take_lines-push_all}

-- What goes to the event channel.
abbrev pub events_of : List Effect → List Notification
events_of [] = []
events_of (event n ∷ out) = n ∷ events_of out
events_of (sent tx r ∷ out) = events_of out
events_of (waits tx cmd ∷ out) = events_of out
events_of (refused tx ∷ out) = events_of out

pub events_of-append : (xs ys : List Effect) → events_of (xs ++ ys) ≡ events_of xs ++ events_of ys
events_of-append [] ys = refl
events_of-append (event n ∷ xs) ys = ap (◌∷◌ n) (events_of-append xs ys)
events_of-append (sent tx r ∷ xs) ys = events_of-append xs ys
events_of-append (waits tx cmd ∷ xs) ys = events_of-append xs ys
events_of-append (refused tx ∷ xs) ys = events_of-append xs ys

-- The notifications among what the parser reports.
abbrev pub notifications : List Event → List Notification
notifications [] = []
notifications (Event.notification n ∷ events) = n ∷ notifications events
notifications (Event.reply r ∷ events) = notifications events

notifications-append :
    (xs ys : List Event) → notifications (xs ++ ys) ≡ notifications xs ++ notifications ys
notifications-append [] ys = refl
notifications-append (Event.notification n ∷ xs) ys = ap (◌∷◌ n) (notifications-append xs ys)
notifications-append (Event.reply r ∷ xs) ys = notifications-append xs ys

-- The notifications in the complete lines of a stream, for a parser in some state.
unfoldable pub notified : Parser → Bytes → List Notification
notified p stream = notifications (push_all p (split_lines stream).0).1

-- The stream.
abbrev pub stream_of : List Input → Bytes
stream_of [] = []
stream_of (ask tx cmd taken ∷ inputs) = stream_of inputs
stream_of (receive input ∷ inputs) = input ++ stream_of inputs
stream_of (hang_up ∷ inputs) = stream_of inputs

push_all-append :
    (p : Parser) (xs ys : List Bytes)
    → push_all p (xs ++ ys)
      ≡ (let (p', now) = push_all p xs in let (p'', later) = push_all p' ys in (p'', now ++ later))
unfolding push_all
push_all-append p [] ys = refl
push_all-append p (l ∷ xs) ys =
    let (p', e) = push l p in
    ap (λ x. (x.0, event_list e ++ x.1)) (push_all-append p' xs ys)
    ∙ ap (λ es. ((push_all (push_all p' xs).0 ys).0, es))
        (sym (append_assoc (event_list e) (push_all p' xs).1 _))

events_of-serve :
    (e : Event) (queue : List Sender)
    → events_of (surface (some e) queue).1 ≡ notifications (e ∷ [])
unfolding surface serve
events_of-serve (Event.notification n) queue = refl
events_of-serve (Event.reply r) [] = ground arith
events_of-serve (Event.reply r) (tx ∷ queue) = ground arith

events_of-surface_all :
    (events : List Event) (queue : List Sender)
    → events_of (surface_all events queue).1 ≡ notifications events
unfolding surface_all
events_of-surface_all [] queue = refl
events_of-surface_all (e ∷ events) queue =
    let (queue', now) = surface (some e) queue in
    events_of-append now (surface_all events queue').1
    ∙ rw (events_of-serve e queue, events_of-surface_all events queue')
        (sym (notifications-append (e ∷ []) events))

tell_all-events : (queue : List Sender) → events_of (tell_all queue) ≡ []
tell_all-events [] = refl
tell_all-events (tx ∷ queue) = tell_all-events queue

-- The notifications of a stream are those of its first part and then those of the rest.
notified-append :
    (p : Parser) (x y : Bytes)
    → notified p (x ++ y)
      ≡ notified p x ++ notified (push_all p (split_lines x).0).0 ((split_lines x).1 ++ y)
unfolding notified
notified-append p x y =
    rw (split_lines-append x y, push_all-append p (split_lines x).0)
      (notifications-append (push_all p (split_lines x).0).1 _)

receive-events :
    (c : Contract) (input : Bytes)
    → events_of (react c (receive input)).1 ≡ notified c.parser (c.partial ++ input)
unfolding react notified
receive-events c input =
    rw (take_lines-push_all (split_lines (c.partial ++ input)).0 c.parser c.queue)
      (events_of-surface_all (push_all c.parser (split_lines (c.partial ++ input)).0).1 c.queue)

receive-parser :
    (c : Contract) (input : Bytes)
    → (react c (receive input)).0.parser
      ≡ (push_all c.parser (split_lines (c.partial ++ input)).0).0
unfolding react
receive-parser c input =
    rw (take_lines-push_all (split_lines (c.partial ++ input)).0 c.parser c.queue) refl

receive-partial :
    (c : Contract) (input : Bytes)
    → (react c (receive input)).0.partial ≡ (split_lines (c.partial ++ input)).1
unfolding react
receive-partial c input = refl

-- Callers and the end of the session leave the stream alone.
ask-events :
    (c : Contract) (tx : Sender) (cmd : Text) (taken : Bool)
    → ((react c (ask tx cmd taken)).0.parser ≡ c.parser)
      × ((react c (ask tx cmd taken)).0.partial ≡ c.partial)
      × (events_of (react c (ask tx cmd taken)).1 ≡ [])
unfolding react
ask-events c tx cmd taken = elim (Bool-cases c.taking) [
  | inr off ↦ simp off (refl, refl, refl)
  | inl on ↦ elim (Bool-cases taken) [
    | inl fine ↦ simp (on, fine) (refl, refl, refl)
    | inr bad ↦ simp (on, bad) (refl, refl, refl)
  ]
]

hang_up-events : (c : Contract) → events_of (react c hang_up).1 ≡ []
unfolding react
hang_up-events c = tell_all-events c.queue

-- Whatever callers do meanwhile, the notifications are those of the stream's complete lines.
pub reacts-events :
    (c : Contract) (inputs : List Input)
    → Lacks newline c.partial
    → events_of (reacts c inputs).1 ≡ notified c.parser (c.partial ++ stream_of inputs)
unfolding reacts
reacts-events c [] h =
    unfold notified push_all in rw (append-nil, split_lines-Lacks c.partial h) refl
reacts-events c (ask tx cmd taken ∷ inputs) h =
    let (c', now) = react c (ask tx cmd taken) in
    let (same, rest, none_now) = ask-events c tx cmd taken in
    let later = reacts-events c' inputs (rw rest h) in
    events_of-append now (reacts c' inputs).1 ∙ rw (none_now, later, same, rest) refl
reacts-events c (receive input ∷ inputs) h =
    let (c', now) = react c (receive input) in
    let later = reacts-events c' inputs (unfold react in split_lines_rest (c.partial ++ input)) in
    events_of-append now (reacts c' inputs).1
    ∙ rw (receive-events c input, later, receive-parser c input, receive-partial c input)
        (sym (
          rw (← append_assoc c.partial input (stream_of inputs))
            (notified-append c.parser (c.partial ++ input) (stream_of inputs))))
reacts-events c (hang_up ∷ inputs) h =
    let (c', now) = react c hang_up in
    let later = reacts-events c' inputs (unfold react in h) in
    events_of-append now (reacts c' inputs).1 ∙ rw (hang_up-events c, later) (unfold react in refl)
