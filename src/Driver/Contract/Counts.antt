-- ===== src/Driver/Contract/Counts.antt =====
-- The contract answers every caller once.
use tmuxctl.Base.{
  ℕ, ◌+◌, ◌≡◌, refl, ap, ◌∙◌, Option, none, some, List, [], ◌∷◌, ◌++◌, arith, Bytes, ◌==◌,
  if◌then◌else◌,
}
use tmuxctl.Parser.Frame.{Parser, Event, push}
use tmuxctl.Engine.Framing.{split_lines}
use tmuxctl.Driver.Blocking.{Sender, Effect, event, sent, waits, refused}
use tmuxctl.Driver.Contract.{
  Contract, Input, ask, receive, hang_up, serve, surface, take_lines, tell_all, react, reacts,
}

-- How often the caller stands in the list.
abbrev pub count : Sender → List Sender → ℕ
count tx [] = 0
count tx (x ∷ xs) = (if x == tx then 1 else 0) + count tx xs

pub count-append :
    (tx : Sender) (xs ys : List Sender) → count tx (xs ++ ys) ≡ count tx xs + count tx ys
count-append tx [] ys = omega arith
count-append tx (x ∷ xs) ys = omega (arith, count-append tx xs ys)

-- The callers whose `command` returns, with a result that is sent or as refused.
abbrev pub returned : List Effect → List Sender
returned [] = []
returned (event n ∷ out) = returned out
returned (sent tx r ∷ out) = tx ∷ returned out
returned (waits tx cmd ∷ out) = returned out
returned (refused tx ∷ out) = tx ∷ returned out

pub returned-append : (xs ys : List Effect) → returned (xs ++ ys) ≡ returned xs ++ returned ys
returned-append [] ys = refl
returned-append (event n ∷ xs) ys = returned-append xs ys
returned-append (sent tx r ∷ xs) ys = ap (◌∷◌ tx) (returned-append xs ys)
returned-append (waits tx cmd ∷ xs) ys = returned-append xs ys
returned-append (refused tx ∷ xs) ys = ap (◌∷◌ tx) (returned-append xs ys)

-- The callers that ask.
abbrev pub askers : List Input → List Sender
askers [] = []
askers (ask tx cmd taken ∷ inputs) = tx ∷ askers inputs
askers (receive input ∷ inputs) = askers inputs
askers (hang_up ∷ inputs) = askers inputs

pub count-returned :
    (tx : Sender) (xs ys : List Effect)
    → count tx (returned (xs ++ ys)) ≡ count tx (returned xs) + count tx (returned ys)
count-returned tx xs ys =
    ap (count tx) (returned-append xs ys) ∙ count-append tx (returned xs) (returned ys)

surface-count :
    (tx : Sender) (e : Option Event) (queue : List Sender)
    → count tx (returned (surface e queue).1) + count tx (surface e queue).0 ≡ count tx queue
unfolding surface serve
surface-count tx none queue = omega arith
surface-count tx (some (Event.notification n)) queue = omega arith
surface-count tx (some (Event.reply r)) [] = ground arith
surface-count tx (some (Event.reply r)) (x ∷ queue) = ground arith

take_lines-count :
    (tx : Sender) (ls : List Bytes) (p : Parser) (queue : List Sender)
    → count tx (returned (take_lines ls p queue).1) + count tx (take_lines ls p queue).0.1
      ≡ count tx queue
unfolding take_lines
take_lines-count tx [] p queue = omega arith
take_lines-count tx (l ∷ ls) p queue =
    let (p', e) = push l p in
    let (queue', now) = surface e queue in
    omega (
      arith,
      surface-count tx e queue,
      take_lines-count tx ls p' queue',
      count-returned tx now (take_lines ls p' queue').1,
    )

returned-tell_all : (queue : List Sender) → returned (tell_all queue) ≡ queue
returned-tell_all [] = refl
returned-tell_all (tx ∷ queue) = ap (◌∷◌ tx) (returned-tell_all queue)

pub react-count :
    (tx : Sender) (c : Contract) (i : Input)
    → count tx (returned (react c i).1) + count tx (react c i).0.queue
      ≡ count tx c.queue + count tx (askers (i ∷ []))
unfolding react
react-count tx c (ask x cmd taken) = ground (arith, count-append tx c.queue (x ∷ []))
react-count tx c (receive input) =
    omega (arith, take_lines-count tx (split_lines (c.partial ++ input)).0 c.parser c.queue)
react-count tx c hang_up = omega (arith, ap (count tx) (returned-tell_all c.queue))

askers-cons :
    (tx : Sender) (i : Input) (inputs : List Input)
    → count tx (askers (i ∷ inputs)) ≡ count tx (askers (i ∷ [])) + count tx (askers inputs)
askers-cons tx (ask x cmd taken) inputs = omega arith
askers-cons tx (receive input) inputs = omega arith
askers-cons tx hang_up inputs = omega arith

-- For any caller: how often it returned and how often it still waits make up how often it waited
-- at the start and how often it asked.
pub reacts-count :
    (tx : Sender) (c : Contract) (inputs : List Input)
    → count tx (returned (reacts c inputs).1) + count tx (reacts c inputs).0.queue
      ≡ count tx c.queue + count tx (askers inputs)
unfolding reacts
reacts-count tx c [] = omega arith
reacts-count tx c (i ∷ inputs) =
    let (c', now) = react c i in
    omega (
      arith,
      react-count tx c i,
      reacts-count tx c' inputs,
      count-returned tx now (reacts c' inputs).1,
      askers-cons tx i inputs,
    )
