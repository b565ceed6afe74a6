-- ===== src/Engine/Tripwire.antt =====
-- src/engine.rs: the engine in a build with debug assertions, which panics at the `debug_assert!` of
-- `correlate`; `none` stands for the panic.
use tmuxctl.Base.{
  ℕ, zero, suc, ◌<◌, length, take, drop, arith, Option-cases, ◌≡◌, refl, ap, ◌∙◌, Bool, true, false,
  Option, none, some, List, [], ◌∷◌, ◌++◌, map, Bytes, ltb, if◌then◌else◌, Bool-cases, inl, inr,
  ◌>>=◌, bind-if, ◌⊎◌, ◌&&◌,
}
use tmuxctl.Text.Split.{position}
use tmuxctl.Parser.Frame.{Event, Reply, Parser, push}
use tmuxctl.Engine.{
  Engine, Incoming, tripwire, correlate, answer, on_event, on_line, newline, append_some, feed_loop,
  feed,
}
use tmuxctl.Engine.Framing.{
  split_lines, split_lines-none, split_lines-some, on_line-buf, feed_loop-none, feed_loop-some,
}
use tmuxctl.Engine.Fifo.{control_reply, control_replies, on_line-parser}

correlate_debug : Engine → Reply → Option (Engine × Option Incoming)
correlate_debug e r =
    if r.control
    then if tripwire e.last_number r.number then some (correlate e r) else none
    else some (correlate e r)

on_event_debug : Engine → Option Event → Option (Engine × Option Incoming)
unfolding correlate_debug
on_event_debug e none = some (on_event e none)
on_event_debug e (some (Event.notification n)) = some (on_event e (some (Event.notification n)))
on_event_debug e (some (Event.reply r)) = correlate_debug e r

pub on_line_debug : Engine → Bytes → Option (Engine × Option Incoming)
unfolding on_event_debug
on_line_debug e line =
    let (parser, event) = push line e.parser in on_event_debug (record e { parser = parser }) event

-- The `while let` of `feed`, which a panic ends.
feed_loop_debug : ℕ → Engine → Option (Engine × List Incoming)
unfolding on_line_debug
feed_loop_debug zero e = some (e, [])
feed_loop_debug (suc f) e = elim (position newline e.buf) [
  | none ↦ some (e, [])
  | some i ↦ do
    (e', incoming) ← on_line_debug (record e { buf = drop (suc i) e.buf }) (take i e.buf)
    (e'', out) ← feed_loop_debug f e'
    some (e'', append_some incoming out)
]

pub feed_debug : Engine → Bytes → Option (Engine × List Incoming)
unfolding feed_loop_debug
feed_debug e bytes =
    let filled = record e { buf = e.buf ++ bytes } in
    feed_loop_debug (suc (length filled.buf)) filled

-- Whether the numbers increase strictly, from the last one on, if there is one.
abbrev pub increasing : Option ℕ → List ℕ → Bool
increasing last [] = true
increasing none (n ∷ ns) = increasing (some n) ns
increasing (some m) (n ∷ ns) = ltb m n && increasing (some n) ns

abbrev pub numbers : List Reply → List ℕ
numbers = map (λ r. r.number)

answer-last_number :
    (e : Engine) (r : Reply) (pending : List ℕ) → (answer e r pending).0.last_number ≡ e.last_number
unfolding answer
answer-last_number e r [] = refl
answer-last_number e r (id ∷ rest) = refl

correlate-last_number :
    (e : Engine) (r : Reply) → r.control ≡ true → (correlate e r).0.last_number ≡ some r.number
unfolding correlate
correlate-last_number e r c =
    rw c (answer-last_number (record e { last_number = some r.number }) r e.pending)

correlate-internal :
    (e : Engine) (r : Reply) → r.control ≡ false → (correlate e r).0.last_number ≡ e.last_number
unfolding correlate
correlate-internal e r c = rw c refl

-- What the assertion tests, for one number in front of others.
tripwire-increasing :
    (last : Option ℕ) (n : ℕ) (ns : List ℕ)
    → increasing last (n ∷ ns) ≡ tripwire last n && increasing (some n) ns
unfolding tripwire
tripwire-increasing none n ns = refl
tripwire-increasing (some m) n ns = refl

-- The event trips the assertion, or nothing differs from a build without it.
Steps : Engine → Option Event → List Reply → Type 0
Steps e ev rs =
    let before = increasing e.last_number (numbers (control_reply ev ++ rs)) in
    let after = increasing (on_event e ev).0.last_number (numbers rs) in
    ((on_event_debug e ev ≡ some (on_event e ev)) × (before ≡ after))
    ⊎ ((on_event_debug e ev ≡ none) × (before ≡ false))

reply-Steps : (e : Engine) (r : Reply) (rs : List Reply) → Steps e (some (Event.reply r)) rs
unfolding Steps on_event_debug correlate_debug on_event
reply-Steps e r rs = elim (Bool-cases r.control) [
  | inr off ↦ simp (off, correlate-internal e r off) (inl (refl, refl))
  | inl on ↦
      let head = tripwire-increasing e.last_number r.number (numbers rs) in
      elim (Bool-cases (tripwire e.last_number r.number)) [
        | inl fine ↦
            simp (on, fine, correlate-last_number e r on) (inl (refl, head ∙ simp fine refl))
        | inr bad ↦ simp (on, bad) (inr (refl, head ∙ simp bad refl))
      ]
]

event-Steps : (e : Engine) (ev : Option Event) (rs : List Reply) → Steps e ev rs
unfolding Steps on_event_debug on_event
event-Steps e none rs = inl (refl, refl)
event-Steps e (some (Event.notification n)) rs = inl (refl, refl)
event-Steps e (some (Event.reply r)) rs = reply-Steps e r rs

feed_loop_debug-none :
    (f : ℕ) (e : Engine) → position newline e.buf ≡ none → feed_loop_debug (suc f) e ≡ some (e, [])
unfolding feed_loop_debug
feed_loop_debug-none f e h = rw (h, feed_loop_debug)

feed_loop_debug-some :
    (f i : ℕ) (e : Engine)
    → position newline e.buf ≡ some i
    → feed_loop_debug (suc f) e ≡ (
        on_line_debug (record e { buf = drop (suc i) e.buf }) (take i e.buf)
        >>= λ (now : Engine × Option Incoming).
            feed_loop_debug f now.0 >>= λ (later : Engine × List Incoming).
            some (later.0, append_some now.1 later.1))
unfolding feed_loop_debug
feed_loop_debug-some f i e h = rw (h, feed_loop_debug)

-- The numbers of the control replies in the complete lines of a buffer.
abbrev numbers_of : Parser → Bytes → List ℕ
numbers_of parser buf = numbers (control_replies parser (split_lines buf).0)

feed_loop_debug_lem :
    (f : ℕ) (e : Engine)
    → length e.buf < f
    → feed_loop_debug f e ≡ (
        if increasing e.last_number (numbers_of e.parser e.buf) then some (feed_loop f e) else none)
unfolding on_line_debug on_line control_replies Steps
feed_loop_debug_lem zero e h = absurd (omega arith)
feed_loop_debug_lem (suc f) e h = elim (Option-cases (position newline e.buf)) [
  | inl end ↦
      feed_loop_debug-none f e end ∙ rw (split_lines-none e.buf end, feed_loop-none f e end) refl
  | inr (i, at) ↦
      let (cut, shorter) = split_lines-some e.buf i at in
      let line = take i e.buf in
      let rest = drop (suc i) e.buf in
      let e' = (on_line (record e { buf = rest }) line).0 in
      let rs = control_replies (push line e.parser).0 (split_lines rest).0 in
      let same : e'.buf ≡ rest = ap (λ x. x.0.buf) (on_line-buf e rest line) in
      let later =
        feed_loop_debug_lem f e' (omega (arith, ap length same))
        ∙ ap
            (λ buf.
              if increasing e'.last_number (numbers_of e'.parser buf)
              then some (feed_loop f e')
              else none)
            same
        ∙ ap
            (λ p.
              if increasing e'.last_number (numbers_of p rest) then some (feed_loop f e') else none)
            (on_line-parser (record e { buf = rest }) line) in
      let now = record e { buf = rest; parser = (push line e.parser).0 } in
      feed_loop_debug-some f i e at
      ∙ rw (cut, feed_loop-some f i e at)
          (elim (event-Steps now (push line e.parser).1 rs) [
            | inl (fine, step) ↦
                rw (fine, step, later)
                  (bind-if (increasing e'.last_number (numbers rs)) (feed_loop f e') _)
            | inr (bad, stops) ↦ rw (bad, stops) refl
          ])
]

-- Where the numbers of the control replies in the lines that a chunk completes increase strictly from
-- the last one seen, a debug build does what a release build does; on any other numbers it panics.
pub feed_debug_lem :
    (e : Engine) (bytes : Bytes)
    → feed_debug e bytes ≡ (
        if increasing e.last_number
          (numbers (control_replies e.parser (split_lines (e.buf ++ bytes)).0))
        then some (feed e bytes)
        else none)
unfolding feed_debug feed
feed_debug_lem e bytes =
    feed_loop_debug_lem (suc (length (e.buf ++ bytes))) (record e { buf = e.buf ++ bytes })
      (omega arith)
