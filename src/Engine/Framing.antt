-- ===== src/Engine/Framing.antt =====
-- src/engine.rs: `Engine::feed` cuts the stream into lines, wherever the chunks end.
use tmuxctl.Base.{
  ℕ, zero, suc, ◌<◌, ◌≡◌, ◌≢◌, refl, sym, ap, ◌∙◌, false, Option, none, some, List, [], ◌∷◌, ◌++◌,
  append_assoc, append-nil, arith, Bytes, ◌==◌, if◌then◌else◌, length, take, drop, Lacks,
  Option-cases, Bool-cases, inl, inr,
}
use tmuxctl.Text.Split.{position}
use tmuxctl.Parser.Frame.{Event, push}
use tmuxctl.Engine.{
  Engine, Incoming, correlate, on_event, on_line, newline, append_some, feed_loop, feed,
}

-- The complete lines of a stream, without their newlines, and what stands behind the last newline.
cons_line : ℕ → List Bytes → Bytes → List Bytes × Bytes
cons_line c [] rest = ([], c ∷ rest)
cons_line c (l ∷ ls) rest = ((c ∷ l) ∷ ls, rest)

unfoldable pub split_lines : Bytes → List Bytes × Bytes
unfolding cons_line
split_lines [] = ([], [])
split_lines (c ∷ s) =
    let (ls, rest) = split_lines s in if c == newline then ([] ∷ ls, rest) else cons_line c ls rest

-- One line after another.
unfoldable pub run : Engine → List Bytes → Engine × List Incoming
run e [] = (e, [])
run e (l ∷ ls) = let (e', i) = on_line e l in let (e'', out) = run e' ls in (e'', append_some i out)

abbrev pub with_buf : Bytes → Engine × List Incoming → Engine × List Incoming
with_buf b (e, out) = (record e { buf = b }, out)

pub split_lines-none : (s : Bytes) → position newline s ≡ none → split_lines s ≡ ([], s)
unfolding split_lines position
split_lines-none [] e = refl
split_lines-none (c ∷ s) e = ground (arith, split_lines-none s)

pub split_lines-some :
    (s : Bytes) (i : ℕ)
    → position newline s ≡ some i
    → (split_lines s
        ≡ (take i s ∷ (split_lines (drop (suc i) s)).0, (split_lines (drop (suc i) s)).1))
      × (length (drop (suc i) s) < length s)
unfolding split_lines position
split_lines-some [] i e = cc
split_lines-some (c ∷ s) zero e = ground arith
split_lines-some (c ∷ s) (suc i) e = ground (arith, split_lines-some s i)

pub split_lines-line :
    (l s : Bytes)
    → Lacks newline l
    → split_lines (l ++ newline ∷ s) ≡ (l ∷ (split_lines s).0, (split_lines s).1)
unfolding split_lines
split_lines-line [] s h = ground arith
split_lines-line (c ∷ l) s (ne, h) = ground (arith, split_lines-line l s h)

pub split_lines_rest : (s : Bytes) → Lacks newline (split_lines s).1
unfolding split_lines
split_lines_rest [] = tt
split_lines_rest (c ∷ s) = elim (Bool-cases (c == newline)) [
  | inl e ↦ rw e (split_lines_rest s)
  | inr e ↦ rw e (go (split_lines s).0 (split_lines s).1 (split_lines_rest s) (ground arith))
]
  where
    go :
        (ls : List Bytes) (rest : Bytes)
        → Lacks newline rest
        → c ≢ newline
        → Lacks newline (cons_line c ls rest).1
    go [] rest h ne = (ne, h)
    go (l ∷ ls) rest h ne = h

-- Where the first part ends inside a line, the second part finishes it.
pub split_lines-append :
    (x y : Bytes)
    → split_lines (x ++ y) ≡ (
      (split_lines x).0 ++ (split_lines ((split_lines x).1 ++ y)).0,
      (split_lines ((split_lines x).1 ++ y)).1,
    )
unfolding split_lines
split_lines-append [] y = refl
split_lines-append (c ∷ x) y = elim (Bool-cases (c == newline)) [
  | inl e ↦ rw (e, split_lines-append x y)
  | inr e ↦ rw (e, split_lines-append x y) (go e (split_lines x).0 (split_lines x).1)
]
  where
    go :
        (c == newline) ≡ false
        → (ls : List Bytes) (rest : Bytes)
        → cons_line c (ls ++ (split_lines (rest ++ y)).0) (split_lines (rest ++ y)).1 ≡ (
          (cons_line c ls rest).0 ++ (split_lines ((cons_line c ls rest).1 ++ y)).0,
          (split_lines ((cons_line c ls rest).1 ++ y)).1,
        )
    go e [] rest = rw e
    go e (l ∷ ls) rest = refl

on_event-buf :
    (e : Engine) (b : Bytes) (ev : Option Event)
    → on_event (record e { buf = b }) ev ≡ (record (on_event e ev).0 { buf = b }, (on_event e ev).1)
unfolding on_event correlate
on_event-buf e b none = refl
on_event-buf e b (some (Event.notification n)) = refl
on_event-buf e b (some (Event.reply r)) = ground arith

-- A line does not look at the buffer.
pub on_line-buf :
    (e : Engine) (b l : Bytes)
    → on_line (record e { buf = b }) l ≡ (record (on_line e l).0 { buf = b }, (on_line e l).1)
unfolding on_line
on_line-buf e b l = on_event-buf (record e { parser = (push l e.parser).0 }) b (push l e.parser).1

run-buf :
    (e : Engine) (b : Bytes) (ls : List Bytes)
    → run (record e { buf = b }) ls ≡ with_buf b (run e ls)
unfolding run
run-buf e b [] = refl
run-buf e b (l ∷ ls) = rw (on_line-buf e b l, run-buf (on_line e l).0 b ls)

append_some-append :
    (i : Option Incoming) (xs ys : List Incoming)
    → append_some i (xs ++ ys) ≡ append_some i xs ++ ys
unfolding append_some
append_some-append none xs ys = refl
append_some-append (some i) xs ys = refl

run-append :
    (e : Engine) (ls ms : List Bytes)
    → run e (ls ++ ms) ≡ ((run (run e ls).0 ms).0, (run e ls).1 ++ (run (run e ls).0 ms).1)
unfolding run
run-append e [] ms = refl
run-append e (l ∷ ls) ms = rw (run-append (on_line e l).0 ls ms, append_some-append)

pub feed_loop-none :
    (f : ℕ) (e : Engine) → position newline e.buf ≡ none → feed_loop (suc f) e ≡ (e, [])
unfolding feed_loop
feed_loop-none f e h = rw (h, feed_loop)

pub feed_loop-some :
    (f i : ℕ) (e : Engine)
    → position newline e.buf ≡ some i
    → feed_loop (suc f) e ≡ (
        let (e', incoming) = on_line (record e { buf = drop (suc i) e.buf }) (take i e.buf) in
        let (e'', out) = feed_loop f e' in (e'', append_some incoming out))
unfolding feed_loop
feed_loop-some f i e h = rw (h, feed_loop)

-- The loop of `feed` runs the complete lines of the buffer and keeps what is left.
feed_loop-run :
    (f : ℕ) (e : Engine)
    → length e.buf < f
    → feed_loop f e ≡ with_buf (split_lines e.buf).1 (run e (split_lines e.buf).0)
feed_loop-run zero e h = absurd (omega arith)
feed_loop-run (suc f) e h = elim (Option-cases (position newline e.buf)) [
  | inl end ↦ feed_loop-none f e end ∙ rw (split_lines-none e.buf end) (unfold run in refl)
  | inr (i, at) ↦
      let (cut, shorter) = split_lines-some e.buf i at in
      let rest = drop (suc i) e.buf in
      let after = (on_line e (take i e.buf)).0 in
      feed_loop-some f i e at
      ∙ rw (on_line-buf e rest (take i e.buf)) (
          rw (feed_loop-run f (record after { buf = rest }) (omega arith), run-buf after rest)
            (rw cut (unfold run in refl)))
]

-- `feed` runs the complete lines of what was buffered and what arrives.
pub feed-run :
    (e : Engine) (bytes : Bytes)
    → feed e bytes
      ≡ with_buf (split_lines (e.buf ++ bytes)).1 (run e (split_lines (e.buf ++ bytes)).0)
unfolding feed
feed-run e bytes =
    feed_loop-run (suc (length (e.buf ++ bytes))) (record e { buf = e.buf ++ bytes }) (omega arith)
    ∙ ap (with_buf _) (run-buf e (e.buf ++ bytes) _)

-- Two chunks, one after the other, come to their concatenation.
pub feed-append :
    (e : Engine) (x y : Bytes)
    → ((feed (feed e x).0 y).0, (feed e x).1 ++ (feed (feed e x).0 y).1) ≡ feed e (x ++ y)
feed-append e x y =
    rw (feed-run e x, feed-run, run-buf, feed-run e (x ++ y))
      (rw (← append_assoc e.buf x y, split_lines-append (e.buf ++ x) y, run-append))

-- Chunk after chunk, with the outcomes in order.
unfoldable pub feed_chunks : Engine → List Bytes → Engine × List Incoming
feed_chunks e [] = (e, [])
feed_chunks e (c ∷ cs) =
    let (e', out) = feed e c in let (e'', more) = feed_chunks e' cs in (e'', out ++ more)

abbrev pub concat : List Bytes → Bytes
concat [] = []
concat (c ∷ cs) = c ++ concat cs

pub split_lines-Lacks : (s : Bytes) → Lacks newline s → split_lines s ≡ ([], s)
unfolding split_lines
split_lines-Lacks [] h = refl
split_lines-Lacks (c ∷ s) (ne, h) = ground (arith, split_lines-Lacks s h)

-- What `feed` leaves in the buffer is a line in progress: it holds no newline.
pub feed-Lacks : (e : Engine) (bytes : Bytes) → Lacks newline (feed e bytes).0.buf
feed-Lacks e bytes = rw feed-run (split_lines_rest (e.buf ++ bytes))

-- Where the stream is cut into chunks makes no difference: the same engine is left and the same
-- outcomes come in the same order as from one chunk, whatever the bytes are. The buffer at the
-- start must hold no newline, as after `new` and after every `feed`.
pub feed_chunks-concat :
    (e : Engine) (cs : List Bytes) → Lacks newline e.buf → feed_chunks e cs ≡ feed e (concat cs)
unfolding feed_chunks
feed_chunks-concat e [] h =
    sym (feed-run e [] ∙ rw (append-nil, split_lines-Lacks e.buf h) (unfold run in refl))
feed_chunks-concat e (c ∷ cs) h =
    rw (feed_chunks-concat (feed e c).0 cs (feed-Lacks e c)) (feed-append e c (concat cs))

-- `feed` is `on_line` for each complete line of the buffer and the chunk together, in order, and
-- leaves what stands behind the last newline; no line is left over for want of fuel.
pub feed_lines :
    (e : Engine) (bytes : Bytes)
    → ((feed e bytes).1 ≡ (run e (split_lines (e.buf ++ bytes)).0).1)
      × ((feed e bytes).0.buf ≡ (split_lines (e.buf ++ bytes)).1)
      × Lacks newline (feed e bytes).0.buf
feed_lines e bytes =
    (ap (λ r. r.1) (feed-run e bytes), ap (λ r. r.0.buf) (feed-run e bytes), feed-Lacks e bytes)
