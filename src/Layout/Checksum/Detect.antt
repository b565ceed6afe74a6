-- ===== src/Layout/Checksum/Detect.antt =====
-- src/layout.rs: which corruptions the checksum detects.
use tmuxctl.Base.{ℕ, ◌<◌, ◌≡◌, ◌≢◌, [], ◌∷◌, ◌++◌, Text, Bytes, All, arith}
use tmuxctl.Text.Number.{u16_bound}
use tmuxctl.Text.Utf8.RoundTrip.{as_bytes_ascii}
use tmuxctl.Layout.Checksum.{rotate, checksum_step, checksum_loop, checksum}

checksum_step-lt : (s c : ℕ) → checksum_step s c < u16_bound
unfolding checksum_step
checksum_step-lt s c = omega arith

-- The rotation stays in 16 bits, so only the addition of the byte can wrap.
pub rotate-lt : (s : ℕ) → s < u16_bound → rotate s < u16_bound
unfolding rotate
rotate-lt s h = omega arith

step-injective :
    (s t c : ℕ) → s < u16_bound → t < u16_bound → checksum_step s c ≡ checksum_step t c → s ≡ t
unfolding checksum_step
step-injective s t c hs ht e = omega arith

step_byte-injective :
    (s a b : ℕ) → a < 256 → b < 256 → checksum_step s a ≡ checksum_step s b → a ≡ b
unfolding checksum_step
step_byte-injective s a b ha hb e = omega arith

loop-injective :
    (q : Bytes) (s t : ℕ)
    → s < u16_bound
    → t < u16_bound
    → checksum_loop s q ≡ checksum_loop t q
    → s ≡ t
unfolding checksum_loop
loop-injective [] s t hs ht e = e
loop-injective (c ∷ q) s t hs ht e = step-injective s t c hs ht (
    loop-injective q (checksum_step s c) (checksum_step t c) (checksum_step-lt s c)
      (checksum_step-lt t c) e)

loop_byte-injective :
    (p q : Bytes) (s a b : ℕ)
    → a < 256
    → b < 256
    → checksum_loop s (p ++ a ∷ q) ≡ checksum_loop s (p ++ b ∷ q)
    → a ≡ b
unfolding checksum_loop
loop_byte-injective [] q s a b ha hb e = step_byte-injective s a b ha hb (
    loop-injective q (checksum_step s a) (checksum_step s b) (checksum_step-lt s a)
      (checksum_step-lt s b) e)
loop_byte-injective (c ∷ p) q s a b ha hb e =
    loop_byte-injective p q (checksum_step s c) a b ha hb e

-- Two ASCII texts that differ in exactly one character have different checksums.
pub checksum_detects :
    (p q : Text) (a b : ℕ)
    → All (λ c. c < 0x80) (p ++ a ∷ q)
    → All (λ c. c < 0x80) (p ++ b ∷ q)
    → a ≢ b
    → checksum (p ++ a ∷ q) ≢ checksum (p ++ b ∷ q)
unfolding checksum
checksum_detects p q a b ha hb ne e = ne (
    loop_byte-injective p q 0 a b (middle p a q ha) (middle p b q hb)
      (rw (as_bytes_ascii (p ++ a ∷ q) ha, as_bytes_ascii (p ++ b ∷ q) hb) at e))
  where
    middle : (p : Text) (c : ℕ) (q : Text) → All (λ c. c < 0x80) (p ++ c ∷ q) → c < 256
    middle [] c q h = omega arith
    middle (d ∷ p) c q h = middle p c q h.1
