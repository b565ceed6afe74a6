-- ===== src/Layout/Checksum.antt =====
-- src/layout.rs: tmux's layout checksum.
pub mod Detect
use tmuxctl.Base.{ℕ, ◌+◌, ◌*◌, ◌/◌, ◌%◌, ◌^◌, ◌<◌, ◌≡◌, refl, [], ◌∷◌, Text, Bytes, codes, arith}
use tmuxctl.Text.Number.{u16_bound}
use tmuxctl.Text.Utf8.{as_bytes}

-- One round of the loop: `(csum >> 1) + ((csum & 1) << 15)`, then `wrapping_add` of the byte.
unfoldable pub rotate : ℕ → ℕ
rotate csum = csum / 2 + csum % 2 * 32768

unfoldable pub checksum_step : ℕ → ℕ → ℕ
unfolding rotate
checksum_step csum c = (rotate csum + c) % u16_bound

unfoldable pub checksum_loop : ℕ → Bytes → ℕ
checksum_loop csum [] = csum
checksum_loop csum (c ∷ s) = checksum_loop (checksum_step csum c) s

unfoldable pub checksum : Text → ℕ
unfolding checksum_loop checksum_step
checksum layout = checksum_loop 0 (as_bytes layout)

-- The reference value of the spec.
checksum_reference : checksum (codes "159x48,0,0{79x48,0,0,79x48,80,0}") ≡ 0xbb62
unfolding checksum as_bytes
checksum_reference = refl
