-- ===== src/Common/Word.antt =====
-- Go's int64 as a signed number, with the wrap-around of its arithmetic written out.
use Prim.Native.Nat.{ℕ, ◌-◌, ◌*◌, ◌%◌, ◌^◌, ◌<◌}
use mathlib.Core.Path.{◌≡◌, refl}
use native.Mathlib.Omega.{arith}
use orcacommon.Common.Tests.{ltb, lt→ltb, if◌then◌else◌}

-- `negsuc n` is -(n + 1).
pub data ℤ : Type 0 where
  pos : ℕ → ℤ
  negsuc : ℕ → ℤ

-- The 64-bit pattern of a number, and the number of a pattern.
pub to_word : ℤ → ℕ
to_word (pos n) = n % 2 ^ 64
to_word (negsuc n) = 2 ^ 64 - 1 - n % 2 ^ 64

pub of_word : ℕ → ℤ
of_word x = if ltb x (2 ^ 63) then pos x else negsuc (2 ^ 64 - 1 - x)

-- `x * k` in int64, for a positive constant `k`.
unfoldable pub mul_word : ℤ → ℕ → ℤ
unfolding to_word of_word
mul_word z k = of_word (to_word z * k % 2 ^ 64)

-- A product that fits is not changed by the wrap-around.
pub mul_word_pos : (n k : ℕ) → n * k < 2 ^ 63 → n < 2 ^ 63 → mul_word (pos n) k ≡ pos (n * k)
unfolding mul_word
mul_word_pos n k h l =
    let same : n % 2 ^ 64 ≡ n = omega arith in
    let small : n * k % 2 ^ 64 ≡ n * k = omega arith in
    rw (same, small) (rw (lt→ltb (n * k) (2 ^ 63) h) refl)
