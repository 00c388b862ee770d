-- ===== src/Base/Int64.antt =====
-- Go's int64 as its two's complement pattern, a number below 2^64. Sums wrap.
use Prim.Native.Nat.{ℕ, ◌+◌, ◌%◌, ◌^◌, ◌<◌}
use mathlib.Core.Path.{◌≡◌}
use native.Mathlib.Omega.{arith}

abbrev pub word_mod : ℕ
word_mod = 2 ^ 64

-- `a + b` on int64.
abbrev pub add64 : ℕ → ℕ → ℕ
add64 a b = (a + b) % word_mod

pub add64_comm : (a b : ℕ) → add64 a b ≡ add64 b a
add64_comm a b = omega arith

pub add64_assoc : (a b c : ℕ) → add64 (add64 a b) c ≡ add64 a (add64 b c)
add64_assoc a b c = omega arith

pub add64-lt : (a b : ℕ) → add64 a b < word_mod
add64-lt a b = omega arith
