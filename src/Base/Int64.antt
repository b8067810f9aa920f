-- ===== src/Base/Int64.antt =====
-- Go's int64 as its 64-bit pattern: a number below 2 ^ 64 that stands for n - 2 ^ 64 from 2 ^ 63 on.
use Prim.Native.Nat.{ℕ, ◌+◌, ◌-◌, ◌*◌, ◌%◌, ◌^◌, ◌<◌}
use mathlib.Core.Path.{◌≡◌, refl}
use mathlib.Core.Bool.{Bool, true}
use mathlib.Core.Logic.{◌↔◌}
use native.Mathlib.Omega.{arith}
use repository.Base.Tests.{ltb, leb}

abbrev pub Int64 : Type 0
Int64 = ℕ

abbrev pub word : ℕ
word = 2 ^ 64

abbrev pub sign : ℕ
sign = 2 ^ 63

abbrev pub minus_one : Int64
minus_one = 2 ^ 64 - 1

-- `a + b`, `a - b` and `a * b`, which wrap around.
abbrev pub add : Int64 → Int64 → Int64
add a b = (a + b) % 2 ^ 64

abbrev pub sub : Int64 → Int64 → Int64
sub a b = (a + 2 ^ 64 - b) % 2 ^ 64

abbrev pub mul : Int64 → Int64 → Int64
mul a b = a * b % 2 ^ 64

-- Signed order: the patterns from 2 ^ 63 on come first.
abbrev pub key : Int64 → ℕ
key a = (a + 2 ^ 63) % 2 ^ 64

abbrev pub lt : Int64 → Int64 → Bool
lt a b = ltb (key a) (key b)

abbrev pub le : Int64 → Int64 → Bool
le a b = leb (key a) (key b)

pub lt_nonneg : (a b : Int64) → a < sign → b < sign → lt a b ≡ ltb a b
lt_nonneg a b ha hb = ground arith

pub lt-zero_iff : (a : Int64) → a < word → (lt 0 a ≡ true) ↔ ((0 < a) × (a < sign))
lt-zero_iff a h = ground arith

test_negative : lt minus_one 0 ≡ true
test_negative = refl
