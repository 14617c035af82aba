-- ===== src/Base/Integers.antt =====
-- The integers of Rust's signed types, and the arithmetic of `i64`, which wraps around as a release
-- build does.
use Prim.Native.Nat.{ℕ, zero, suc, ◌+◌, ◌-◌, ◌*◌, ◌/◌, ◌%◌, ◌^◌, ◌<◌}
use mathlib.Core.Path.{◌≡◌}
use mathlib.Core.Bool.{Bool, true, false, not}
use mathlib.Core.Logic.{◌↔◌}
use schema_forge_backend.Base.Equality.{PartialEq}
use native.Mathlib.Omega.{arith}
use schema_forge_backend.Base.Tests.{ltb, nat_beq, nat_beq_iff, if◌then◌else◌}

-- `negsuc n` is -(n + 1).
pub data ℤ : Type 0 where
  pos : ℕ → ℤ
  negsuc : ℕ → ℤ

unfoldable pub int_beq : ℤ → ℤ → Bool
int_beq (pos a) (pos b) = nat_beq a b
int_beq (negsuc a) (negsuc b) = nat_beq a b
int_beq _ _ = false

pub int_beq_iff : (left right : ℤ) → (int_beq left right ≡ true) ↔ (left ≡ right)
unfolding int_beq
int_beq_iff (pos a) (pos b) = ground (arith, nat_beq_iff a b)
int_beq_iff (pos a) (negsuc b) = ground arith
int_beq_iff (negsuc a) (pos b) = ground arith
int_beq_iff (negsuc a) (negsuc b) = ground (arith, nat_beq_iff a b)

instance abbrev pub int_eq : PartialEq ℤ
int_eq = record { eq = int_beq; decides = int_beq_iff }

unfoldable pub lt_int : ℤ → ℤ → Bool
lt_int (pos a) (pos b) = ltb a b
lt_int (pos a) (negsuc b) = false
lt_int (negsuc a) (pos b) = true
lt_int (negsuc a) (negsuc b) = ltb b a

abbrev half : ℕ
half = 2 ^ 63

-- The number whose low 64 bits are those of a natural number below 2^64.
abbrev signed : ℕ → ℤ
signed bits = if ltb bits half then pos bits else negsuc (2 * half - 1 - bits)

-- The low 64 bits, in two's complement.
unfoldable pub wrap : ℤ → ℤ
wrap (pos n) = signed (n % (2 * half))
wrap (negsuc n) = signed (2 * half - 1 - n % (2 * half))

-- `x + 1`, `x - 1`
unfoldable pub next_int : ℤ → ℤ
unfolding wrap
next_int (pos n) = wrap (pos (n + 1))
next_int (negsuc zero) = pos 0
next_int (negsuc (suc n)) = wrap (negsuc n)

unfoldable pub previous_int : ℤ → ℤ
unfolding wrap
previous_int (pos zero) = negsuc 0
previous_int (pos (suc n)) = wrap (pos n)
previous_int (negsuc n) = wrap (negsuc (n + 1))

-- Minus a natural number.
abbrev opposite : ℕ → ℤ
opposite zero = pos 0
opposite (suc n) = negsuc n

unfoldable pub times_int : ℤ → ℤ → ℤ
unfolding wrap
times_int (pos a) (pos b) = wrap (pos (a * b))
times_int (pos a) (negsuc b) = wrap (opposite (a * (b + 1)))
times_int (negsuc a) (pos b) = wrap (opposite ((a + 1) * b))
times_int (negsuc a) (negsuc b) = wrap (pos ((a + 1) * (b + 1)))

-- `x / d` and `x % d != 0` for a divisor that is positive; the quotient is rounded towards zero.
unfoldable pub divided : ℤ → ℕ → ℤ
divided (pos n) d = pos (n / d)
divided (negsuc n) d = opposite ((n + 1) / d)

unfoldable pub has_rest : ℤ → ℕ → Bool
has_rest (pos n) d = not (nat_beq (n % d) 0)
has_rest (negsuc n) d = not (nat_beq ((n + 1) % d) 0)

pub wrap-pos : (n : ℕ) → n < 2 ^ 63 → wrap (pos n) ≡ pos n
unfolding wrap
wrap-pos n h = ground arith
