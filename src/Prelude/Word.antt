-- ===== src/Prelude/Word.antt =====
-- Go's 64-bit `int`: arithmetic wraps around.
use Prim.Native.Nat.{ℕ, ◌-◌, ◌%◌, ◌^◌}
use mathlib.Core.Path.{◌≡◌}
use native.Mathlib.Omega.{arith}
use distributed_software_hom.Prelude.Tests.{ltb, if◌then◌else◌}
use distributed_software_hom.Prelude.Int.{ℤ, pos, negsuc, ◌≤ℤ◌}

-- The integer of a 64-bit pattern.
abbrev pub signed64 : ℕ → ℤ
signed64 b = if ltb b (2 ^ 63) then pos b else negsuc (2 ^ 64 - 1 - b)

-- The value that a 64-bit register keeps of an integer.
unfoldable pub wrap64 : ℤ → ℤ
wrap64 (pos n) = signed64 (n % 2 ^ 64)
wrap64 (negsuc n) = signed64 (2 ^ 64 - 1 - n % 2 ^ 64)

abbrev pub Fits64 : ℤ → Type 0
Fits64 x = (negsuc (2 ^ 63 - 1) ≤ℤ x) × (x ≤ℤ pos (2 ^ 63 - 1))

pub wrap64-of_fits : (x : ℤ) → Fits64 x → wrap64 x ≡ x
unfolding wrap64
wrap64-of_fits (pos n) h = ground arith
wrap64-of_fits (negsuc n) h = ground arith

pub wrap64-fits : (x : ℤ) → Fits64 (wrap64 x)
unfolding wrap64
wrap64-fits (pos n) = ground arith
wrap64-fits (negsuc n) = ground arith
