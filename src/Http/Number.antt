-- ===== src/Http/Number.antt =====
-- strconv.ParseUint(s, 10, 64) and the value of strconv.Atoi(s) on 64 bits, whose error the handlers drop.
use distributed_software_hom.Prelude.{
  ℕ, ◌+◌, ◌-◌, ◌*◌, ◌^◌, ◌<◌, ◌≡◌, String, ◌&&◌, ◌==◌, leb, ltb, Option, none, some, Option-cases,
  inl, inr, if◌then◌else◌, arith,
}
use distributed_software_hom.Prelude.Int.{ℤ, pos, negsuc}
use Prim.Native.Char.{Char, code}

-- The decimal digit that a character is.
abbrev digit : Char → Option ℕ
digit c = if leb 48 (code c) && leb (code c) 57 then some (code c - 48) else none

abbrev then_digits : (ℕ → Option ℕ) → ℕ → Option ℕ → Option ℕ
then_digits rest n none = none
then_digits rest n (some d) = rest (n * 10 + d)

-- The number that the digits of a text continue.
digits_from : String → ℕ → Option ℕ
digits_from String.[] n = some n
digits_from (String.◌∷◌ c s) n = then_digits (digits_from s) n (digit c)

-- The number of a text that is all digits, and not empty.
unfoldable pub digits : String → Option ℕ
unfolding digits_from
digits String.[] = none
digits (String.◌∷◌ c s) = digits_from (String.◌∷◌ c s) 0

abbrev in_range : Option ℕ → Option ℕ
in_range none = none
in_range (some n) = if ltb n (2 ^ 64) then some n else none

unfoldable pub parse_uint : String → Option ℕ
unfolding digits
parse_uint s = in_range (digits s)

-- A number out of range is cut off at the end of the range, a text that is no number gives 0.
abbrev at_most : Option ℕ → ℤ
at_most none = pos 0
at_most (some n) = if ltb n (2 ^ 63) then pos n else pos (2 ^ 63 - 1)

abbrev at_least : Option ℕ → ℤ
at_least none = pos 0
at_least (some n) =
    if n == 0 then pos 0 else if leb n (2 ^ 63) then negsuc (n - 1) else negsuc (2 ^ 63 - 1)

unfoldable pub atoi : String → ℤ
unfolding digits
atoi String.[] = pos 0
atoi (String.◌∷◌ c s) =
    if code c == 45
    then at_least (digits s)
    else if code c == 43
    then at_most (digits s)
    else at_most (digits (String.◌∷◌ c s))

pub parse_uint_fits : (s : String) (n : ℕ) → parse_uint s ≡ some n → n < 2 ^ 64
unfolding parse_uint
parse_uint_fits s n h = elim (Option-cases (digits s)) [
  | inl none_there ↦ ground (arith, none_there)
  | inr (m, there) ↦ ground (arith, there)
]
