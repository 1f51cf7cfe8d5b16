-- ===== src/Snowflake.antt =====
-- pkg/snowflake/snowflake.go: the generator of order numbers. A clock is the list of its readings,
-- in milliseconds since the `epoch` of the code, which no reading precedes. The mutex makes the
-- calls a sequence. The three bit fields do not overlap, so `|` is `+`, `<< n` is `* 2 ^ n` and
-- `& sequenceMask` is `% 2 ^ 12`; the result is an `int64`, which wraps around.
pub mod Unique
use distributed_software_hom.Prelude.{
  ℕ, suc, ◌+◌, ◌*◌, ◌%◌, ◌^◌, ◌≤◌, ◌<◌, ◌≡◌, ◌≢◌, Bool, true, false, ◌==◌, leb, ltb, ◌||◌, Option,
  none, some, List, [], ◌∷◌, arith, if◌then◌else◌, refl,
}
use distributed_software_hom.Prelude.Int.{ℤ, pos, negsuc, pos_part, neg_part, ltb_ℤ, ◌≤ℤ◌}
use distributed_software_hom.Prelude.Word.{wrap64}
use distributed_software_hom.Result.{Result, ok, err, external}

abbrev pub node_max : ℕ
node_max = 1023

pub record Node : Type 0 where
  pub timestamp : ℕ
  pub node : ℕ
  pub sequence : ℕ

abbrev pub new_node : ℤ → Result Node
new_node n =
    if ltb_ℤ n (pos 0) || ltb_ℤ (pos node_max) n
    then err (external 0)
    else ok (record { timestamp = 0; node = pos_part n; sequence = 0 })

-- `for now <= n.timestamp { now = … }`, entered with `now == n.timestamp`. The clock runs out if
-- the call does not return within its readings.
abbrev pub wait : ℕ → List ℕ → Option (ℕ × List ℕ)
wait last [] = none
wait last (now ∷ clock) = if leb now last then wait last clock else some (now, clock)

-- The fields of an id, before it is cut to 64 bits.
abbrev pub fields : Node → ℕ
fields n = n.timestamp * 2 ^ 22 + n.node * 2 ^ 12 + n.sequence

abbrev pub issue : Node → ℕ × List ℕ → ℤ × Node × List ℕ
issue n (now, clock) =
    let n' = record n { timestamp = now } in (wrap64 (pos (fields n')), n', clock)

-- What the loop ended with, if it ended.
abbrev pub issue_after : Node → Option (ℕ × List ℕ) → Option (ℤ × Node × List ℕ)
issue_after n none = none
issue_after n (some reading) = some (issue n reading)

abbrev pub advance_sequence : Node → Node
advance_sequence n = record n { sequence = (n.sequence + 1) % 2 ^ 12 }

unfoldable pub generate : Node → List ℕ → Option (ℤ × Node × List ℕ)
generate n [] = none
generate n (now ∷ clock) =
    if now == n.timestamp
    then (if (advance_sequence n).sequence == 0
        then issue_after (advance_sequence n) (wait n.timestamp clock)
        else some (issue (advance_sequence n) (now, clock)))
    else some (issue (record n { sequence = 0 }) (now, clock))
