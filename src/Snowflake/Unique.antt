-- ===== src/Snowflake/Unique.antt =====
-- pkg/snowflake/snowflake.go: when the order numbers of one node differ.
use distributed_software_hom.Prelude.{
  ℕ, ◌+◌, ◌%◌, ◌^◌, ◌≤◌, ◌<◌, ◌≡◌, ◌≢◌, true, ◌==◌, leb, ◌⊎◌, inl, inr, Bool-cases, some, List, [],
  ◌∷◌, arith, ◌∙◌, count, ltb, Option-cases,
}
use distributed_software_hom.Prelude.Int.{ℤ, pos, ltb_ℤ}
use distributed_software_hom.Prelude.Word.{wrap64, wrap64-of_fits}
use distributed_software_hom.Snowflake.{Node, node_max, wait, fields, generate}

-- What NewNode and Generate keep true of a node.
abbrev pub IsNode : Node → Type 0
IsNode n = (n.node ≤ node_max) × (n.sequence < 2 ^ 12)

-- No reading of the clock is before `t`.
abbrev pub StartsAt : ℕ → List ℕ → Type 0
StartsAt t [] = Unit
StartsAt t (now ∷ clock) = t ≤ now

wait_later : (t : ℕ) (clock : List ℕ) (r : ℕ × List ℕ) → wait t clock ≡ some r → t < r.0
wait_later t [] r h = ground arith
wait_later t (now ∷ clock) r h = elim (Bool-cases (leb now t)) [
  | inl early ↦ wait_later t clock r (ground arith)
  | inr late ↦ ground arith
]

-- The state that Generate leaves: later in the same millisecond, or in another one.
abbrev After : Node → ℕ → Node → Type 0
After n now n' =
    (n'.timestamp ≡ now)
      × (now ≡ n.timestamp)
      × (n'.sequence ≡ n.sequence + 1)
      × (n'.sequence < 2 ^ 12)
    ⊎ (now ≡ n.timestamp) × (n.timestamp < n'.timestamp) × (n'.sequence ≡ 0)
    ⊎ (now ≢ n.timestamp) × (n'.timestamp ≡ now) × (n'.sequence ≡ 0)

generate-After :
    (n n' : Node) (id : ℤ) (now : ℕ) (clock rest : List ℕ)
    → n.sequence < 2 ^ 12
    → generate n (now ∷ clock) ≡ some (id, n', rest)
    → (id ≡ wrap64 (pos (fields n'))) × (n'.node ≡ n.node) × After n now n'
unfolding generate
generate-After n n' id now clock rest w h = elim (Bool-cases (now == n.timestamp)) [
  | inl same ↦ elim (Bool-cases ((n.sequence + 1) % 2 ^ 12 == 0)) [
    | inl full ↦ elim (Option-cases (wait n.timestamp clock)) [
      | inl stuck ↦ ground arith
      | inr (r, got) ↦ (
        ground arith,
        ground arith,
        inr (inl (ground arith, ground (arith, wait_later n.timestamp clock r got), ground arith)),
      )
    ]
    | inr free ↦
        (ground arith, ground arith, inl (ground arith, ground arith, ground arith, ground arith))
  ]
  | inr other ↦ (ground arith, ground arith, inr (inr (ground arith, ground arith, ground arith)))
]

-- An id that Generate returns is the fields of the new state cut to 64 bits, the state stays well
-- formed, and the fields grow, provided that the clock has not gone back.
pub generate_increases :
    (n n' : Node) (id : ℤ) (clock rest : List ℕ)
    → IsNode n
    → StartsAt n.timestamp clock
    → generate n clock ≡ some (id, n', rest)
    → (id ≡ wrap64 (pos (fields n'))) × IsNode n' × (fields n < fields n') × (n'.node ≡ n.node)
unfolding generate
generate_increases n n' id [] rest w from h = ground arith
generate_increases n n' id (now ∷ clock) rest w from h =
    let (cut, node, after) = generate-After n n' id now clock rest w.1 h in
    (cut, (omega arith, ground arith), ground arith, node)

-- Two calls in a row, by a clock that does not go back, return different ids, the second one
-- larger, while the time fits the 41 bits that the sign leaves.
pub generate_unique :
    (n n' n'' : Node) (id id' : ℤ) (now : ℕ) (clock rest rest' : List ℕ)
    → IsNode n
    → StartsAt n.timestamp (now ∷ clock)
    → generate n (now ∷ clock) ≡ some (id, n', rest)
    → StartsAt n'.timestamp rest
    → generate n' rest ≡ some (id', n'', rest')
    → n''.timestamp < 2 ^ 41
    → (ltb_ℤ id id' ≡ true) × (ltb_ℤ (pos 0) id' ≡ true)
generate_unique n n' n'' id id' now clock rest rest' w from h from' h' small =
    let (cut, w', more, _) = generate_increases n n' id (now ∷ clock) rest w from h in
    let (cut', w'', more', _) = generate_increases n' n'' id' rest rest' w' from' h' in
    let same : id ≡ pos (fields n') =
      cut ∙ wrap64-of_fits (pos (fields n')) (omega arith, omega arith) in
    let same' : id' ≡ pos (fields n'') =
      cut' ∙ wrap64-of_fits (pos (fields n'')) (omega arith, omega arith) in
    ground (arith, same, same')

-- A clock that goes back makes ids repeat: on the readings `t`, `u` and `t`, each other than the
-- one before it, the third id is the first one.
pub generate_repeats :
    (n n' n'' n''' : Node) (id id' id'' : ℤ) (t u : ℕ)
    → t ≢ n.timestamp
    → u ≢ t
    → generate n (t ∷ u ∷ t ∷ []) ≡ some (id, n', u ∷ t ∷ [])
    → generate n' (u ∷ t ∷ []) ≡ some (id', n'', t ∷ [])
    → generate n'' (t ∷ []) ≡ some (id'', n''', [])
    → id'' ≡ id
unfolding generate
generate_repeats n n' n'' n''' id id' id'' t u new other h h' h'' = ground arith

wait_returns :
    (t : ℕ) (clock : List ℕ) → 0 < count (ltb t) clock → (r : ℕ × List ℕ) × (wait t clock ≡ some r)
wait_returns t [] later = ground arith
wait_returns t (now ∷ clock) later = elim (Bool-cases (leb now t)) [
  | inl early ↦ let (r, got) = wait_returns t clock (ground arith) in (r, ground arith)
  | inr late ↦ ((now, clock), ground arith)
]

-- Generate returns an id when the clock, after its first reading, at some reading passes the
-- timestamp of the node.
pub generate_returns :
    (n : Node) (now : ℕ) (clock : List ℕ)
    → 0 < count (ltb n.timestamp) clock
    → (id : ℤ) × (n' : Node) × (rest : List ℕ) × (generate n (now ∷ clock) ≡ some (id, n', rest))
unfolding generate
generate_returns n now clock later =
    let (r, got) = wait_returns n.timestamp clock later in
    elim (Option-cases (generate n (now ∷ clock))) [
      | inl stuck ↦ ground (arith, stuck, got)
      | inr ((id, n', rest), made) ↦ (id, n', rest, made)
    ]
