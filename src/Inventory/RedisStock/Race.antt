-- ===== src/Inventory/RedisStock/Race.antt =====
-- Purchases of one product that interleave on its counter in Redis: each command of `DeductRedis` and
-- `RollbackRedis` (internal/inventory/service.go) is a step, and any buyer may take the next one.
use distributed_software_hom.Prelude.{
  ℕ, ◌+◌, ◌≤◌, ◌≡◌, refl, inl, inr, some, arith, Bool-cases, ==_refl, sym, ap, subst, ◌∙◌, List, [],
  ◌∷◌, ◌++◌, map, if◌then◌else◌,
}
use distributed_software_hom.Prelude.Int.{ℤ, pos, pos_part, neg_part, ◌+ℤ◌, ◌-ℤ◌, ltb_ℤ, int_laws}
use distributed_software_hom.Result.{Result, ok, err}
use distributed_software_hom.Redis.{Redis, IsRedisUp, stock_key, number, number_at}
use distributed_software_hom.Inventory.RedisStock.{after_decr, rollback_redis}

-- Where a buyer of `q` units stands.
pub data Buyer : Type 0 where
  waiting : (q : ℕ) → Buyer  -- before DECRBY
  replied : (q : ℕ) (m : ℤ) → Buyer  -- with the reply of DECRBY
  settled : (q : ℕ) → Result (Unit {0}) → Buyer  -- DeductRedis has returned
  returned : (q : ℕ) → Buyer  -- the transaction failed, and RollbackRedis has run

-- Units of a buyer that are off the counter.
abbrev pub taken : Buyer → ℕ
taken (waiting q) = 0
taken (replied q m) = q
taken (settled q (ok _)) = q
taken (settled q (err _)) = 0
taken (returned q) = 0

-- Units that a buyer holds, or will hold after the test of the reply.
abbrev pub secured : Buyer → ℕ
secured (replied q m) = if ltb_ℤ m (pos 0) then 0 else q
secured b = taken b

-- Units that `DeductRedis` has granted, and that were not given back.
abbrev pub granted : Buyer → ℕ
granted (settled q (ok _)) = q
granted _ = 0

pub total : (Buyer → ℕ) → List Buyer → ℕ
total w [] = 0
total w (b ∷ bs) = w b + total w bs

total-insert :
    (w : Buyer → ℕ) (front back : List Buyer) (b : Buyer)
    → total w (front ++ b ∷ back) ≡ total w (front ++ back) + w b
unfolding total
total-insert w [] back b = omega arith
total-insert w (x ∷ front) back b = omega (arith, total-insert w front back b)

total-le :
    (v w : Buyer → ℕ) → ((b : Buyer) → v b ≤ w b) → (bs : List Buyer) → total v bs ≤ total w bs
unfolding total
total-le v w le [] = omega arith
total-le v w le (b ∷ bs) = omega (arith, le b, total-le v w le bs)

secured-le-taken : (b : Buyer) → secured b ≤ taken b
secured-le-taken (replied q m) = ground arith
secured-le-taken (waiting q) = omega arith
secured-le-taken (settled q (ok u)) = omega arith
secured-le-taken (settled q (err e)) = omega arith
secured-le-taken (returned q) = omega arith

granted-le-secured : (b : Buyer) → granted b ≤ secured b
granted-le-secured (replied q m) = ground arith
granted-le-secured (waiting q) = omega arith
granted-le-secured (settled q (ok u)) = omega arith
granted-le-secured (settled q (err e)) = omega arith
granted-le-secured (returned q) = omega arith

none_taken : (qs : List ℕ) → total taken (map waiting qs) ≡ 0
unfolding total
none_taken [] = refl
none_taken (q ∷ qs) = omega (arith, none_taken qs)

none_secured : (qs : List ℕ) → total secured (map waiting qs) ≡ 0
unfolding total
none_secured [] = refl
none_secured (q ∷ qs) = omega (arith, none_secured qs)

module _ {D : Type 0} (redis : Redis D) (pid : ℕ) where
  -- One step of one buyer: DECRBY, the rest of DeductRedis, or RollbackRedis.
  pub data Move (d : D) : Buyer → D → Buyer → Type 0 where
    decrement :
        {q : ℕ} {m : ℤ} {d' : D}
        → redis.decr_by (stock_key pid) (pos q) d ≡ (ok m, d')
        → Move d (waiting q) d' (replied q m)
    settle :
        {q : ℕ} {m : ℤ}
        → Move d
            (replied q m)
            (after_decr redis pid (pos q) (ok m, d)).1
            (settled q (after_decr redis pid (pos q) (ok m, d)).0)
    give_back :
        {q : ℕ} → Move d (settled q (ok tt)) (rollback_redis redis pid (pos q) d) (returned q)

  -- Any buyer may move next.
  pub data Step (d : D) : List Buyer → D → List Buyer → Type 0 where
    pick :
        {b c : Buyer} {d' : D} (front back : List Buyer)
        → Move d b d' c
        → Step d (front ++ b ∷ back) d' (front ++ c ∷ back)

  pub data Reach (d0 : D) (bs0 : List Buyer) : D → List Buyer → Type 0 where
    start : Reach d0 bs0 d0 bs0
    later :
        {d d' : D} {bs bs' : List Buyer}
        → Reach d0 bs0 d bs
        → Step d bs d' bs'
        → Reach d0 bs0 d' bs'

  -- The counter and the units that are off it make up the stock `k` of the beginning.
  abbrev pub Counts : ℕ → D → ℕ → ℕ → Type 0
  Counts k d off safe =
      (b : ℤ) × (number_at (redis.view (stock_key pid) d) ≡ some b)
      × (pos_part b + off ≡ k + neg_part b)
      × (safe ≤ k)

  abbrev pub IsCounted : ℕ → D → List Buyer → Type 0
  IsCounted k d bs = Counts k d (total taken bs) (total secured bs)

  module _ (up : IsRedisUp redis) where
    -- INCRBY by `q` on a counter.
    incr_view :
        (q : ℕ) (b : ℤ) (d : D)
        → number_at (redis.view (stock_key pid) d) ≡ some b
        → number_at (redis.view (stock_key pid) (redis.incr_by (stock_key pid) (pos q) d).1)
          ≡ some (b +ℤ pos q)
    incr_view q b d there =
        let (m, d', incr) = up.incr_by_up (stock_key pid) (pos q) b d there in
        let (b', there', eq, views) = redis.incr_by_ok (stock_key pid) (pos q) m d d' incr in
        let same : b' ≡ b = ground (arith, there, there') in
        let state : (redis.incr_by (stock_key pid) (pos q) d).1 ≡ d' = ap (λ c. c.1) incr in
        let now : redis.view (stock_key pid) d' ≡ some (number m) =
          views (stock_key pid)
          ∙ ap (λ t. if t then some (number m) else redis.view (stock_key pid) d) (==_refl pid) in
        ap (λ x. number_at (redis.view (stock_key pid) x)) state
        ∙ (ap number_at now ∙ ap some (eq ∙ ap (λ x. x +ℤ pos q) same))

    decr_view :
        (q : ℕ) (b m : ℤ) (d d' : D)
        → number_at (redis.view (stock_key pid) d) ≡ some b
        → redis.decr_by (stock_key pid) (pos q) d ≡ (ok m, d')
        → (m ≡ b -ℤ pos q) × (number_at (redis.view (stock_key pid) d') ≡ some m)
    decr_view q b m d d' there decr =
        let (b', there', eq, views) = redis.decr_by_ok (stock_key pid) (pos q) m d d' decr in
        let same : b' ≡ b = ground (arith, there, there') in
        let now : redis.view (stock_key pid) d' ≡ some (number m) =
          views (stock_key pid)
          ∙ ap (λ t. if t then some (number m) else redis.view (stock_key pid) d) (==_refl pid) in
        (eq ∙ ap (λ x. x -ℤ pos q) same, ap number_at now)

    Move-Counts :
        (k off safe : ℕ) (d : D) (b c : Buyer) (d' : D)
        → Move d b d' c
        → safe ≤ off
        → Counts k d (off + taken b) (safe + secured b)
        → Counts k d' (off + taken c) (safe + secured c)
    unfolding rollback_redis
    Move-Counts k off safe d b c d' (decrement {q} {m} r) le (n, there, sum, few) =
        let (eq, now) = decr_view q n m d d' there r in
        let lower : pos_part m + (off + q) ≡ k + neg_part m =
          subst (λ x. pos_part x + (off + q) ≡ k + neg_part x) (sym eq) (omega int_laws) in
        elim (Bool-cases (ltb_ℤ m (pos 0))) [
          | inl below ↦ (m, now, lower, ground (arith, below))
          | inr fits ↦ (m, now, lower, ground (arith, fits))
        ]
    Move-Counts k off safe d b c d' (settle {q} {m}) le (n, there, sum, few) =
        elim (Bool-cases (ltb_ℤ m (pos 0))) [
          | inl below ↦
              rw below (n +ℤ pos q, incr_view q n d there, omega int_laws, ground (arith, below))
          | inr fits ↦ rw fits (n, there, sum, ground (arith, fits))
        ]
    Move-Counts k off safe d b c d' (give_back {q}) le (n, there, sum, few) =
        (n +ℤ pos q, incr_view q n d there, omega int_laws, omega arith)

    Step-IsCounted :
        (k : ℕ) (bs bs' : List Buyer) (d d' : D)
        → Step d bs d' bs'
        → IsCounted k d bs
        → IsCounted k d' bs'
    Step-IsCounted k bs bs' d d' (pick {b} {c} front back mv) h =
        let off = total taken (front ++ back) in
        let safe = total secured (front ++ back) in
        rw (total-insert taken front back c) (
          rw (total-insert secured front back c) (
            Move-Counts k off safe d b c d' mv
              (total-le secured taken secured-le-taken (front ++ back))
              (rw (total-insert taken front back b, total-insert secured front back b) at h)))

    Reach-IsCounted :
        {d0 : D} {bs0 : List Buyer} {d : D} {bs : List Buyer} (k : ℕ)
        → Reach d0 bs0 d bs
        → IsCounted k d0 bs0
        → IsCounted k d bs
    Reach-IsCounted k start h = h
    Reach-IsCounted k (later {d} {d'} {bs} {bs'} r st) h =
        Step-IsCounted k bs bs' d d' st (Reach-IsCounted k r h)

    start-IsCounted :
        (k : ℕ) (d : D) (qs : List ℕ)
        → number_at (redis.view (stock_key pid) d) ≡ some (pos k)
        → IsCounted k d (map waiting qs)
    start-IsCounted k d qs there =
        (pos k, there, rw (none_taken qs) (omega arith), rw (none_secured qs) (omega arith))

    -- With Redis reachable and a counter of `k`, however the commands of any number of buyers of one
    -- product interleave, failed transactions that give their units back included, the units granted
    -- never exceed `k`, and the counter is `k` less the units that are off it.
    pub Reach-granted :
        (k : ℕ) (qs : List ℕ) (d0 d : D) (bs : List Buyer)
        → number_at (redis.view (stock_key pid) d0) ≡ some (pos k)
        → Reach d0 (map waiting qs) d bs
        → (total granted bs ≤ k)
          × (number_at (redis.view (stock_key pid) d) ≡ some (pos k -ℤ pos (total taken bs)))
    Reach-granted k qs d0 d bs there r =
        let (b, now, sum, few) = Reach-IsCounted k r (start-IsCounted k d0 qs there) in
        let same : b ≡ pos k -ℤ pos (total taken bs) = omega int_laws in
        (omega (arith, total-le granted secured granted-le-secured bs), now ∙ ap some same)
