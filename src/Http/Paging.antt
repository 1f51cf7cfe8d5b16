-- ===== src/Http/Paging.antt =====
-- The paging of internal/order/{handler,repository}.go and internal/product/{handler,repository}.go.
use distributed_software_hom.Prelude.{
  count, IsDescending, ◌&&◌, ℕ, zero, suc, ◌-◌, ◌*◌, ◌≡◌, String, Bool, ◌||◌, Option, none, some,
  List, [], ◌++◌, take, drop, if◌then◌else◌,
}
use distributed_software_hom.Prelude.Int.{ℤ, pos, pos_part, ltb_ℤ}
use distributed_software_hom.Prelude.Word.{wrap64}
use distributed_software_hom.Result.{Result, ok, err, ◌>>=◌}
use distributed_software_hom.Database.{Schema, Table}
use distributed_software_hom.Http.{Reply, success, error, PaginatedData}
use distributed_software_hom.Http.Number.{atoi}

-- `c.DefaultQuery(name, default)`
abbrev pub query_or : String → Option String → String
query_or default_text none = default_text
query_or default_text (some t) = t

-- `if page < 1 { page = 1 }`
unfoldable pub page_of : Option String → ℕ
page_of q = let n = atoi (query_or "1" q) in if ltb_ℤ n (pos 1) then 1 else pos_part n

-- `if pageSize < 1 || pageSize > 100 { pageSize = 10 }`
unfoldable pub page_size_of : Option String → ℕ
page_size_of q =
    let n = atoi (query_or "10" q) in
    if ltb_ℤ n (pos 1) || ltb_ℤ (pos 100) n then 10 else pos_part n

-- `(page - 1) * pageSize` on 64 bits
unfoldable pub offset_of : ℕ → ℕ → ℤ
offset_of page page_size = wrap64 (pos ((page - 1) * page_size))

-- A page of rows and their number, as an answer shows them.
abbrev pub paginated : {A : Type 0} → ℕ → ℕ → Result (List A × ℕ) → Reply (PaginatedData A)
paginated page page_size (err e) = error 500
paginated page page_size (ok (items, total)) =
    success (record { items = items; total = total; page = page; page_size = page_size })

-- Where(p).Order("created_at DESC").Offset(o).Limit(n).Find(&rs). gorm leaves out an offset that is
-- not positive. `newest p s` is the whole answer of the query, without the offset and the limit: the
-- rows that pass `p`, each as often as in the table, the newest first.
pub record Pages {S R : Type 0} {schema : Schema R} (t : Table S R schema) : Type 0 where
  pub created_at : S → R → ℕ
  pub newest : (R → Bool) → S → List R
  pub newest_rows :
      (p q : R → Bool) (s : S) → count q (newest p s) ≡ count (λ r. p r && q r) (t.rows s)
  pub newest_first : (p : R → Bool) (s : S) → IsDescending (created_at s) (newest p s)
  pub find_page : (R → Bool) → ℤ → ℕ → S → Result (List R)
  pub find_page_ok :
      (p : R → Bool) (o : ℤ) (n : ℕ) (s : S) (rs : List R)
      → find_page p o n s ≡ ok rs
      → rs ≡ take n (drop (pos_part o) (newest p s))

module _ {S R : Type 0} {schema : Schema R} (t : Table S R schema) (pages : Pages t) where
  -- The error of the count is dropped.
  abbrev pub total_of : Result ℕ → ℕ
  total_of (ok n) = n
  total_of (err e) = 0

  unfoldable pub find_rows : (R → Bool) → ℕ → ℕ → S → Result (List R × ℕ)
  find_rows p page page_size s = pages.find_page p (offset_of page page_size) page_size s >>= λ rs.
      ok (rs, total_of (t.count_rows p s))

  -- The first `k` of some pages, one after the other.
  abbrev pub joined : (ℕ → List R) → ℕ → List R
  joined page zero = []
  joined page (suc k) = joined page k ++ page k
