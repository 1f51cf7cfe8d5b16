-- ===== src/Tests/HandlerTests.antt =====
-- The handlers of internal/order, internal/product and internal/user, the authentication, and
-- pkg/registry: runs.
use distributed_software_hom.Prelude.{
  Bool, count, IsDescending, All, ◌≤◌, ◌&&◌, ℕ, ◌≡◌, ◌≢◌, ◌⊎◌, refl, some, List, [], ◌∷◌, take,
  drop, filter, arith,
}
use distributed_software_hom.Prelude.Int.{pos_part}
use distributed_software_hom.Result.{ok}
use distributed_software_hom.Database.Memory
use distributed_software_hom.Redis.Memory.{Store, memory}
use distributed_software_hom.Http.{Reply}
use distributed_software_hom.Http.Number.{parse_uint}
use distributed_software_hom.Http.Paging.{Pages}
use distributed_software_hom.Order.{Order, get_order_by_id}
use distributed_software_hom.Order.Service.{get_order}
use distributed_software_hom.Order.Service.Cancel.{IsOrderWithId}
use distributed_software_hom.Order.Handler.{
  handle_create_order, handle_get_order, handle_cancel_order,
}
use distributed_software_hom.Order.Handler.Create.{OrderedBy, handle_create_order_cases}
use distributed_software_hom.Order.Handler.Owner.{
  IsRequestOf, CancelledFor, handle_get_order_owner, handle_cancel_order_cases,
}
use distributed_software_hom.Tests.World.{
  World, world, mono, orders, order8, floats, cache, two_lamps,
}

abbrev create_call : Reply (Order ℕ) × World × Store
create_call = handle_create_order mono memory floats "N9" (some 9) (some two_lamps) world cache

handle_create_order_cases_example :
    OrderedBy mono memory floats "N9" (some 9) (some two_lamps) world create_call.0 create_call.1
    ⊎ ((create_call.0.code ≢ 200) × (create_call.1 ≡ world))
handle_create_order_cases_example =
    handle_create_order_cases mono memory floats "N9" (some 9) (some two_lamps) world cache

handle_get_order_owner_example :
    (uid : ℕ) × (id : ℕ) × IsRequestOf mono (some 8) "1" uid id
    × IsOrderWithId mono id order8 world
    × (8 ≡ uid)
unfolding handle_get_order get_order get_order_by_id parse_uint Memory.table Memory.first
handle_get_order_owner_example = handle_get_order_owner mono (some 8) "1" world order8 refl

abbrev cancel_call : Reply (Order ℕ) × World
cancel_call = handle_cancel_order mono (some 8) "1" world

handle_cancel_order_cases_example :
    CancelledFor mono (some 8) "1" world cancel_call.0 cancel_call.1
    ⊎ ((cancel_call.0.code ≢ 200) × (cancel_call.1 ≡ world))
handle_cancel_order_cases_example = handle_cancel_order_cases mono (some 8) "1" world

-- The later order first.
abbrev order9 : Order ℕ
order9 = record order8 { id = 2; order_no = "N9"; product_id = 6 }

abbrev two_orders : World
two_orders = record world { orders = order9 ∷ order8 ∷ [] }

-- A table whose rows have come at one time.
zero-IsDescending : {A : Type 0} (xs : List A) → IsDescending (λ x. 0) xs
zero-IsDescending [] = tt
zero-IsDescending (x ∷ xs) = (zeros xs, zero-IsDescending xs)
  where
    zeros : {A : Type 0} (ys : List A) → All (λ y. 0 ≤ 0) ys
    zeros [] = tt
    zeros (y ∷ ys) = (omega arith, zeros ys)

count-filter :
    {A : Type 0} (p q : A → Bool) (xs : List A) → count q (filter p xs) ≡ count (λ x. p x && q x) xs
count-filter p q [] = refl
count-filter p q (x ∷ xs) = ground (arith, count-filter p q xs)

abbrev order_pages : Pages orders
unfolding Memory.table
order_pages = record {
  created_at = λ w o. 0;
  newest_rows = λ p q w. count-filter p q w.orders;
  newest_first = λ p w. zero-IsDescending (filter p w.orders);
  newest = λ p w. filter p w.orders;
  find_page = λ p o n w. ok (take n (drop (pos_part o) (filter p w.orders)));
  find_page_ok = λ p o n w rs h. ground arith;
}

abbrev page : ℕ → List (Order ℕ)
page i = take 1 (drop i (order9 ∷ order8 ∷ []))
