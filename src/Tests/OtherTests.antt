-- ===== src/Tests/OtherTests.antt =====
-- Runs of internal/inventory (the total), internal/product, internal/user, internal/payment and
-- pkg/snowflake.
use distributed_software_hom.Config.{decimal}
use distributed_software_hom.Prelude.{
  ℕ, String, ◌≡◌, refl, true, none, some, List, [], ◌∷◌, arith, find?, str_eq, subst, if◌then◌else◌,
}
use distributed_software_hom.Prelude.Int.{ℤ, pos, ltb_ℤ}
use distributed_software_hom.Prelude.Word.{wrap64}
use distributed_software_hom.Result.{Result, ok}
use distributed_software_hom.Database.Memory
use distributed_software_hom.Redis.Memory.{memory}
use distributed_software_hom.Inventory.{for_product, lock_units, get_by_product_id}
use distributed_software_hom.Inventory.SetTotal.{settled, set_inventory, set_inventory_row}
use distributed_software_hom.Product.{Product, get_product_by_id, find_product_by_id}
use distributed_software_hom.Product.Cached.{
  Json, IsReadBack, IsFresh, get_cached_product, get_cached_product_fresh,
}
use distributed_software_hom.Snowflake.{Node, fields, generate}
use distributed_software_hom.Snowflake.Unique.{
  IsNode, generate_unique, generate_returns, generate_repeats,
}
use distributed_software_hom.User.{User, RegisterRequest, UpdateProfileRequest}
use distributed_software_hom.Tests.World.{World, world, inventories, lamps, cache, products, lamp}

-- Another customer takes two lamps between the read and the write.
abbrev meanwhile : World → World
meanwhile w = record w { inventories = lock_units (pos 2) lamps ∷ [] }

abbrev twenty_lamps : World
twenty_lamps = record world { inventories = settled (pos 20) lamps ∷ [] }

set_inventory_row_example :
    (settled (pos 20) lamps ≡ settled (pos 20) lamps)
    × (find? (for_product 5) (inventories.rows twenty_lamps) ≡ some (settled (pos 20) lamps))
unfolding set_inventory settled get_by_product_id Memory.table Memory.first Memory.save
set_inventory_row_example =
    set_inventory_row inventories meanwhile 5 (pos 20) world twenty_lamps lamps
      (settled (pos 20) lamps) (lock_units (pos 2) lamps) refl (λ e. ground arith) refl (tt, tt)
      refl refl

abbrev node : Node
node = record { timestamp = 5; node = 3; sequence = 0 }

node_IsNode : IsNode node
node_IsNode = (omega arith, omega arith)

abbrev node6 : Node
node6 = record { timestamp = 6; node = 3; sequence = 0 }

abbrev node61 : Node
node61 = record { timestamp = 6; node = 3; sequence = 1 }

generate_unique_example :
    (ltb_ℤ (wrap64 (pos (fields node6))) (wrap64 (pos (fields node61))) ≡ true)
    × (ltb_ℤ (pos 0) (wrap64 (pos (fields node61))) ≡ true)
unfolding generate
generate_unique_example =
    generate_unique node node6 node61 (wrap64 (pos (fields node6))) (wrap64 (pos (fields node61))) 6
      (6 ∷ []) (6 ∷ []) [] node_IsNode (omega arith) refl (omega arith) refl (omega arith)

generate_returns_example :
    (id : ℤ) × (n : Node) × (rest : List ℕ) × (generate
        (record node { sequence = 4095 })
        (5 ∷ 5 ∷ 6 ∷ [])
      ≡ some (id, n, rest))
generate_returns_example =
    generate_returns (record node { sequence = 4095 }) 5 (5 ∷ 6 ∷ []) (omega arith)

abbrev node4 : Node
node4 = record node { timestamp = 4 }

generate_repeats_example : wrap64 (pos (fields node6)) ≡ wrap64 (pos (fields node6))
unfolding generate
generate_repeats_example =
    generate_repeats node node6 node4 node6 (wrap64 (pos (fields node6)))
      (wrap64 (pos (fields node4))) (wrap64 (pos (fields node6))) 6 4 (λ e. ground arith)
      (λ e. ground arith) refl refl refl

abbrev ann_request : RegisterRequest
ann_request = record { username = "ann"; password = "secret"; email = "a@x"; phone = "1" }

abbrev ann : User
ann = record { id = 1; username = "ann"; password = "hashed"; email = "a@x"; phone = "1"; role = 0 }

abbrev hash : String → Result String
hash p = ok "hashed"

abbrev ann_world : World
ann_world = record world { users = ann ∷ [] }

abbrev new_phone : UpdateProfileRequest
new_phone = record { email = ""; phone = "2" }

-- JSON that knows one product.
abbrev json : Json ℕ
json = record {
  marshal = λ p. "lamp";
  unmarshal = λ t. if str_eq t "lamp" then some lamp else none;
}

fresh5 : IsFresh products memory json 5 world cache
unfolding IsFresh memory
fresh5 = λ v answer seen. ground arith

get_cached_product_fresh_example :
    (get_cached_product products memory json 5 world cache).0 ≡ get_product_by_id products 5 world
get_cached_product_fresh_example =
    get_cached_product_fresh products memory json 5 world cache fresh5

lamp_read : (p : Product ℕ) → get_product_by_id products 5 world ≡ ok p → IsReadBack json p
unfolding get_product_by_id find_product_by_id Memory.table Memory.first
lamp_read p h = let same : lamp ≡ p = ground arith in subst (IsReadBack json) same (refl, refl)

port_text : decimal (pos 5432) ≡ "5432"
unfolding decimal
port_text = refl
