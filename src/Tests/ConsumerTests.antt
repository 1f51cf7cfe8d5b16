-- ===== src/Tests/ConsumerTests.antt =====
-- Claims of the consumers.
use distributed_software_hom.Prelude.{ℕ, ◌≡◌, refl, inl, inr, subst, true, List, [], ◌∷◌, arith}
use distributed_software_hom.Prelude.Int.{◌-ℤ◌, ◌+ℤ◌}
use distributed_software_hom.Result.{ok, err, external, Result-cases}
use distributed_software_hom.Event.{Payload, Message, event}
use distributed_software_hom.Redis.Memory.{memory, set_nx, change}
use distributed_software_hom.Database.{Transactions}
use distributed_software_hom.Database.Memory
use distributed_software_hom.Outbox.{write_event}
use distributed_software_hom.Inventory.{deduct, deduct_from, get_by_product_id, deduct_with_lock}
use distributed_software_hom.Inventory.RedisStock.{deduct_redis}
use distributed_software_hom.Inventory.Events
use distributed_software_hom.Inventory.Events.{
  InventoryStore, handle_order_created, reserve, report,
}
use distributed_software_hom.Product.{get_product_by_id, find_product_by_id}
use distributed_software_hom.Order.{create_tx}
use distributed_software_hom.Order.Seckill.{
  seckill, claim, product_on_sale, buy, place, new_order, created_payload,
}
use distributed_software_hom.Saga.Consumers.Lost.{order_created_aborted, aborted_lost}
use distributed_software_hom.Kafka.{consume_claim, mark_all}
use distributed_software_hom.Saga.{view, Reach}
use distributed_software_hom.Saga.Spec.{IsIn}
use distributed_software_hom.Config.{ConsumerGroup}
use distributed_software_hom.Saga.Consumers.{
  order_service, by_inventory_event, by_stock, Arrival, Stems, handled,
}
use distributed_software_hom.Saga.Consumers.Claims.{claim-Reach}
use distributed_software_hom.Tests.World.{
  World, floats, two_lamps, lamp, inventory_store, order_store, payment_store, stamp, rates,
}
use distributed_software_hom.Tests.SagaTests.{
  sys0, sys1, was_created, sys2, was_deducted, sys2_reached, was_deducted-IsIn,
}

-- A database of the inventory service that refuses each commit.
abbrev never_commits : Transactions World (Unit {0})
never_commits = record {
  transaction = λ body s. elim (body s) [ ok p ↦ err (external 1) | err e ↦ err e ];
  commits = λ body s a s' h. elim (Result-cases (body s)) [
    | inl (p, r) ↦ absurd (ground (arith, h, r))
    | inr (e, r) ↦ absurd (ground (arith, h, r))
  ];
  aborts = λ body s e h. rw h refl;
}

abbrev failing_store : InventoryStore ℕ World
failing_store = record inventory_store { transactions = never_commits }

abbrev creation_arrives : Arrival ℕ
creation_arrives = record {
  message = event was_created;
  stamp = stamp;
  payment_id = "P1";
  prob = rates;
  rate = 90;
  roll = 10;
}

aborted_lost_example :
    let run =
      consume_claim ◌∷◌
        (λ b x. (ok tt, handled order_store failing_store payment_store memory by_stock b x)) in
    let claim = creation_arrives ∷ creation_arrives ∷ [] in
    ((run claim (sys1, [])).0 ≡ (run (creation_arrives ∷ []) (sys1, [])).0)
    × ((run claim (sys1, [])).1 ≡ mark_all ◌∷◌ claim [])
unfolding Events.handle_order_event handle_order_created reserve report deduct deduct_from
    get_by_product_id deduct_with_lock write_event Memory.table Memory.first Memory.update
    Memory.create ◌-ℤ◌ ◌+ℤ◌ consume_claim seckill claim product_on_sale get_product_by_id
    find_product_by_id buy place create_tx deduct_redis memory set_nx change
aborted_lost_example =
    aborted_lost order_store failing_store payment_store memory ◌∷◌ by_stock []
      (creation_arrives ∷ []) creation_arrives sys1 sys1 [] [] refl
      (order_created_aborted (created_payload stamp (new_order floats "N9" 9 two_lamps lamp))
        (external 1) refl refl)

-- config/order-service.yaml
abbrev of_inventory : ConsumerGroup
of_inventory = record { group_id = "order-service-group"; topic = "inventory-events" }

abbrev of_payment : ConsumerGroup
of_payment = record { group_id = "order-payment-group"; topic = "payment-events" }

abbrev deduction_arrives : Arrival ℕ
deduction_arrives = record {
  message = event was_deducted;
  stamp = stamp;
  payment_id = "";
  prob = rates;
  rate = 0;
  roll = 0;
}

event-injective : (p q : Payload ℕ) → ◌≡◌ {A = Message ℕ} (event p) (event q) → p ≡ q
event-injective p q h = ground arith

deduction_arrives-Stems :
    Stems
      (view order_store inventory_store payment_store memory sys2).from_inventory
      deduction_arrives
deduction_arrives-Stems p h =
    subst (λ x. IsIn x (view order_store inventory_store payment_store memory sys2).from_inventory)
      (event-injective was_deducted p h) was_deducted-IsIn

-- STOCK_DEDUCTED reaches the order service.
claim-Reach_example :
    let (w, marks) =
      consume_claim {Q = List (Arrival ℕ)} ◌∷◌
        (λ a x.
          (ok tt, handled order_store inventory_store payment_store memory by_inventory_event a x))
        (deduction_arrives ∷ [])
        (sys2, []) in
    Reach order_store inventory_store payment_store memory sys0 w
    × (marks ≡ mark_all ◌∷◌ (deduction_arrives ∷ []) [])
claim-Reach_example =
    claim-Reach order_store inventory_store payment_store memory ◌∷◌ (λ a x. ok tt) (λ g. true)
      order_service (of_inventory ∷ of_payment ∷ []) of_inventory by_inventory_event
      (deduction_arrives ∷ []) sys0 sys2 [] (inl refl) tt (deduction_arrives-Stems, tt) sys2_reached
