-- ===== src/Saga/Consumers/Claims.antt =====
-- A claim of a consumer that cmd/{order,inventory,payment}-service start is a run of the saga.
use distributed_software_hom.Prelude.{
  String, ◌≡◌, inl, inr, refl, sym, ap, ◌∙◌, subst, Bool, true, false, Bool-cases, Option, none,
  some, List, [], ◌∷◌, All, Any, str_eq, eq_iff, arith,
}
use distributed_software_hom.Result.{Result}
use distributed_software_hom.Redis.{Redis}
use distributed_software_hom.Event.{Message, event, unknown, malformed}
use distributed_software_hom.Inventory.Events
use distributed_software_hom.Inventory.Events.{InventoryStore}
use distributed_software_hom.Order.Store.{OrderStore}
use distributed_software_hom.Order.Events.{handle_inventory_event, handle_payment_event}
use distributed_software_hom.Payment
use distributed_software_hom.Payment.{PaymentStore, Probabilities}
use distributed_software_hom.Kafka.{consume_claim, mark_all, consume_claim-marks}
use distributed_software_hom.Saga.{
  System, view, inventory_consumes, payment_consumes, order_consumes_inventory,
  order_consumes_payment, Reach, later,
}
use distributed_software_hom.Saga.Spec.{View}
use distributed_software_hom.Config.{ConsumerGroup}
use distributed_software_hom.Saga.Consumers.{
  Service, order_service, inventory_service, payment_service, Handling, by_inventory_event,
  by_payment_event, by_stock, by_payment, handler_of, put_first, consumers_of, Arrival, published,
  expected, Stems, IsConfigured, handled,
}

put_first-Any :
    (service : Service) (x g : ConsumerGroup) (h : Handling) (o : Option Handling)
    (connected : Bool) (rest : List (ConsumerGroup × Handling))
    → handler_of service x.topic ≡ o
    → (Any (λ y. y ≡ (g, h)) rest → handler_of service g.topic ≡ some h)
    → Any (λ y. y ≡ (g, h)) (put_first x o connected rest)
    → handler_of service g.topic ≡ some h
put_first-Any service x g h none c rest e ih there = ih there
put_first-Any service x g h (some k) true rest e ih (inl same) =
    subst (λ (y : ConsumerGroup × Handling). handler_of service y.0.topic ≡ some y.1) same e
put_first-Any service x g h (some k) true rest e ih (inr there) = ih there
put_first-Any service x g h (some k) false rest e ih there = ih there

consumers-of_handler :
    (connects : ConsumerGroup → Bool) (service : Service) (gs : List ConsumerGroup)
    (g : ConsumerGroup) (h : Handling)
    → Any (λ x. x ≡ (g, h)) (consumers_of connects service gs)
    → handler_of service g.topic ≡ some h
consumers-of_handler connects service [] g h there = absurd there
consumers-of_handler connects service (x ∷ gs) g h there =
    put_first-Any service x g h (handler_of service x.topic) (connects x)
      (consumers_of connects service gs) refl (consumers-of_handler connects service gs g h) there

-- The topic that each handler of a service is for.
abbrev topic_of : Handling → String
topic_of by_inventory_event = "inventory-events"
topic_of by_payment_event = "payment-events"
topic_of by_stock = "order-events"
topic_of by_payment = "order-events"

handler-topic :
    (service : Service) (g : ConsumerGroup) (h : Handling)
    → handler_of service g.topic ≡ some h
    → IsConfigured service g
    → g.topic ≡ topic_of h
handler-topic order_service g h chosen configured =
    elim (Bool-cases (str_eq g.topic "inventory-events")) [
      | inl stock ↦
          let c : by_inventory_event ≡ h = ground arith in
          subst (λ k. g.topic ≡ topic_of k) c ((eq_iff g.topic "inventory-events").0 stock)
      | inr other ↦ elim (Bool-cases (str_eq g.topic "payment-events")) [
        | inl pay ↦
            let c : by_payment_event ≡ h = ground arith in
            subst (λ k. g.topic ≡ topic_of k) c ((eq_iff g.topic "payment-events").0 pay)
        | inr neither ↦ absurd (ground arith)
      ]
    ]
handler-topic inventory_service g h chosen configured =
    let c : by_stock ≡ h = ground arith in subst (λ k. g.topic ≡ topic_of k) c configured
handler-topic payment_service g h chosen configured =
    let c : by_payment ≡ h = ground arith in subst (λ k. g.topic ≡ topic_of k) c configured

published-topic : {F : Type 0} (h : Handling) (v : View F) → published (topic_of h) v ≡ expected h v
published-topic by_inventory_event v = refl
published-topic by_payment_event v = refl
published-topic by_stock v = refl
published-topic by_payment v = refl

module _ {F SO SI SP D : Type 0} (order_store : OrderStore F SO)
    (inventory_store : InventoryStore F SI) (payment_store : PaymentStore F SP)
    (redis : Redis D) where
  abbrev does : Handling → Arrival F → System SO SI SP D → System SO SI SP D
  does = handled order_store inventory_store payment_store redis

  abbrev Runs : System SO SI SP D → System SO SI SP D → Type 0
  Runs = Reach order_store inventory_store payment_store redis

  abbrev seen_by : System SO SI SP D → View F
  seen_by = view order_store inventory_store payment_store redis

  message-Reach :
      (h : Handling) (a : Arrival F) (m : Message F) (w0 w : System SO SI SP D)
      → Stems (expected h (seen_by w)) (record a { message = m })
      → Runs w0 w
      → Runs w0 (does h (record a { message = m }) w)
  unfolding handle_inventory_event handle_payment_event Events.handle_order_event
      Payment.handle_order_event
  message-Reach by_inventory_event a (event p) w0 w stems run =
      later run (order_consumes_inventory a.stamp p (stems p refl))
  message-Reach by_inventory_event a unknown w0 w stems run = run
  message-Reach by_inventory_event a malformed w0 w stems run = run
  message-Reach by_payment_event a (event p) w0 w stems run =
      later run (order_consumes_payment a.stamp p (stems p refl))
  message-Reach by_payment_event a unknown w0 w stems run = run
  message-Reach by_payment_event a malformed w0 w stems run = run
  message-Reach by_stock a (event p) w0 w stems run =
      later run (inventory_consumes a.stamp p (stems p refl))
  message-Reach by_stock a unknown w0 w stems run = run
  message-Reach by_stock a malformed w0 w stems run = run
  message-Reach by_payment a (event p) w0 w stems run =
      later run (payment_consumes a.prob a.rate a.roll a.stamp a.payment_id p (stems p refl))
  message-Reach by_payment a unknown w0 w stems run = run
  message-Reach by_payment a malformed w0 w stems run = run

  -- No handler changes the outbox that its topic comes from.
  expected-handled :
      (h : Handling) (a : Arrival F) (w : System SO SI SP D)
      → expected h (seen_by (does h a w)) ≡ expected h (seen_by w)
  expected-handled by_inventory_event a w = refl
  expected-handled by_payment_event a w = refl
  expected-handled by_stock a w = refl
  expected-handled by_payment a w = refl

  -- A message is a step, or nothing.
  handled-Reach :
      (h : Handling) (a : Arrival F) (w0 w : System SO SI SP D)
      → Stems (expected h (seen_by w)) a
      → Runs w0 w
      → Runs w0 (does h a w)
  handled-Reach h a w0 w stems run = message-Reach h a a.message w0 w stems run

  -- A claim of one handler, whatever the handler answers.
  claimed-Reach :
      {Q : Type 0} (mark : Arrival F → Q → Q)
      (answer : Arrival F → System SO SI SP D → Result (Unit {0})) (h : Handling)
      (ms : List (Arrival F)) (w0 w : System SO SI SP D) (q : Q)
      → All (Stems (expected h (seen_by w))) ms
      → Runs w0 w
      → Runs w0 (consume_claim mark (λ a x. (answer a x, does h a x)) ms (w, q)).0
  unfolding consume_claim
  claimed-Reach mark answer h [] w0 w q stems run = run
  claimed-Reach mark answer h (m ∷ ms) w0 w q stems run =
      claimed-Reach mark answer h ms w0 (does h m w) (mark m q)
        (subst (λ ps. All (Stems ps) ms) (sym (expected-handled h m w)) stems.1)
        (handled-Reach h m w0 w stems.0 run)

  -- Whichever consumer groups are configured and can connect: a claim of a consumer that a service
  -- starts, of messages that its topic got from the outbox of another service (or that are no
  -- events), is a run of the saga, and marks each message once, in its order, whatever the handler
  -- answers. The inventory and the payment service are configured for order-events.
  pub claim-Reach :
      {Q : Type 0} (mark : Arrival F → Q → Q)
      (answer : Arrival F → System SO SI SP D → Result (Unit {0})) (connects : ConsumerGroup → Bool)
      (service : Service) (gs : List ConsumerGroup) (g : ConsumerGroup) (h : Handling)
      (ms : List (Arrival F)) (w0 w : System SO SI SP D) (q : Q)
      → Any (λ x. x ≡ (g, h)) (consumers_of connects service gs)
      → IsConfigured service g
      → All (Stems (published g.topic (seen_by w))) ms
      → Runs w0 w
      → let (w', q') = consume_claim mark (λ a x. (answer a x, does h a x)) ms (w, q) in
        Runs w0 w' × (q' ≡ mark_all mark ms q)
  claim-Reach mark answer connects service gs g h ms w0 w q there configured stems run =
      let chosen = consumers-of_handler connects service gs g h there in
      let same =
        ap (λ t. published t (seen_by w)) (handler-topic service g h chosen configured)
        ∙ published-topic h (seen_by w) in
      (
        claimed-Reach mark answer h ms w0 w q (subst (λ ps. All (Stems ps) ms) same stems) run,
        consume_claim-marks mark (λ a x. (answer a x, does h a x)) ms w q,
      )
