-- ===== src/Tests/RelayTests.antt =====
-- pkg/outbox/relay.go: a round with one event.
use distributed_software_hom.Prelude.{
  ℕ, ◌≡◌, refl, Bool, true, false, List, [], ◌∷◌, map, arith, All, find?, some, ◌==◌, ap, subst,
  sym,
}
use distributed_software_hom.Prelude.Int.{pos}
use distributed_software_hom.Result.{Result, ok}
use distributed_software_hom.Database.Memory
use distributed_software_hom.Event.{completed, order_completed, order_events, stamped}
use distributed_software_hom.Outbox
use distributed_software_hom.Outbox.{OutboxEvent, unsent}
use distributed_software_hom.Outbox.Relay.{
  TopicProducer, IsBacked, publish_batch, publish_batch-IsBacked,
}
use distributed_software_hom.Database.{IsUp}
use distributed_software_hom.Outbox.{outbox_schema}
use distributed_software_hom.Outbox.Relay.{IsDelivered}
use distributed_software_hom.Outbox.Relay.Marked.{marked}
use distributed_software_hom.Outbox.Relay.Drained.{IsAccepting, start, start_delivers}
use distributed_software_hom.Tests.Query.{found_waiting, found_waiting-Finds}
use distributed_software_hom.Tests.World.{World, world, outbox, stamp}

-- A broker that takes every message; its state tells whether it has one.
abbrev broker : TopicProducer ℕ Bool
broker = record {
  delivered = λ t k v p. p;
  send = λ t k v p. (ok tt, true);
  send_ok = λ t k v p p' h. sym (ap (λ c. c.1) h);
  send_keeps = λ t k v t' k' v' p h. refl;
}

abbrev waiting : OutboxEvent ℕ
waiting =
    record (unsent Outbox.order "N8" order_completed order_events (
      completed
        (record { base = stamped stamp; order_no = "N8"; product_id = 5; quantity = pos 3 }))) {
          id = 1;
        }

abbrev waiting_world : World
waiting_world = record world { outbox = waiting ∷ [] }

abbrev found : World → Result (List (OutboxEvent ℕ))
found w = ok (waiting ∷ [])

found_rows :
    (es : List (OutboxEvent ℕ))
    → found waiting_world ≡ ok es
    → All (λ e. find? (λ r. r.id == e.id) (outbox.rows waiting_world) ≡ some e) es
unfolding Memory.table
found_rows es h =
    let same : waiting ∷ [] ≡ es = ground arith in
    subst (λ l. All (λ e. find? (λ r. r.id == e.id) (waiting ∷ []) ≡ some e) l) same (refl, tt)

publish_batch-IsBacked_example :
    IsBacked outbox broker (publish_batch outbox broker found (waiting_world, false))
unfolding Memory.table
publish_batch-IsBacked_example =
    publish_batch-IsBacked outbox broker found waiting_world false found_rows (tt, tt)
      ((λ e. ground arith), tt)

outbox-IsUp : (w : World) → IsUp outbox w
outbox-IsUp w =
    Memory.table-IsUp outbox_schema (λ w. w.outbox) (λ l w. record w { outbox = l }) (λ l w. refl) w

broker-IsAccepting : IsAccepting outbox broker
broker-IsAccepting t k v p = (true, refl)

start_delivers_example :
    let (w, p) = start outbox broker found_waiting 1 (waiting_world, false) in
    (outbox.rows w ≡ map marked (outbox.rows waiting_world))
    × All (IsDelivered outbox broker p) (outbox.rows w)
unfolding Memory.table
start_delivers_example =
    start_delivers outbox broker outbox-IsUp broker-IsAccepting found_waiting 1 waiting_world false
      found_waiting-Finds (tt, tt) ((λ e. ground arith), tt) (omega arith)
