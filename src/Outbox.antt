-- ===== src/Outbox.antt =====
-- pkg/outbox/model.go: the table of events that wait to be published.
pub mod Relay
use distributed_software_hom.Prelude.{ℕ, String, Bool, false, ◌≡◌, arith, [], ◌∷◌, ◌++◌, ◌==◌}
use distributed_software_hom.Result.{Result, ok, ◌>>=◌, >>=-eq-ok}
use distributed_software_hom.Event.{EventType, Topic, Payload}
use distributed_software_hom.Database.{Schema, Table}

pub data Aggregate : Type 0 where
  order inventory payment : Aggregate

pub record OutboxEvent (F : Type 0) : Type 0 where
  pub id : ℕ
  pub aggregate_type : Aggregate
  pub aggregate_id : String
  pub event_type : EventType
  pub topic : Topic
  pub payload : Payload F
  pub sent : Bool

module _ {F : Type 0} where
  -- `primaryKey`; the table has no other unique index
  abbrev pub outbox_schema : Schema (OutboxEvent F)
  outbox_schema = record {
    id_of = λ e. e.id;
    with_id = λ i e. record e { id = i };
    clash = λ a b. a.id == b.id;
  }

  abbrev pub unsent : Aggregate → String → EventType → Topic → Payload F → OutboxEvent F
  unsent aggregate aggregate_id event_type topic payload = record {
    id = 0;
    aggregate_type = aggregate;
    aggregate_id = aggregate_id;
    event_type = event_type;
    topic = topic;
    payload = payload;
    sent = false;
  }

  module _ {S : Type 0} (outbox : Table S (OutboxEvent F) outbox_schema) where
    -- The insert runs in the transaction of the caller. The payloads always have a JSON form.
    unfoldable pub write_event : Aggregate → String → EventType → Topic → Payload F → S → Result S
    write_event aggregate aggregate_id event_type topic payload s =
        outbox.create (unsent aggregate aggregate_id event_type topic payload) s >>= λ (i, s').
        ok s'

    pub write_event-rows :
        (aggregate : Aggregate) (aggregate_id : String) (event_type : EventType) (topic : Topic)
        (payload : Payload F) (s s' : S)
        → write_event aggregate aggregate_id event_type topic payload s ≡ ok s'
        → (i : ℕ) × (outbox.create (unsent aggregate aggregate_id event_type topic payload) s
            ≡ ok (i, s'))
          × (outbox.rows s'
              ≡ outbox.rows s
                ++ record (unsent aggregate aggregate_id event_type topic payload) { id = i } ∷ [])
    unfolding write_event
    write_event-rows aggregate aggregate_id event_type topic payload s s' h =
        let e = unsent aggregate aggregate_id event_type topic payload in
        let (p, made, same) = >>=-eq-ok (outbox.create e s) (λ (i, t). ok t) h in
        let made' : outbox.create e s ≡ ok (p.0, s') = ground arith in
        (p.0, made', outbox.create_rows e s p.0 s' made')
