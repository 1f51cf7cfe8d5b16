-- ===== src/Saga/Spec/Counted.antt =====
-- In the saga every order, and every event that moves stock, has a quantity of one or more: an
-- invariant of its transitions.
use distributed_software_hom.Prelude.{subst, sym, [], ◌∷◌, ◌++◌, All, All-append, All-in}
use distributed_software_hom.Prelude.Int.{pos, ◌≤ℤ◌}
use distributed_software_hom.Database.Rows.{All-map_where}
use distributed_software_hom.Event.{Payload, created, completed, cancelled, requested}
use distributed_software_hom.Order.{Order, Status, by_order_no, with_status}
use distributed_software_hom.Saga.Spec.{
  View, IsRow, set_status, Change, idle, place, deduct, fail, request, pay, decline, complete,
  cancel,
}
use distributed_software_hom.Prelude.{String}

module _ {F : Type 0} where
  abbrev pub Counts : Payload F → Type 0
  Counts (created c) = pos 1 ≤ℤ c.quantity
  Counts (completed e) = pos 1 ≤ℤ e.quantity
  Counts (cancelled e) = pos 1 ≤ℤ e.quantity
  Counts _ = Unit

  pub record IsCounted (v : View F) : Type 0 where
    pub events : All Counts v.from_order
    pub orders : All (λ o. pos 1 ≤ℤ o.quantity) v.orders

  -- An event of the order service, with the new status of its order.
  advanced-IsCounted :
      (v : View F) (n : String) (s : Status) (e : Payload F)
      → Counts e
      → IsCounted v
      → IsCounted
          (record v { from_order = v.from_order ++ e ∷ []; orders = set_status n s v.orders })
  advanced-IsCounted v n s e new h = record {
    events = All-append Counts v.from_order (e ∷ []) h.events (new, tt);
    orders =
        All-map_where (λ o. pos 1 ≤ℤ o.quantity) (by_order_no n) (with_status s) (λ o c _. c)
          v.orders h.orders;
  }

  row-Counts :
      (v : View F) (o : Order F) (n : String) → IsCounted v → IsRow o n v → pos 1 ≤ℤ o.quantity
  row-Counts v o n h row = All-in (λ x. pos 1 ≤ℤ x.quantity) o v.orders h.orders row.0

  -- A transition keeps the quantities at one or more.
  pub Change-IsCounted : (v v' : View F) → Change v v' → IsCounted v → IsCounted v'
  Change-IsCounted v v' (idle e) h = subst IsCounted (sym e) h
  Change-IsCounted v v' (place c o (n, uid, pid, q) fresh counted e) h =
      subst IsCounted (sym e) (record {
        events = All-append Counts v.from_order (created c ∷ []) h.events (counted, tt);
        orders =
            All-append (λ x. pos 1 ≤ℤ x.quantity) v.orders (o ∷ []) h.orders
              (subst (λ k. pos 1 ≤ℤ k) (sym q) counted, tt);
      })
  Change-IsCounted v v' (deduct c d there same e) h =
      subst IsCounted (sym e) (record { events = h.events; orders = h.orders })
  Change-IsCounted v v' (fail c d there same e) h =
      subst IsCounted (sym e) (record { events = h.events; orders = h.orders })
  Change-IsCounted v v' (request d r there n e) h =
      subst IsCounted (sym e)
        (advanced-IsCounted v d.order_no Status.awaiting_payment (requested r) tt h)
  Change-IsCounted v v' (pay r p x there same mine e) h =
      subst IsCounted (sym e) (record { events = h.events; orders = h.orders })
  Change-IsCounted v v' (decline r p x there same mine e) h =
      subst IsCounted (sym e) (record { events = h.events; orders = h.orders })
  Change-IsCounted v v' (complete p o e there row (n, pid, q) same) h = subst IsCounted (sym same) (
      advanced-IsCounted v p.order_no Status.paid (completed e)
        (subst (λ k. pos 1 ≤ℤ k) (sym q) (row-Counts v o p.order_no h row)) h)
  Change-IsCounted v v' (cancel n o e refusal row (mine, uid, q) same) h =
      subst IsCounted (sym same) (
        advanced-IsCounted v n Status.cancelled (cancelled e)
          (subst (λ k. pos 1 ≤ℤ k) (sym q) (row-Counts v o n h row)) h)
