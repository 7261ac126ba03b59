-- ===== src/Messaging/Event.antt =====
-- internal/messaging/event.go, with the JSON of an event.
use go_ordersvc.Prelude.{
  ℕ, String, Option, none, some, str_eq, str_eq_iff, if◌then◌else◌, true, ◌&&◌, ◌≡◌, arith,
  Bool-cases, inl, inr,
}
use go_ordersvc.Prelude.Int.{ℤ, is_int64}
use go_ordersvc.Json.{
  Json, null, int, float, str, time, obj, Fields, end, field, member, as_string, as_int, as_float,
  as_time, ◌>>=◌,
}
use go_ordersvc.Platform.{Platform}

abbrev pub order_created : String
order_created = "order.created"

abbrev pub order_updated : String
order_updated = "order.updated"

abbrev pub order_status_changed : String
order_status_changed = "order.status_changed"

module _ (p : Platform) where
  open p use {Float64, of_int, is_finite}

  pub record OrderEvent : Type 0 where
    pub event_type : String
    pub order_id : String
    pub customer_id : String
    pub status : String
    pub old_status : String
    pub new_status : String
    pub total : Float64
    pub version : ℤ
    pub occurred_at : ℕ

  -- `omitempty`
  abbrev pub omit_empty : String → String → Fields Float64 → Fields Float64
  omit_empty k s fs = if str_eq s "" then fs else field k (str s) fs

  unfoldable pub event_fields : OrderEvent → Fields Float64
  event_fields e = field "event_type" (str e.event_type) (
      field "order_id" (str e.order_id) (
        field "customer_id" (str e.customer_id) (
          field "status" (str e.status) (
            omit_empty "old_status" e.old_status (
              omit_empty "new_status" e.new_status (
                field "total" (float e.total) (
                  field "version" (int e.version)
                    (field "occurred_at" (time e.occurred_at) end))))))))

  -- A version that is no 64-bit number is no int of Go, and has no JSON here.
  unfoldable pub marshal_event : OrderEvent → Option (Json Float64)
  unfolding event_fields
  marshal_event e =
      if is_int64 e.version && is_finite e.total then some (obj (event_fields e)) else none

  abbrev pub event_of_fields : Fields Float64 → Option OrderEvent
  event_of_fields fs = do
    event_type ← as_string (member "event_type" fs)
    order_id ← as_string (member "order_id" fs)
    customer_id ← as_string (member "customer_id" fs)
    status ← as_string (member "status" fs)
    old_status ← as_string (member "old_status" fs)
    new_status ← as_string (member "new_status" fs)
    total ← as_float of_int (member "total" fs)
    version ← as_int (member "version" fs)
    occurred_at ← as_time (member "occurred_at" fs)
    some (record {
      event_type = event_type;
      order_id = order_id;
      customer_id = customer_id;
      status = status;
      old_status = old_status;
      new_status = new_status;
      total = total;
      version = version;
      occurred_at = occurred_at;
    })

  -- `json.Unmarshal(msg.Value, &evt)`
  unfoldable pub unmarshal_event : Json Float64 → Option OrderEvent
  unmarshal_event null = event_of_fields end
  unmarshal_event (obj fs) = event_of_fields fs
  unmarshal_event _ = none

  event_of_fields-event_fields :
      (e : OrderEvent) → is_int64 e.version ≡ true → event_of_fields (event_fields e) ≡ some e
  unfolding event_fields
  event_of_fields-event_fields e sized =
      ground (arith, str_eq_iff e.old_status "", str_eq_iff e.new_status "")

  -- A message that a publisher writes is read by a watcher as the event that it was made from; the
  -- statuses that `omitempty` leaves out come back as the empty text.
  pub unmarshal-marshal_event :
      (e : OrderEvent) (v : Json Float64) → marshal_event e ≡ some v → unmarshal_event v ≡ some e
  unfolding marshal_event unmarshal_event
  unmarshal-marshal_event e v h = elim (Bool-cases (is_int64 e.version && is_finite e.total)) [
    | inl finite ↦
        let written : v ≡ obj (event_fields e) = ground arith in
        let sized : is_int64 e.version ≡ true = ground arith in
        rw written (event_of_fields-event_fields e sized)
    | inr other ↦ ground arith
  ]
