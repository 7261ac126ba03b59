-- ===== src/Messaging/Kafka.antt =====
-- internal/messaging/kafka/publisher.go over the topic that it writes to, and
-- internal/messaging/noop/publisher.go.
use go_ordersvc.Prelude.{ℕ, ⊤, String, none, some, List, [], ◌∷◌, ◌++◌}
use go_ordersvc.Json.{Json}
use go_ordersvc.Platform.{Platform}
use go_ordersvc.Effect.{ok, Action, pure, fail}
use go_ordersvc.Outside.{Server, condition, execute}
use go_ordersvc.Domain.Errors.{outside}
use go_ordersvc.Domain.Status.{OrderStatus}
use go_ordersvc.Domain.Order.{Order}
use go_ordersvc.Messaging.Event.{
  OrderEvent, order_created, order_updated, order_status_changed, marshal_event,
}
use go_ordersvc.Service.Interface.{EventPublisher}

module _ (p : Platform) where
  open p use {Float64, uuid_string}

  -- `kafka.Message`, in the order in which the topic holds them.
  pub record Message : Type 0 where
    pub key : String
    pub value : Json Float64

  abbrev pub Topic : Type 0
  Topic = Server (List Message) ⊤

module _ {p : Platform} where
  open p use {Float64, uuid_string}

  unfoldable pub publish : String → OrderEvent p → Action (Topic p) ⊤
  publish key evt = elim (marshal_event p evt) [
    | none ↦ fail (outside "json: unsupported value")
    | some value ↦
        let message : Message p = record { key = key; value = value } in
        execute λ c messages. ok (messages ++ message ∷ [], tt)
  ]

  -- The event of an order, at the time of the call.
  abbrev pub event_of : String → Order p → String → String → ℕ → OrderEvent p
  event_of event_type order old_status new_status now = record {
    event_type = event_type;
    order_id = uuid_string order.id;
    customer_id = order.customer_id;
    status = order.status;
    old_status = old_status;
    new_status = new_status;
    total = order.total;
    version = order.version;
    occurred_at = now;
  }

  unfoldable pub publish_order_created : Order p → Action (Topic p) ⊤
  unfolding publish
  publish_order_created order t =
      publish (uuid_string order.id) (event_of order_created order "" "" (condition t).local_now) t

  unfoldable pub publish_order_updated : Order p → Action (Topic p) ⊤
  unfolding publish
  publish_order_updated order t =
      publish (uuid_string order.id) (event_of order_updated order "" "" (condition t).local_now) t

  unfoldable pub publish_order_status_changed :
      Order p → OrderStatus → OrderStatus → Action (Topic p) ⊤
  unfolding publish
  publish_order_status_changed order old_status new_status t =
      publish (uuid_string order.id)
        (event_of order_status_changed order old_status new_status (condition t).local_now) t

-- `Close`, over the `Close` of the writer of kafka-go.
abbrev pub close : {S : Type 0} → Action S ⊤ → Action S ⊤
close close_writer = close_writer

-- `NewPublisher`
unfoldable pub new_publisher : (p : Platform) → EventPublisher p (Topic p)
new_publisher p = record {
  publish_order_created = publish_order_created;
  publish_order_updated = publish_order_updated;
  publish_order_status_changed = publish_order_status_changed;
}

-- `noop.Publisher`
unfoldable pub noop_publisher : (p : Platform) (S : Type 0) → EventPublisher p S
noop_publisher p S = record {
  publish_order_created = λ order. pure tt;
  publish_order_updated = λ order. pure tt;
  publish_order_status_changed = λ order old_status new_status. pure tt;
}
