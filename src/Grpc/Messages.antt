-- ===== src/Grpc/Messages.antt =====
-- internal/handler/grpc/mapper.go, and the messages of api/proto/order/v1 that it fills. The
-- numbers of the messages are 32 bits wide.
use go_ordersvc.Prelude.{ℕ, String, List, map}
use go_ordersvc.Prelude.Int.{ℤ, int32}
use go_ordersvc.Platform.{Platform}
use go_ordersvc.Domain.Item.{OrderItem}
use go_ordersvc.Domain.Order.{Order}
use go_ordersvc.Messaging.Event.{OrderEvent}

module _ (p : Platform) where
  open p use {Float64, uuid_string}

  pub record ProtoItem : Type 0 where
    pub id : String
    pub product_id : String
    pub name : String
    pub quantity : ℤ
    pub price : Float64
    pub subtotal : Float64

  pub record ProtoOrder : Type 0 where
    pub id : String
    pub customer_id : String
    pub items : List ProtoItem
    pub status : String
    pub total : Float64
    pub version : ℤ
    pub created_at : ℕ
    pub updated_at : ℕ

  pub record ProtoEvent : Type 0 where
    pub event_type : String
    pub order_id : String
    pub customer_id : String
    pub status : String
    pub old_status : String
    pub new_status : String
    pub total : Float64
    pub version : ℤ
    pub occurred_at : ℕ

  pub record ListOrdersResponse : Type 0 where
    pub orders : List ProtoOrder
    pub page : ℤ
    pub page_size : ℤ
    pub total_count : ℤ
    pub total_pages : ℤ

  unfoldable pub item_to_proto : OrderItem p → ProtoItem
  item_to_proto item = record {
    id = uuid_string item.id;
    product_id = item.product_id;
    name = item.name;
    quantity = int32 item.quantity;
    price = item.price;
    subtotal = item.subtotal;
  }

  unfoldable pub order_to_proto : Order p → ProtoOrder
  unfolding item_to_proto
  order_to_proto o = record {
    id = uuid_string o.id;
    customer_id = o.customer_id;
    items = map item_to_proto o.items;
    status = o.status;
    total = o.total;
    version = int32 o.version;
    created_at = o.created_at;
    updated_at = o.updated_at;
  }

  unfoldable pub event_to_proto : OrderEvent p → ProtoEvent
  event_to_proto evt = record {
    event_type = evt.event_type;
    order_id = evt.order_id;
    customer_id = evt.customer_id;
    status = evt.status;
    old_status = evt.old_status;
    new_status = evt.new_status;
    total = evt.total;
    version = int32 evt.version;
    occurred_at = evt.occurred_at;
  }
