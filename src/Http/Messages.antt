-- ===== src/Http/Messages.antt =====
-- internal/handler/http/request.go, response.go and mapper.go, with the JSON of the requests and
-- the responses as their tags have it.
use go_ordersvc.Prelude.{ℕ, String, Option, none, some, List, [], ◌∷◌, map, if◌then◌else◌, ◌&&◌}
use go_ordersvc.Prelude.Int.{ℤ}
use go_ordersvc.Json.{
  Json, null, int, float, str, time, arr, obj, Elems, nil, cons, Fields, end, field, member,
  as_string, as_int, as_float, ◌>>=◌,
}
use go_ordersvc.Platform.{Platform}
use go_ordersvc.Domain.Item
use go_ordersvc.Domain.Order.{Order}
use go_ordersvc.Messaging.Event.{omit_empty}

module _ (p : Platform) where
  open p use {Float64, of_int, float_mul, uuid_nil, uuid_string, is_finite}

  -- `OrderItem` of request.go
  pub record OrderItem : Type 0 where
    pub product_id : String
    pub name : String
    pub quantity : ℤ
    pub price : Float64

  pub record CreateOrderRequest : Type 0 where
    pub customer_id : String
    pub items : List OrderItem

  pub record UpdateOrderRequest : Type 0 where
    pub items : List OrderItem

  pub record OrderItemResponse : Type 0 where
    pub id : String
    pub product_id : String
    pub name : String
    pub quantity : ℤ
    pub price : Float64
    pub subtotal : Float64

  pub record OrderResponse : Type 0 where
    pub id : String
    pub customer_id : String
    pub items : List OrderItemResponse
    pub status : String
    pub total : Float64
    pub version : ℤ
    pub created_at : ℕ
    pub updated_at : ℕ

  pub record ListOrdersResponse : Type 0 where
    pub orders : List OrderResponse
    pub total : ℤ
    pub limit : ℤ
    pub offset : ℤ

  abbrev pub map_item_to_response : Item.OrderItem p → OrderItemResponse
  map_item_to_response item = record {
    id = uuid_string item.id;
    product_id = item.product_id;
    name = item.name;
    quantity = item.quantity;
    price = item.price;
    subtotal = item.subtotal;
  }

  abbrev pub map_order_to_response : Order p → OrderResponse
  map_order_to_response order = record {
    id = uuid_string order.id;
    customer_id = order.customer_id;
    items = map map_item_to_response order.items;
    status = order.status;
    total = order.total;
    version = order.version;
    created_at = order.created_at;
    updated_at = order.updated_at;
  }

  abbrev pub map_orders_to_response : List (Order p) → List OrderResponse
  map_orders_to_response orders = map map_order_to_response orders

  -- The id is left at its zero value.
  abbrev pub map_request_item : OrderItem → Item.OrderItem p
  map_request_item item = record {
    id = uuid_nil;
    product_id = item.product_id;
    name = item.name;
    quantity = item.quantity;
    price = item.price;
    subtotal = float_mul (of_int item.quantity) item.price;
  }

  abbrev pub map_request_to_order_items : List OrderItem → List (Item.OrderItem p)
  map_request_to_order_items items = map map_request_item items

  -- Reading a request: `null` leaves the zero value, a value of another type is an error.
  abbrev item_of_fields : Fields Float64 → Option OrderItem
  item_of_fields fs = do
    product_id ← as_string (member "product_id" fs)
    name ← as_string (member "name" fs)
    quantity ← as_int (member "quantity" fs)
    price ← as_float of_int (member "price" fs)
    some (record { product_id = product_id; name = name; quantity = quantity; price = price })

  abbrev as_item : Json Float64 → Option OrderItem
  as_item null = item_of_fields end
  as_item (obj fs) = item_of_fields fs
  as_item _ = none

  abbrev item_list : Elems Float64 → Option (List OrderItem)
  item_list nil = some []
  item_list (cons v vs) = do some ((← as_item v) ∷ (← item_list vs))

  abbrev pub as_items : Json Float64 → Option (List OrderItem)
  as_items null = some []
  as_items (arr vs) = item_list vs
  as_items _ = none

  -- The fields of a request's body, where a body is there and is an object.
  abbrev as_fields : Json Float64 → Option (Fields Float64)
  as_fields null = some end
  as_fields (obj fs) = some fs
  as_fields _ = none

  abbrev pub decode_create : Option (Json Float64) → Option CreateOrderRequest
  decode_create body = do
    v ← body
    fs ← as_fields v
    customer_id ← as_string (member "customer_id" fs)
    items ← as_items (member "items" fs)
    some (record { customer_id = customer_id; items = items })

  abbrev pub decode_update : Option (Json Float64) → Option UpdateOrderRequest
  decode_update body = do
    v ← body
    fs ← as_fields v
    items ← as_items (member "items" fs)
    some (record { items = items })

  -- `UpdateStatusRequest`, whose one field is the status.
  abbrev pub decode_status : Option (Json Float64) → Option String
  decode_status body = do v ← body; fs ← as_fields v; as_string (member "status" fs)

  -- Writing a response; `none` where encoding/json refuses a number.
  abbrev encode_items : List OrderItemResponse → Option (Elems Float64)
  encode_items [] = some nil
  encode_items (i ∷ items) =
      let rest = encode_items items in
      let fields : Fields Float64 = field "id" (str i.id) (
        field "product_id" (str i.product_id) (
          field "name" (str i.name) (
            field "quantity" (int i.quantity)
              (field "price" (float i.price) (field "subtotal" (float i.subtotal) end))))) in
      if is_finite i.price && is_finite i.subtotal
      then (do some (cons (obj fields) (← rest)))
      else none

  abbrev pub encode_order : OrderResponse → Option (Json Float64)
  encode_order o = do
    items ← encode_items o.items
    let fields : Fields Float64 = field "id" (str o.id) (
        field "customer_id" (str o.customer_id) (
          field "items" (arr items) (
            field "status" (str o.status) (
              field "total" (float o.total) (
                field "version" (int o.version) (
                  field "created_at" (time o.created_at)
                    (field "updated_at" (time o.updated_at) end)))))))
    if is_finite o.total then some (obj fields) else none

  abbrev encode_list : List OrderResponse → Option (Elems Float64)
  encode_list [] = some nil
  encode_list (o ∷ orders) = do some (cons (← encode_order o) (← encode_list orders))

  abbrev pub encode_orders : ListOrdersResponse → Option (Json Float64)
  encode_orders r = do
    orders ← encode_list r.orders
    some (
        obj (
          field "orders" (arr orders) (
            field "total" (int r.total)
              (field "limit" (int r.limit) (field "offset" (int r.offset) end)))))

  -- `ErrorResponse`
  abbrev pub encode_error : String → String → Json Float64
  encode_error error code = obj (field "error" (str error) (omit_empty p "code" code end))
