-- ===== src/Examples/Interfaces.antt =====
-- The theorems of the two interfaces and of the events at concrete requests.
use go_ordersvc.Prelude.{
  ℕ, ◌+◌, ◌-◌, ◌*◌, ◌/◌, ◌≤◌, ◌<◌, ◌^◌, true, String, Option, List, none, some, [], ◌∷◌, ◌++◌, map,
  ◌≡◌, refl, arith, str_eq, if◌then◌else◌,
}
use go_ordersvc.Prelude.Int.{negsuc, pos, pos_part}
use go_ordersvc.Json.{Json, obj, str, field, end}
use go_ordersvc.Domain.Errors.{Error, outside}
use go_ordersvc.Messaging.Event.{OrderEvent, event_fields, order_created}
use go_ordersvc.Service.Interface.{OrderService}
use go_ordersvc.Service.Steps.{list_options}
use go_ordersvc.Server.{World, new_server}
use go_ordersvc.Http.Params.{
  query_limit, query_offset, query_filter, list_request, parse_int_param, atoi,
}
use go_ordersvc.Http.Handlers.{HttpRequest}
use go_ordersvc.Http.Paging.{list_request-options}
use go_ordersvc.Domain.Item
use go_ordersvc.Domain.Item.{OrderItem}
use go_ordersvc.Grpc.Numbers.{oversized_quantity}
use go_ordersvc.Grpc.Messages.{item_to_proto}
use go_ordersvc.Grpc.Registration.{GrpcHandler, register_order_server}
use go_ordersvc.Grpc.Watch.{Read, message, disconnected, returned, ReaderConfig, watch_orders}
use go_ordersvc.Grpc.Watching.{Client, obliging, client_after, watch_orders-messages}
use go_ordersvc.Examples.Concrete.{sample, item, row, world_of}

-- ?limit=20&offset=35
abbrev query : String → String
query name = if str_eq name "limit" then "20" else if str_eq name "offset" then "35" else ""

query_offset_small : pos_part (query_offset query) < 2 ^ 63 - 1
unfolding query_offset parse_int_param atoi
query_offset_small = omega arith

list_request-options_example :
    (o : ℕ) × (l : ℕ) × (query_offset query ≡ pos o)
    × (query_limit query ≡ pos l)
    × (0 < l)
    × (l ≤ 100)
    × (list_options (list_request query)
        ≡ record { limit = pos l; offset = pos (o / l * l); status = query_filter query "status" })
    × (o / l * l ≤ o)
    × (o < o / l * l + l)
list_request-options_example = list_request-options query query_offset_small

abbrev service : OrderService sample (World sample)
service = new_server sample ("kafka:9092" ∷ [])

abbrev world : World sample
world = world_of (row ∷ []) []

-- A request without items.
abbrev request : HttpRequest sample
request = record {
  id = "u1";
  query = query;
  body = some (obj (field "customer_id" (str "c1") (field "status" (str "confirmed") end)));
}

abbrev event : OrderEvent sample
event = record {
  event_type = order_created;
  order_id = "u1";
  customer_id = "c1";
  status = "pending";
  old_status = "";
  new_status = "";
  total = (pos 6, 1);
  version = pos 1;
  occurred_at = 5;
}

abbrev event_json : Json sample.Float64
event_json = obj (event_fields sample event)

abbrev watching_handler : GrpcHandler sample (World sample)
watching_handler =
    register_order_server service
      (record { brokers = "kafka:9092" ∷ []; topic = "orders"; group_id = "ordersvc" })

-- A message that is no JSON, and an event.
abbrev two_messages : List (Option (Json sample.Float64))
two_messages = none ∷ some event_json ∷ []

abbrev not_json : Option (Json sample.Float64) → Error
not_json value = outside "invalid character"

-- The topic has the two messages, and then the client goes.
abbrev topic_reads : ReaderConfig → List (Read sample.Float64)
topic_reads cfg =
    if str_eq cfg.topic "orders" then map message two_messages ++ disconnected ∷ [] else []

abbrev new_client : Client sample
new_client = record { sent = []; warnings = []; closes = 0 }

watch_orders-messages_example :
    watch_orders (obliging "u9" not_json topic_reads) watching_handler ("pending" ∷ []) new_client
    ≡ (
      returned,
      record (client_after sample not_json ("pending" ∷ []) two_messages new_client) { closes = 1 },
    )
watch_orders-messages_example =
    watch_orders-messages "u9" not_json topic_reads ("pending" ∷ []) watching_handler two_messages
      true new_client refl refl

-- 2 ^ 31 pens.
abbrev many : OrderItem sample
many = record item { quantity = pos (2 ^ 31) }

oversized_quantity_example :
    (Item.validate many ≡ Item.validate (record many { quantity = pos 1 }))
    × ((item_to_proto sample many).quantity ≡ negsuc (2 ^ 32 - 2 ^ 31 - 1))
oversized_quantity_example = oversized_quantity many (2 ^ 31) refl (omega arith) (omega arith)
