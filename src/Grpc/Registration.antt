-- ===== src/Grpc/Registration.antt =====
-- internal/handler/grpc/order_handler.go: what is registered with the gRPC server.
use go_ordersvc.Platform.{Platform}
use go_ordersvc.Service.Interface.{OrderService}
use go_ordersvc.Config.{KafkaConfig}

module _ (p : Platform) (S : Type 0) where
  -- `orderHandler`
  pub record GrpcHandler : Type 0 where
    pub svc : OrderService p S
    pub kafka_cfg : KafkaConfig

abbrev pub register_order_server :
    {p : Platform} {S : Type 0} → OrderService p S → KafkaConfig → GrpcHandler p S
register_order_server svc kafka_cfg = record { svc = svc; kafka_cfg = kafka_cfg }
