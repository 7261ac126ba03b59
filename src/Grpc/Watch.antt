-- ===== src/Grpc/Watch.antt =====
-- internal/handler/grpc/order_handler.go: WatchOrders.
use Prim.Native.String
use go_ordersvc.Prelude.{
  ⊤, Bool, true, false, not, String, Option, none, some, List, [], ◌∷◌, str_eq, if◌then◌else◌,
}
use go_ordersvc.Json.{Json, ◌>>=◌}
use go_ordersvc.Platform.{Platform}
use go_ordersvc.Effect.{Result, ok, err, Action}
use go_ordersvc.Domain.Errors.{Error, error_text}
use go_ordersvc.Domain.Status.{contains}
use go_ordersvc.Config.{KafkaConfig}
use go_ordersvc.Messaging.Event.{OrderEvent, unmarshal_event}
use go_ordersvc.Grpc.Messages.{ProtoEvent, event_to_proto}
use go_ordersvc.Grpc.Handlers.{Code, internal, unavailable}
use go_ordersvc.Grpc.Registration.{GrpcHandler}

-- What `ReadMessage` returns: a message, with the JSON value of its bytes, if they are one; an error
-- after the client has gone; or another error.
pub data Read (F : Type 0) : Type 0 where
  message : Option (Json F) → Read F
  disconnected : Read F
  failed : Error → Read F

-- `WatchOrders` still waits, or it returned: nil, a status, or the error of `Send`.
pub data Watch : Type 0 where
  waiting returned : Watch
  returned_status : Code → String → Watch
  returned_error : Error → Watch

-- The fields of kafka.ReaderConfig that are set.
pub record ReaderConfig : Type 0 where
  pub brokers : List String
  pub topic : String
  pub group_id : String

-- The group of a client: the name of the service's group and eight digits of a new UUID.
abbrev pub reader_config : KafkaConfig → String → ReaderConfig
reader_config cfg id = record {
  brokers = cfg.brokers;
  topic = cfg.topic;
  group_id = String.◌++◌ cfg.group_id (String.◌++◌ "-watch-" (String.slice id 0 8));
}

-- `len(brokers) == 0 || brokers[0] == ""`, denied.
abbrev pub has_broker : List String → Bool
has_broker [] = false
has_broker (broker ∷ brokers) = not (str_eq broker "")

module _ {p : Platform} where
  open p use {Float64}

  -- `len(statusFilter) > 0` and the test of the set.
  abbrev pub passes : List String → OrderEvent p → Bool
  passes [] evt = true
  passes (s ∷ statuses) evt = contains evt.status (s ∷ statuses)

  -- `json.Unmarshal(msg.Value, &evt)`
  unfoldable pub decode : Option (Json Float64) → Option (OrderEvent p)
  decode value = do v ← value; unmarshal_event p v

  unfoldable pub forwarded : List String → OrderEvent p → Option (ProtoEvent p)
  forwarded statuses evt = if passes statuses evt then some (event_to_proto p evt) else none

module _ (p : Platform) (S : Type 0) where
  -- The reader of kafka-go: what it reads from now on, and `Close`.
  pub record Reader : Type 0 where
    pub reads : List (Read p.Float64)
    pub close : Action S ⊤

  -- What is called outside the repository: `uuid.New`, `kafka.NewReader`, the error of
  -- `json.Unmarshal` where it fails, `stream.Send`, and `slog.Warn` with its message and the error.
  pub record WatchRuntime : Type 0 where
    pub new_uuid : S → p.UUID × S
    pub new_reader : ReaderConfig → Reader
    pub unmarshal_error : Option (Json p.Float64) → Error
    pub send : ProtoEvent p → Action S ⊤
    pub warn : String → String → S → S

module _ {p : Platform} {S : Type 0} (rt : WatchRuntime p S) where
  -- The loop, over what the reads return.
  unfoldable pub watch_from : List String → List (Read p.Float64) → S → Watch × S
  watch_from statuses [] s = (waiting, s)
  watch_from statuses (disconnected ∷ reads) s = (returned, s)
  watch_from statuses (failed e ∷ reads) s =
      (returned_status internal (String.◌++◌ "failed to read Kafka message: " (error_text e)), s)
  watch_from statuses (message value ∷ reads) s = elim (decode {p = p} value) [
    | none ↦
        watch_from statuses reads
          (rt.warn "failed to unmarshal event" (error_text (rt.unmarshal_error value)) s)
    | some evt ↦ elim (forwarded {p = p} statuses evt) [
      | none ↦ watch_from statuses reads s
      | some sent ↦
          let (r, s') = rt.send sent s in
          elim r [ ok _ ↦ watch_from statuses reads s' | err e ↦ (returned_error e, s') ]
    ]
  ]

  abbrev pub close_logged : Result ⊤ × S → S
  close_logged (ok _, s) = s
  close_logged (err e, s) = rt.warn "failed to close Kafka reader" (error_text e) s

  -- The deferred `reader.Close()`, once the loop has returned.
  abbrev pub close_after : Action S ⊤ → Watch × S → Watch × S
  close_after close (waiting, s) = (waiting, s)
  close_after close (returned, s) = (returned, close_logged (close s))
  close_after close (returned_status code text, s) =
      (returned_status code text, close_logged (close s))
  close_after close (returned_error e, s) = (returned_error e, close_logged (close s))

  abbrev pub watch_with : Reader p S → List String → S → Watch × S
  watch_with reader statuses s = close_after reader.close (watch_from statuses reader.reads s)

  -- The handler's service is not called.
  unfoldable pub watch_orders : {T : Type 0} → GrpcHandler p T → List String → S → Watch × S
  unfolding watch_from
  watch_orders h statuses s = elim (has_broker h.kafka_cfg.brokers) [
    | false ↦ (returned_status unavailable "Kafka not configured", s)
    | true ↦
        let (id, s') = rt.new_uuid s in
        watch_with (rt.new_reader (reader_config h.kafka_cfg (p.uuid_string id))) statuses s'
  ]
