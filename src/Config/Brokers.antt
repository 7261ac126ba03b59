-- ===== src/Config/Brokers.antt =====
-- What the configuration of Kafka's brokers means for the server.
use go_ordersvc.Prelude.{String, false, ◌≡◌, refl, inl, inr, Bool-cases, str_eq}
use go_ordersvc.Platform.{Platform}
use go_ordersvc.Server.{publisher_for, kafka_publisher}
use go_ordersvc.Config.{get_env, load_from_env}

-- A default that is not empty is never replaced by the empty text.
get_env-given :
    (env : String → String) (key default_value : String)
    → str_eq default_value "" ≡ false
    → str_eq (get_env env key default_value) "" ≡ false
unfolding get_env
get_env-given env key default_value given = elim (Bool-cases (str_eq (env key) "")) [
  | inl absent ↦ rw absent given
  | inr present ↦ rw present present
]

-- With the configuration that any environment gives, the server publishes to Kafka: the publisher that
-- does nothing is never chosen, also where KAFKA_BROKERS is set to the empty text.
pub publisher_for-load_from_env :
    (p : Platform) (env : String → String)
    → publisher_for p (load_from_env env).kafka.brokers ≡ kafka_publisher p
unfolding load_from_env publisher_for
publisher_for-load_from_env p env =
    rw (get_env-given env "KAFKA_BROKERS" "localhost:9092" refl) refl
