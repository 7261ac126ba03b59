-- ===== src/Grpc/Watching.antt =====
-- What `WatchOrders` does for a client whose stream takes everything.
use mathlib.Core.List.{append-nil, append_assoc}
use go_ordersvc.Prelude.{
  ℕ, suc, Bool, Bool-cases, true, String, Option, none, some, List, [], ◌∷◌, ◌++◌, map, ◌≡◌, refl,
  ◌∙◌, Option-cases, inl, inr, if◌then◌else◌,
}
use go_ordersvc.Json.{Json}
use go_ordersvc.Platform.{Platform}
use go_ordersvc.Effect.{ok}
use go_ordersvc.Domain.Errors.{Error, error_text}
use go_ordersvc.Grpc.Messages.{ProtoEvent}
use go_ordersvc.Grpc.Registration.{GrpcHandler}
use go_ordersvc.Grpc.Watch.{
  Read, message, disconnected, waiting, returned, WatchRuntime, ReaderConfig, decode, forwarded,
  has_broker, reader_config, watch_from, watch_orders,
}

-- What has become of a client: the events that it was sent, the warnings that were logged, and how
-- often its reader was closed.
pub record Client (p : Platform) : Type 0 where
  pub sent : List (ProtoEvent p)
  pub warnings : List String
  pub closes : ℕ

module _ {p : Platform} (id : p.UUID) (unmarshal_error : Option (Json p.Float64) → Error)
    (reads : ReaderConfig → List (Read p.Float64)) where
  -- A stream that takes every event and a reader that closes.
  abbrev pub obliging : WatchRuntime p (Client p)
  obliging = record {
    new_uuid = λ c. (id, c);
    new_reader = λ cfg. record {
      reads = reads cfg;
      close = λ c. (ok tt, record c { closes = suc c.closes });
    };
    unmarshal_error = unmarshal_error;
    send = λ evt c. (ok tt, record c { sent = c.sent ++ evt ∷ [] });
    warn = λ text e c. record c { warnings = c.warnings ++ e ∷ [] };
  }

module _ {p : Platform} (statuses : List String) where
  open p use {Float64}

  -- The event of a message that can be decoded and passes the filter.
  abbrev pub watched : Option (Json Float64) → List (ProtoEvent p)
  watched value = elim (decode {p = p} value) [
    | none ↦ []
    | some evt ↦ elim (forwarded {p = p} statuses evt) [ none ↦ [] | some sent ↦ sent ∷ [] ]
  ]

  abbrev pub watched_all : List (Option (Json Float64)) → List (ProtoEvent p)
  watched_all [] = []
  watched_all (value ∷ values) = watched value ++ watched_all values

module _ (p : Platform) (unmarshal_error : Option (Json p.Float64) → Error) where
  -- The error of a message that cannot be decoded.
  abbrev pub undecoded : Option (Json p.Float64) → List String
  undecoded value = elim (decode {p = p} value) [
    | none ↦ error_text (unmarshal_error value) ∷ []
    | some evt ↦ []
  ]

  abbrev pub undecoded_all : List (Option (Json p.Float64)) → List String
  undecoded_all [] = []
  undecoded_all (value ∷ values) = undecoded value ++ undecoded_all values

  -- A client after some messages.
  abbrev pub client_after : List String → List (Option (Json p.Float64)) → Client p → Client p
  client_after statuses values c = record c {
    sent = c.sent ++ watched_all {p = p} statuses values;
    warnings = c.warnings ++ undecoded_all values;
  }

module _ {p : Platform} (id : p.UUID) (unmarshal_error : Option (Json p.Float64) → Error)
    (reads : ReaderConfig → List (Read p.Float64)) (statuses : List String) where
  -- A message is passed on, or left out, or warned about, and the loop goes on.
  watch_from-message :
      (value : Option (Json p.Float64)) (more : List (Read p.Float64)) (c : Client p)
      → watch_from (obliging id unmarshal_error reads) statuses (message value ∷ more) c
        ≡ watch_from (obliging id unmarshal_error reads) statuses more (record c {
          sent = c.sent ++ watched {p = p} statuses value;
          warnings = c.warnings ++ undecoded p unmarshal_error value;
        })
  unfolding watch_from
  watch_from-message value more c = elim (Option-cases (decode {p = p} value)) [
    | inl fails ↦ rw (fails, watch_from, watched, undecoded, append-nil c.sent) refl
    | inr (evt, decoded) ↦ elim (Option-cases (forwarded {p = p} statuses evt)) [
      | inl skipped ↦
          rw
            (
              decoded,
              skipped,
              watch_from,
              watched,
              undecoded,
              append-nil c.sent,
              append-nil c.warnings,
            )
            refl
      | inr (sent, passed) ↦
          rw (decoded, passed, watch_from, watched, undecoded, append-nil c.warnings) refl
    ]
  ]

  watch_from-messages :
      (values : List (Option (Json p.Float64))) (more : List (Read p.Float64)) (c : Client p)
      → watch_from (obliging id unmarshal_error reads) statuses (map message values ++ more) c
        ≡ watch_from
            (obliging id unmarshal_error reads)
            statuses
            more
            (client_after p unmarshal_error statuses values c)
  watch_from-messages [] more c = rw (append-nil c.sent, append-nil c.warnings) refl
  watch_from-messages (value ∷ values) more c =
      watch_from-message value (map message values ++ more) c
      ∙ watch_from-messages values more (record c {
        sent = c.sent ++ watched {p = p} statuses value;
        warnings = c.warnings ++ undecoded p unmarshal_error value;
      })
      ∙ rw
          (
            append_assoc c.sent (watched {p = p} statuses value)
                (watched_all {p = p} statuses values),
            append_assoc c.warnings (undecoded p unmarshal_error value)
                (undecoded_all p unmarshal_error values),
          )
          refl

  -- With a broker configured and a stream that takes everything, WatchOrders sends exactly the events
  -- of the messages that can be decoded and pass the filter, in the order of the topic, and warns
  -- about each of those that cannot be decoded. While the client is there it goes on waiting, with its
  -- reader open; once the client is gone, it returns nil, and has closed its reader once.
  pub watch_orders-messages :
      {T : Type 0} (h : GrpcHandler p T) (values : List (Option (Json p.Float64))) (gone : Bool)
      (c : Client p)
      → has_broker h.kafka_cfg.brokers ≡ true
      → reads (reader_config h.kafka_cfg (p.uuid_string id))
        ≡ map message values ++ (if gone then disconnected ∷ [] else [])
      → let after = client_after p unmarshal_error statuses values c in
        watch_orders (obliging id unmarshal_error reads) h statuses c ≡ (
          if gone then (returned, record after { closes = suc after.closes }) else (waiting, after))
  unfolding watch_orders watch_from
  watch_orders-messages h values gone c configured read =
      rw
        (
          configured,
          watch_orders,
          read,
          watch_from-messages values (if gone then disconnected ∷ [] else []) c,
        )
        (elim (Bool-cases gone) [ inl t ↦ rw t refl | inr f ↦ rw f refl ])
