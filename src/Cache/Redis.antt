-- ===== src/Cache/Redis.antt =====
-- internal/cache/redis/order_cache_redis.go, over the keys of a Redis server, and
-- internal/cache/redis/rate_limiter.go, which is a stub in the source.
use Prim.Native.String
use go_ordersvc.Prelude.{
  ℕ, zero, suc, ⊤, ◌+◌, ◌*◌, ◌/◌, ltb, Bool, true, not, String, Option, none, some, List, [], ◌∷◌,
  str_eq, leb, if◌then◌else◌, ◌==◌,
}
use go_ordersvc.Json.{Json}
use go_ordersvc.Json.Orders.{marshal_order, unmarshal_order}
use go_ordersvc.Platform.{Platform}
use go_ordersvc.Effect.{Result, ok, err, Action, pure, fail, ◌>>=◌, ◌>>◌}
use go_ordersvc.Outside.{Server, execute}
use go_ordersvc.Domain.Errors.{Error, outside, wrapped}
use go_ordersvc.Domain.Order.{Order}
use go_ordersvc.Cache.Interface.{OrderCache, RateLimiter}

-- `"order:" + id`
unfoldable pub order_key : String → String
order_key id = String.◌++◌ "order:" id

-- `fmt.Errorf("<what> %s: %w", key, err)`
abbrev pub wrap_error : String → String → Error → Error
wrap_error what key e = wrapped (String.◌++◌ what key) e

-- The error of an action, wrapped.
abbrev pub wrap_result : {S A : Type 0} → String → String → Result A → S → Result A × S
wrap_result what key (ok a) s = (ok a, s)
wrap_result what key (err e) s = (err (wrap_error what key e), s)

abbrev pub wrap_errors : {S A : Type 0} → String → String → Action S A → Action S A
wrap_errors what key m s = let (r, s') = m s in wrap_result what key r s'

module _ (p : Platform) where
  open p use {Float64}

  -- A key's value and the time at which it expires, if it does.
  pub record Entry : Type 0 where
    pub value : Json Float64
    pub expires : Option ℕ

  abbrev pub Keys : Type 0
  Keys = List (String × Entry)

  -- SCAN chooses the keys that it returns and the next cursor, from the cursor and the pattern.
  abbrev pub Scan : Type 0
  Scan = ℕ → String → Keys → List String × ℕ

  abbrev pub RedisServer : Type 0
  RedisServer = Server Keys Scan

-- The time to live that go-redis sends for a duration: whole milliseconds, and at least one of them
-- for a duration above zero.
abbrev pub sent_ttl : ℕ → ℕ
sent_ttl ttl =
    if ttl == 0 then 0 else if ltb ttl 1_000_000 then 1_000_000 else ttl / 1_000_000 * 1_000_000

module _ {p : Platform} where
  open p use {uuid_string, Float64}

  abbrev pub is_current : ℕ → Entry p → Bool
  is_current now e = elim e.expires [ none ↦ true | some t ↦ not (leb t now) ]

  -- GET: the value of a key that has not expired; `none` is redis.Nil.
  abbrev pub lookup_key : String → ℕ → Keys p → Option (Json Float64)
  lookup_key k now [] = none
  lookup_key k now ((j, e) ∷ keys) =
      if str_eq j k then if is_current now e then some e.value else none else lookup_key k now keys

  -- DEL
  abbrev pub remove_key : String → Keys p → Keys p
  remove_key k [] = []
  remove_key k ((j, e) ∷ keys) =
      if str_eq j k then remove_key k keys else (j, e) ∷ remove_key k keys

  abbrev pub remove_keys : List String → Keys p → Keys p
  remove_keys [] keys = keys
  remove_keys (k ∷ ks) keys = remove_keys ks (remove_key k keys)

  -- SET with a time to live, where zero is none.
  abbrev pub set_key : String → Json Float64 → ℕ → ℕ → Keys p → Keys p
  set_key k v ttl now keys =
      (k, record { value = v; expires = if ttl == 0 then none else some (now + ttl) })
      ∷ remove_key k keys

  -- `json.Unmarshal` of the value that was found.
  abbrev pub decode_order : String → Option (Order p) → Action (RedisServer p) (Option (Order p))
  decode_order key none =
      fail (wrap_error "cache unmarshal " key (outside "json: cannot unmarshal"))
  decode_order key (some order) = pure (some order)

  abbrev pub decode_found :
      String → Option (Json Float64) → Action (RedisServer p) (Option (Order p))
  decode_found key none = pure none
  decode_found key (some v) = decode_order key (unmarshal_order p v)

  unfoldable pub get : String → Action (RedisServer p) (Option (Order p))
  unfolding order_key
  get id =
      wrap_errors "cache get " (order_key id)
        (execute λ c keys. ok (keys, lookup_key (order_key id) c.server_now keys))
      >>= decode_found (order_key id)

  -- `client.Set` of the order as it was written.
  abbrev pub set_marshalled : String → ℕ → Option (Json Float64) → Action (RedisServer p) ⊤
  set_marshalled key ttl none =
      fail (wrap_error "cache marshal " key (outside "json: unsupported value"))
  set_marshalled key ttl (some v) =
      wrap_errors "cache set " key
        (execute λ c keys. ok (set_key key v (sent_ttl ttl) c.server_now keys, tt))

  unfoldable pub set : Order p → ℕ → Action (RedisServer p) ⊤
  unfolding order_key
  set order ttl = set_marshalled (order_key (uuid_string order.id)) ttl (marshal_order p order)

  unfoldable pub delete : String → Action (RedisServer p) ⊤
  unfolding order_key
  delete id =
      wrap_errors "cache del " (order_key id)
        (execute λ c keys. ok (remove_key (order_key id) keys, tt))

  -- `if len(keys) > 0 { … }`
  abbrev pub delete_scanned : String → List String → Action (RedisServer p) ⊤
  delete_scanned pattern [] = pure tt
  delete_scanned pattern (k ∷ ks) =
      wrap_errors "cache del pattern " pattern
        (execute λ c keys. ok (remove_keys (k ∷ ks) keys, tt))

  -- The loop of `DeletePattern` from a cursor, for a number of rounds.
  unfoldable pub scan_from : ℕ → ℕ → String → Action (RedisServer p) (Option ⊤)
  scan_from zero cursor pattern = pure none
  scan_from (suc rounds) cursor pattern = do
    (found, next) ←
        wrap_errors "cache scan " pattern
          (execute λ c keys. ok (keys, c.chosen cursor pattern keys))
    delete_scanned pattern found
    elim (next == 0) [ true ↦ pure (some tt) | _ ↦ scan_from rounds next pattern ]

  unfoldable pub delete_pattern : ℕ → String → Action (RedisServer p) (Option ⊤)
  unfolding scan_from
  delete_pattern rounds pattern = scan_from rounds 0 pattern

-- `NewOrderCache`
unfoldable pub new_order_cache : (p : Platform) → OrderCache p (RedisServer p)
new_order_cache p = record {
  get = get;
  set = set;
  delete = delete;
  delete_pattern = delete_pattern;
}

-- `NewRateLimiter`: every call is allowed, and nothing is counted.
unfoldable pub new_rate_limiter : (p : Platform) → RateLimiter (RedisServer p)
new_rate_limiter p = record { allow = λ key limit window. pure true; reset = λ key. pure tt }
