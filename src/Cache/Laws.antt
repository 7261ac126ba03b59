-- ===== src/Cache/Laws.antt =====
-- What the Redis cache gives back of what was put into it, by its calls that meet no fault.
use go_ordersvc.Prelude.{
  ℕ, ⊤, ◌+◌, ◌≤◌, ◌<◌, suc, String, Option, none, some, [], ◌∷◌, ◌≡◌, refl, ◌≢◌, ◌∙◌, ap, arith,
  str_eq_iff, str_eq_refl,
}
use go_ordersvc.Json.{Json}
use go_ordersvc.Json.Orders.{marshal_order, unmarshal_order, unmarshal-marshal_order}
use go_ordersvc.Platform.{Platform}
use go_ordersvc.Effect.{Result, ok, continue}
use go_ordersvc.Outside.{Condition, clear, condition, execute}
use go_ordersvc.Outside.Keeps.{execute-clear}
use go_ordersvc.Domain.Order.{Order}
use go_ordersvc.Cache.Redis.{
  order_key, Keys, Scan, RedisServer, lookup_key, remove_key, set_key, sent_ttl, wrap_result,
  wrap_errors, decode_order, decode_found, set_marshalled, get, set, delete,
}

sent_ttl-positive : (ttl : ℕ) → 0 < ttl → 0 < sent_ttl ttl
sent_ttl-positive ttl h = ground (arith, h)

module _ {p : Platform} where
  open p use {Float64, uuid_string}

  pub lookup-remove :
      (k : String) (now : ℕ) (keys : Keys p) → lookup_key k now (remove_key k keys) ≡ none
  lookup-remove k now [] = refl
  lookup-remove k now ((j, e) ∷ keys) = ground (arith, lookup-remove k now keys)

  pub lookup-remove_other :
      (k j : String) (now : ℕ) (keys : Keys p)
      → j ≢ k
      → lookup_key k now (remove_key j keys) ≡ lookup_key k now keys
  lookup-remove_other k j now [] other = refl
  lookup-remove_other k j now ((i, e) ∷ keys) other =
      ground (arith, str_eq_iff i j, str_eq_iff i k, lookup-remove_other k j now keys other)

  -- A key that was set is there until its time to live is over.
  lookup-set :
      (k : String) (v : Json Float64) (ttl now later : ℕ) (keys : Keys p)
      → later < now + ttl
      → lookup_key k later (set_key k v ttl now keys) ≡ some v
  lookup-set k v ttl now later keys fresh = ground (arith, str_eq_refl k)

  lookup-set_expired :
      (k : String) (v : Json Float64) (ttl now later : ℕ) (keys : Keys p)
      → 0 < ttl
      → now + ttl ≤ later
      → lookup_key k later (set_key k v ttl now keys) ≡ none
  lookup-set_expired k v ttl now later keys some_time over = ground (arith, str_eq_refl k)

  -- The server after a call that left it with some keys.
  abbrev pub after : RedisServer p → Keys p → RedisServer p
  after c keys = record c { content = keys; executed = suc c.executed }

  pub call-clear :
      {A : Type 0} (what key : String) (call : Condition (Scan p) → Keys p → Result (Keys p × A))
      (c : RedisServer p) (keys : Keys p) (a : A)
      → (condition c).fault ≡ clear
      → call (condition c) c.content ≡ ok (keys, a)
      → wrap_errors what key (execute call) c ≡ (ok a, after c keys)
  call-clear what key call c keys a calm ran =
      ap (λ (x : Result _ × RedisServer p). wrap_result what key x.0 x.1)
        (execute-clear call c keys a calm ran)

  set-clear :
      (o : Order p) (v : Json Float64) (ttl : ℕ) (c : RedisServer p)
      → marshal_order p o ≡ some v
      → (condition c).fault ≡ clear
      → set o ttl c ≡ (
        ok tt,
        after c (
            set_key
              (order_key (uuid_string o.id))
              v
              (sent_ttl ttl)
              (condition c).server_now
              c.content),
      )
  unfolding set order_key
  set-clear o v ttl c written calm =
      ap (λ m. set_marshalled (order_key (uuid_string o.id)) ttl m c) written
      ∙ call-clear "cache set " (order_key (uuid_string o.id)) _ c _ tt calm refl

  delete-clear :
      (id : String) (c : RedisServer p)
      → (condition c).fault ≡ clear
      → delete id c ≡ (ok tt, after c (remove_key (order_key id) c.content))
  unfolding delete order_key
  delete-clear id c calm = call-clear "cache del " (order_key id) _ c _ tt calm refl

  get-clear :
      (id : String) (found : Option (Json Float64)) (c : RedisServer p)
      → (condition c).fault ≡ clear
      → lookup_key (order_key id) (condition c).server_now c.content ≡ found
      → get id c ≡ decode_found (order_key id) found (after c c.content)
  unfolding get order_key
  get-clear id found c calm there =
      ap
        (λ (x : Result (Option (Json Float64)) × RedisServer p).
          continue (decode_found (order_key id)) x.0 x.1)
        (call-clear "cache get " (order_key id) _ c c.content found calm
          (ap (λ k. ok (c.content, k)) there))

  found-decoded :
      (key : String) (o : Order p) (v : Json Float64) (c : RedisServer p)
      → unmarshal_order p v ≡ some o
      → (decode_found key (some v) c).0 ≡ ok (some o)
  found-decoded key o v c read = ap (λ m. (decode_order key m c).0) read

  -- The circumstances of the call after the next.
  abbrev pub condition_after : RedisServer p → Condition (Scan p)
  condition_after c = c.upcoming (suc c.executed)

  -- Where neither call meets a fault, an order that encoding/json can write is found under its id with
  -- all its values as long as the time to live lasts that is sent for it, in whole milliseconds.
  pub get-set :
      (o : Order p) (v : Json Float64) (ttl : ℕ) (c : RedisServer p)
      → marshal_order p o ≡ some v
      → (condition c).fault ≡ clear
      → (condition_after c).fault ≡ clear
      → (condition_after c).server_now < (condition c).server_now + sent_ttl ttl
      → (get (uuid_string o.id) (set o ttl c).1).0 ≡ ok (some o)
  get-set o v ttl c written calm calm' fresh =
      let id = uuid_string o.id in
      let now = (condition c).server_now in
      let keys = set_key (order_key id) v (sent_ttl ttl) now c.content in
      let there =
        lookup-set (order_key id) v (sent_ttl ttl) now (condition_after c).server_now c.content
          fresh in
      ap (λ (x : Result ⊤ × RedisServer p). (get id x.1).0) (set-clear o v ttl c written calm)
      ∙ ap (λ (x : Result (Option (Order p)) × RedisServer p). x.0)
          (get-clear id (some v) (after c keys) calm' there)
      ∙ found-decoded (order_key id) o v (after (after c keys) keys)
          (unmarshal-marshal_order p o v written)

  -- Once its time to live is over, an order that was set is not found.
  pub get-set_expired :
      (o : Order p) (v : Json Float64) (ttl : ℕ) (c : RedisServer p)
      → marshal_order p o ≡ some v
      → (condition c).fault ≡ clear
      → (condition_after c).fault ≡ clear
      → 0 < ttl
      → (condition c).server_now + sent_ttl ttl ≤ (condition_after c).server_now
      → (get (uuid_string o.id) (set o ttl c).1).0 ≡ ok none
  get-set_expired o v ttl c written calm calm' some_time over =
      let id = uuid_string o.id in
      let now = (condition c).server_now in
      let keys = set_key (order_key id) v (sent_ttl ttl) now c.content in
      let gone =
        lookup-set_expired (order_key id) v (sent_ttl ttl) now (condition_after c).server_now
          c.content (sent_ttl-positive ttl some_time) over in
      ap (λ (x : Result ⊤ × RedisServer p). (get id x.1).0) (set-clear o v ttl c written calm)
      ∙ ap (λ (x : Result (Option (Order p)) × RedisServer p). x.0)
          (get-clear id none (after c keys) calm' gone)

  -- An id that was deleted is not found, whatever the cache held.
  pub get-delete :
      (id : String) (c : RedisServer p)
      → (condition c).fault ≡ clear
      → (condition_after c).fault ≡ clear
      → (get id (delete id c).1).0 ≡ ok none
  get-delete id c calm calm' =
      let keys = remove_key (order_key id) c.content in
      ap (λ (x : Result ⊤ × RedisServer p). (get id x.1).0) (delete-clear id c calm)
      ∙ ap (λ (x : Result (Option (Order p)) × RedisServer p). x.0)
          (get-clear id none (after c keys) calm'
            (lookup-remove (order_key id) (condition_after c).server_now c.content))
