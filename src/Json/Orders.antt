-- ===== src/Json/Orders.antt =====
-- The JSON of a whole order, as internal/cache/redis/order_cache_redis.go writes and reads it. Order
-- has no tags either.
use go_ordersvc.Prelude.{
  ℕ, Option, none, some, ◌≡◌, refl, if◌then◌else◌, true, ◌&&◌, arith, Option-cases, inl, inr,
}
use go_ordersvc.Prelude.Int.{is_int64}
use go_ordersvc.Platform.{Platform}
use go_ordersvc.Json.{
  Json, null, int, float, str, time, arr, obj, Elems, Fields, end, field, member, as_string, as_int,
  as_float, as_time, as_time_pointer, ◌>>=◌,
}
use go_ordersvc.Json.Items.{as_uuid, marshal_items, unmarshal_items, unmarshal-marshal}
use go_ordersvc.Domain.Order.{Order}

module _ (p : Platform) where
  open p use {uuid_string, Float64, of_int, is_finite}

  abbrev pub time_pointer : Option ℕ → Json Float64
  time_pointer none = null
  time_pointer (some t) = time t

  abbrev pub order_fields : Order p → Elems Float64 → Fields Float64
  order_fields o items = field "ID" (str (uuid_string o.id)) (
      field "CustomerID" (str o.customer_id) (
        field "Items" (arr items) (
          field "Status" (str o.status) (
            field "Total" (float o.total) (
              field "Version" (int o.version) (
                field "CreatedAt" (time o.created_at) (
                  field "UpdatedAt" (time o.updated_at)
                    (field "DeletedAt" (time_pointer o.deleted_at) end))))))))

  -- A version that is no 64-bit number is no int of Go, and has no JSON here.
  unfoldable pub marshal_order : Order p → Option (Json Float64)
  marshal_order o = do
    items ← marshal_items p o.items
    if is_int64 o.version && is_finite o.total then some (obj (order_fields o items)) else none

  abbrev pub order_of_fields : Fields Float64 → Option (Order p)
  order_of_fields fs = do
    id ← as_uuid p (member "ID" fs)
    customer_id ← as_string (member "CustomerID" fs)
    items ← unmarshal_items p (member "Items" fs)
    status ← as_string (member "Status" fs)
    total ← as_float of_int (member "Total" fs)
    version ← as_int (member "Version" fs)
    created_at ← as_time (member "CreatedAt" fs)
    updated_at ← as_time (member "UpdatedAt" fs)
    deleted_at ← as_time_pointer (member "DeletedAt" fs)
    some (record {
      id = id;
      customer_id = customer_id;
      items = items;
      status = status;
      total = total;
      version = version;
      created_at = created_at;
      updated_at = updated_at;
      deleted_at = deleted_at;
    })

  unfoldable pub unmarshal_order : Json Float64 → Option (Order p)
  unmarshal_order null = order_of_fields end
  unmarshal_order (obj fs) = order_of_fields fs
  unmarshal_order _ = none

  as_time_pointer-time_pointer : (d : Option ℕ) → as_time_pointer (time_pointer d) ≡ some d
  as_time_pointer-time_pointer none = refl
  as_time_pointer-time_pointer (some t) = refl

  order_of_fields-order_fields :
      (o : Order p) (items : Elems Float64)
      → marshal_items p o.items ≡ some items
      → is_int64 o.version ≡ true
      → order_of_fields (order_fields o items) ≡ some o
  unfolding unmarshal_items
  order_of_fields-order_fields o items h sized = rw (p.uuid_parse-string o.id) (
      rw (unmarshal-marshal p o.items items h)
        (rw (sized, as_time_pointer-time_pointer o.deleted_at) refl))

  -- An order that can be written is read back unchanged.
  pub unmarshal-marshal_order :
      (o : Order p) (v : Json Float64) → marshal_order o ≡ some v → unmarshal_order v ≡ some o
  unfolding marshal_order unmarshal_order
  unmarshal-marshal_order o v h = elim (Option-cases (marshal_items p o.items)) [
    | inl failed ↦ ground arith
    | inr (items, e) ↦
        let written : v ≡ obj (order_fields o items) = ground arith in
        let sized : is_int64 o.version ≡ true = ground arith in
        rw written (order_of_fields-order_fields o items e sized)
  ]
