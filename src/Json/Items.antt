-- ===== src/Json/Items.antt =====
-- `json.Marshal(order.Items)` and `json.Unmarshal(itemsJSON, &order.Items)`, as
-- internal/repository/postgres/order_repository_postgres.go calls them. OrderItem has no tags, so
-- the keys are the names of its fields.
use go_ordersvc.Prelude.{
  Option, none, some, List, [], ◌∷◌, ◌≡◌, refl, if◌then◌else◌, true, ◌&&◌, arith, Option-cases, inl,
  inr,
}
use go_ordersvc.Prelude.Int.{is_int64}
use go_ordersvc.Platform.{Platform}
use go_ordersvc.Json.{
  Json, null, int, float, str, arr, obj, Elems, nil, cons, Fields, end, field, member, as_string,
  as_int, as_float, ◌>>=◌,
}
use go_ordersvc.Domain.Item.{OrderItem}

module _ (p : Platform) where
  open p use {UUID, uuid_nil, uuid_string, uuid_parse, Float64, of_int, is_finite}

  -- A UUID is written by `MarshalText` and read by `UnmarshalText`.
  abbrev pub as_uuid : Json Float64 → Option UUID
  as_uuid null = some uuid_nil
  as_uuid (str s) = uuid_parse s
  as_uuid _ = none

  abbrev pub item_fields : OrderItem p → Fields Float64
  item_fields i = field "ID" (str (uuid_string i.id)) (
      field "ProductID" (str i.product_id) (
        field "Name" (str i.name) (
          field "Quantity" (int i.quantity)
            (field "Price" (float i.price) (field "Subtotal" (float i.subtotal) end)))))

  -- A quantity that is no 64-bit number is no int of Go, and has no JSON here.
  unfoldable pub marshal_items : List (OrderItem p) → Option (Elems Float64)
  marshal_items [] = some nil
  marshal_items (i ∷ items) =
      if is_int64 i.quantity && (is_finite i.price && is_finite i.subtotal)
      then (do some (cons (obj (item_fields i)) (← marshal_items items)))
      else none

  abbrev pub item_of_fields : Fields Float64 → Option (OrderItem p)
  item_of_fields fs = do
    id ← as_uuid (member "ID" fs)
    product_id ← as_string (member "ProductID" fs)
    name ← as_string (member "Name" fs)
    quantity ← as_int (member "Quantity" fs)
    price ← as_float of_int (member "Price" fs)
    subtotal ← as_float of_int (member "Subtotal" fs)
    some (record {
      id = id;
      product_id = product_id;
      name = name;
      quantity = quantity;
      price = price;
      subtotal = subtotal;
    })

  abbrev pub unmarshal_item : Json Float64 → Option (OrderItem p)
  unmarshal_item null = item_of_fields end
  unmarshal_item (obj fs) = item_of_fields fs
  unmarshal_item _ = none

  unfoldable pub unmarshal_elems : Elems Float64 → Option (List (OrderItem p))
  unmarshal_elems nil = some []
  unmarshal_elems (cons v vs) = do some ((← unmarshal_item v) ∷ (← unmarshal_elems vs))

  unfoldable pub unmarshal_items : Json Float64 → Option (List (OrderItem p))
  unfolding unmarshal_elems
  unmarshal_items null = some []
  unmarshal_items (arr vs) = unmarshal_elems vs
  unmarshal_items _ = none

  -- An item is read back as it was written.
  item_of_fields-item_fields :
      (i : OrderItem p) → is_int64 i.quantity ≡ true → item_of_fields (item_fields i) ≡ some i
  item_of_fields-item_fields i h = rw (p.uuid_parse-string i.id, h) refl

  pub unmarshal-marshal :
      (items : List (OrderItem p)) (vs : Elems Float64)
      → marshal_items items ≡ some vs
      → unmarshal_elems vs ≡ some items
  unfolding marshal_items unmarshal_elems
  unmarshal-marshal [] vs h = ground arith
  unmarshal-marshal (i ∷ items) vs h = elim (Option-cases (marshal_items items)) [
    | inl failed ↦ ground arith
    | inr (ws, e) ↦
        let written : vs ≡ cons (obj (item_fields i)) ws = ground arith in
        let sized : is_int64 i.quantity ≡ true = ground arith in
        rw (written, item_of_fields-item_fields i sized, unmarshal-marshal items ws e) refl
  ]
