-- ===== src/Repository/Postgres.antt =====
-- internal/repository/postgres/order_repository_postgres.go
use go_ordersvc.Prelude.{
  ℕ, zero, suc, ⊤, Bool, not, ◌&&◌, String, Option, none, some, List, ◌∷◌, if◌then◌else◌, is_none,
}
use go_ordersvc.Prelude.Int.{ℤ, pos, ◌+ℤ◌, eqb_ℤ, int64}
use go_ordersvc.Json.{Json, Elems, arr}
use go_ordersvc.Json.Items.{marshal_items, unmarshal_items}
use go_ordersvc.Outside.{Condition, execute}
use go_ordersvc.Platform.{Platform}
use go_ordersvc.Effect.{Result, ok, err, Action, pure, throw, fail, ◌>>=◌, ◌>>◌}
use go_ordersvc.Domain.Errors.{Error, outside, order_not_found, concurrent_modification}
use go_ordersvc.Domain.Order.{Order}
use go_ordersvc.Repository.Database.{
  Row, RowOrder, Database, is_live, is_version, is_int4, is_status, select_first, update_where,
}

-- The errors of encoding/json and of the server, by what they say.
abbrev pub json_error : Error
json_error = outside "json: unsupported value"

abbrev pub bad_json : Error
bad_json = outside "json: cannot unmarshal"

abbrev pub bad_uuid : Error
bad_uuid = outside "invalid input syntax for type uuid"

abbrev pub bad_column : Error
bad_column = outside "value out of range or check constraint violated"

abbrev pub bad_parameter : Error
bad_parameter = outside "cannot encode the parameter, or invalid input syntax for its type"

abbrev pub duplicate_key : Error
duplicate_key = outside "duplicate key value violates unique constraint"

abbrev pub negative_range : Error
negative_range = outside "LIMIT and OFFSET must not be negative"

module _ {p : Platform} where
  open p use {
    UUID, uuid_eq, uuid_string, column_uuid, column_text, column_varchar, column_jsonb,
    column_decimal, column_time,
  }

  -- The customer and the total as the columns hold them, if the columns' types and the check
  -- `valid_status` take the order's values.
  abbrev pub stored_columns : Order p → Json p.Float64 → Option (String × p.Float64)
  stored_columns order items =
      if is_status order.status && column_jsonb items
      then elim (column_varchar order.customer_id) [
        | none ↦ none
        | some customer_id ↦ elim (column_decimal order.total) [
          | none ↦ none
          | some total ↦ some (customer_id, total)
        ]
      ]
      else none

  -- INSERT INTO orders (…) VALUES (…)
  abbrev pub inserted_row : Order p → Json p.Float64 → Option (Row p)
  inserted_row order items = elim (stored_columns order items) [
    | none ↦ none
    | some (customer_id, total) ↦
        if is_version order.version
        then some (record {
          id = order.id;
          customer_id = customer_id;
          items = items;
          status = order.status;
          total = total;
          version = order.version;
          created_at = column_time order.created_at;
          updated_at = column_time order.updated_at;
          deleted_at = none;
        })
        else none
  ]

  abbrev pub insert_order :
      Order p → Json p.Float64 → Condition (RowOrder p) → List (Row p) → Result (List (Row p) × ⊤)
  insert_order order items c rows = elim (inserted_row order items) [
    | none ↦ err bad_column
    | some r ↦
        if is_none (select_first (λ s. uuid_eq s.id order.id) rows)
        then ok (r ∷ rows, tt)
        else err duplicate_key
  ]

  -- `Create` by what became of `json.Marshal(order.Items)`.
  abbrev pub create_marshalled : Order p → Option (Elems p.Float64) → Action (Database p) (Order p)
  create_marshalled order none = fail json_error
  create_marshalled order (some items) =
      let versioned : Order p = record order { version = pos 1 } in
      execute (insert_order versioned (arr items)) >> pure versioned

  unfoldable pub create : Order p → Action (Database p) (Order p)
  create order = create_marshalled order (marshal_items p order.items)

  -- The columns of a row read into an order.
  unfoldable pub read_order : Row p → Result (Order p)
  read_order r = elim (unmarshal_items p r.items) [
    | none ↦ err bad_json
    | some items ↦ ok (record {
      id = r.id;
      customer_id = r.customer_id;
      items = items;
      status = r.status;
      total = r.total;
      version = r.version;
      created_at = r.created_at;
      updated_at = r.updated_at;
      deleted_at = r.deleted_at;
    })
  ]

  -- `WHERE id = $1 AND deleted_at IS NULL`
  abbrev pub live_at : UUID → Row p → Bool
  live_at id r = uuid_eq r.id id && is_live r

  -- A query for a text that is taken as a UUID.
  abbrev pub query_row :
      {A : Type 0}
      → String
      → (UUID → List (Row p) → A)
      → Condition (RowOrder p)
      → List (Row p)
      → Result (List (Row p) × A)
  query_row id answer c rows = elim (column_uuid id) [
    | none ↦ err bad_uuid
    | some u ↦ ok (rows, answer u rows)
  ]

  -- The order of the row that was found, if one was.
  abbrev pub read_found : Option (Row p) → Action (Database p) (Option (Order p))
  read_found none db = (ok none, db)
  read_found (some r) db = elim (read_order r) [
    | ok order ↦ (ok (some order), db)
    | err e ↦ (err e, db)
  ]

  unfoldable pub find_by_id : String → Action (Database p) (Option (Order p))
  unfolding read_order
  find_by_id id = execute (query_row id (λ u. select_first (live_at u))) >>= read_found

  -- `SELECT EXISTS(SELECT 1 FROM orders WHERE id = $1)`
  unfoldable pub order_exists : String → Action (Database p) Bool
  order_exists id =
      execute (query_row id (λ u rows. not (is_none (select_first (λ r. uuid_eq r.id u) rows))))

  -- `SET customer_id = $1, …, version = version + 1`; the trigger sets `updated_at` to NOW().
  abbrev pub updated_row : Order p → Json p.Float64 → ℕ → Row p → Option (Row p)
  updated_row order items server_now r = elim (stored_columns order items) [
    | none ↦ none
    | some (customer_id, total) ↦
        if is_version (r.version +ℤ pos 1)
        then some (record r {
          customer_id = customer_id;
          items = items;
          status = order.status;
          total = total;
          version = r.version +ℤ pos 1;
          updated_at = server_now;
        })
        else none
  ]

  -- `WHERE id = $6 AND version = $7 AND deleted_at IS NULL`
  abbrev pub version_at : UUID → ℤ → Row p → Bool
  version_at id version r = uuid_eq r.id id && (eqb_ℤ r.version version && is_live r)

  -- `Exec` of an UPDATE, with the number of rows affected.
  abbrev pub exec_update :
      (Row p → Bool) → (Row p → Option (Row p)) → List (Row p) → Result (List (Row p) × ℕ)
  exec_update test change rows = elim (update_where test change rows) [
    | none ↦ err bad_column
    | some done ↦ ok done
  ]

  -- Whether pgx can send the parameters of the UPDATE, and the server takes them for their types,
  -- which comes before any row is looked at.
  abbrev pub takes_parameters : Order p → Json p.Float64 → Bool
  takes_parameters order items =
      column_text order.customer_id
      && (column_jsonb items && (column_text order.status && is_int4 order.version))

  -- The UPDATE of an order whose items are in JSON.
  abbrev pub update_statement :
      Order p → Elems p.Float64 → Condition (RowOrder p) → List (Row p) → Result (List (Row p) × ℕ)
  update_statement order items c rows =
      if takes_parameters order (arr items)
      then exec_update (version_at order.id order.version)
          (updated_row order (arr items) c.server_now) rows
      else err bad_parameter

  abbrev pub execute_update : Order p → Elems p.Float64 → Action (Database p) ℕ
  execute_update order items = execute (update_statement order items)

  abbrev pub conflict_or_missing : Bool → Action (Database p) (Order p)
  conflict_or_missing exists =
      if exists then throw concurrent_modification else throw order_not_found

  -- `if rowsAffected == 0 { … }`
  abbrev pub after_update : Order p → ℕ → Action (Database p) (Order p)
  after_update order zero = order_exists (uuid_string order.id) >>= conflict_or_missing
  after_update order (suc affected) =
      pure (record order { version = int64 (order.version +ℤ pos 1) })

  -- `Update` by what became of `json.Marshal(order.Items)`.
  abbrev pub update_marshalled : Order p → Option (Elems p.Float64) → Action (Database p) (Order p)
  update_marshalled order none = fail json_error
  update_marshalled order (some items) = execute_update order items >>= after_update order

  unfoldable pub update : Order p → Action (Database p) (Order p)
  unfolding order_exists
  update order = update_marshalled order (marshal_items p order.items)

  -- `SET deleted_at = $1, version = version + 1`
  abbrev pub deleted_row : ℕ → ℕ → Row p → Option (Row p)
  deleted_row local_now server_now r =
      if is_version (r.version +ℤ pos 1)
      then some (record r {
        deleted_at = some (column_time local_now);
        version = r.version +ℤ pos 1;
        updated_at = server_now;
      })
      else none

  abbrev pub delete_statement :
      String → Condition (RowOrder p) → List (Row p) → Result (List (Row p) × ℕ)
  delete_statement id c rows = elim (column_uuid id) [
    | none ↦ err bad_uuid
    | some u ↦ exec_update (live_at u) (deleted_row c.local_now c.server_now) rows
  ]

  abbrev pub execute_delete : String → Action (Database p) ℕ
  execute_delete id = execute (delete_statement id)

  abbrev pub after_delete : ℕ → Action (Database p) ⊤
  after_delete zero = throw order_not_found
  after_delete (suc affected) = pure tt

  unfoldable pub delete : String → Action (Database p) ⊤
  delete id = execute_delete id >>= after_delete
