-- ===== src/Repository/Queries.antt =====
-- The queries of the repository leave the table as it is.
use go_ordersvc.Prelude.{
  ℕ, suc, zero, Bool, String, Option, none, some, List, ◌≡◌, refl, ap, ◌∙◌, arith,
}
use go_ordersvc.Prelude.Int.{ℤ}
use go_ordersvc.Platform.{Platform}
use go_ordersvc.Effect.{Result, ok, Action, ◌>>=◌}
use go_ordersvc.Outside.{Condition, execute}
use go_ordersvc.Outside.Keeps.{Keeps, Keeps->>=, execute-content}
use go_ordersvc.Domain.Order.{Order}
use go_ordersvc.Repository.Interface.{ListOptions}
use go_ordersvc.Repository.Database.{Row, RowOrder, Database}
use go_ordersvc.Repository.Postgres.{
  find_by_id, order_exists, read_found, after_update, after_delete, conflict_or_missing, query_row,
}
use go_ordersvc.Repository.Listing.{list_where, read_page, count_where, select_page}

module _ {p : Platform} where
  open p use {column_uuid, uuid_string}

  abbrev pub Same : List (Row p) → List (Row p) → Type 0
  Same rows rows' = rows' ≡ rows

  module _ {A : Type 0}
      (call : Condition (RowOrder p) → List (Row p) → Result (List (Row p) × A)) where
    -- A query leaves the rows alone.
    execute-same :
        ((c : Condition (RowOrder p)) (rows rows' : List (Row p)) (a : A)
          → call c rows ≡ ok (rows', a)
          → rows' ≡ rows)
        → Keeps Same (execute call)
    execute-same h db =
        execute-content Same (λ rows. refl) call db (λ c rows' a. h c db.content rows' a)

  module _ {A B : Type 0} where
    chain :
        (m : Action (Database p) A) (f : A → Action (Database p) B)
        → Keeps Same m
        → ((a : A) → Keeps Same (f a))
        → Keeps Same (m >>= f)
    chain = Keeps->>= Same (λ rows₁ rows₂ rows₃ e f. f ∙ e)

  query_row-same :
      {A : Type 0} (id : String) (answer : p.UUID → List (Row p) → A) (c : Condition (RowOrder p))
      (rows rows' : List (Row p)) (a : A)
      → query_row id answer c rows ≡ ok (rows', a)
      → rows' ≡ rows
  query_row-same id answer c rows rows' a e = ground arith

  -- What the code does with the rows it has read does not touch the table.
  read_found-same : (found : Option (Row p)) (db : Database p) → (read_found found db).1 ≡ db
  read_found-same none db = refl
  read_found-same (some r) db = ground arith

  read_page-same : (n : ℤ) (rows : List (Row p)) (db : Database p) → (read_page n rows db).1 ≡ db
  read_page-same n rows db = ground arith

  conflict_or_missing-same :
      (exists : Bool) (db : Database p) → (conflict_or_missing exists db).1 ≡ db
  conflict_or_missing-same exists db = ground arith

  after_delete-same : (n : ℕ) (db : Database p) → (after_delete n db).1 ≡ db
  after_delete-same zero db = refl
  after_delete-same (suc n) db = refl

  quiet :
      {A : Type 0} (m : Action (Database p) A) → ((db : Database p) → (m db).1 ≡ db) → Keeps Same m
  quiet m h db = ap (λ (s : Database p). s.content) (h db)

  pub execute_query-Same :
      {A : Type 0} (id : String) (answer : p.UUID → List (Row p) → A)
      → Keeps Same (execute (query_row id answer))
  execute_query-Same id answer = execute-same _ (query_row-same id answer)

  pub find_by_id-Same : (id : String) → Keeps Same (find_by_id {p = p} id)
  unfolding find_by_id
  find_by_id-Same id =
      chain _ read_found (execute_query-Same id _)
        λ found. quiet (read_found found) (read_found-same found)

  pub order_exists-Same : (id : String) → Keeps Same (order_exists {p = p} id)
  unfolding order_exists
  order_exists-Same id = execute_query-Same id _

  select_page-same :
      (taken : Bool) (test : Row p → Bool) (opts : ListOptions) (c : Condition (RowOrder p))
      (rows rows' page : List (Row p))
      → select_page taken test opts c rows ≡ ok (rows', page)
      → rows' ≡ rows
  select_page-same taken test opts c rows rows' page e = ground arith

  count_where-same :
      (taken : Bool) (test : Row p → Bool) (c : Condition (RowOrder p)) (rows rows' : List (Row p))
      (n : ℤ)
      → count_where taken test c rows ≡ ok (rows', n)
      → rows' ≡ rows
  count_where-same taken test c rows rows' n e = ground arith

  pub list_where-Same :
      (taken : Bool) (test : Row p → Bool) (opts : ListOptions)
      → Keeps Same (list_where taken test opts)
  unfolding list_where
  list_where-Same taken test opts =
      chain (execute (count_where taken test))
        (λ n. execute (select_page taken test opts) >>= read_page n)
        (execute-same (count_where taken test) (count_where-same taken test))
        λ n.
          chain (execute (select_page taken test opts)) (read_page n)
            (execute-same (select_page taken test opts) (select_page-same taken test opts))
            λ rows. quiet (read_page n rows) (read_page-same n rows)

  -- What follows an UPDATE.
  pub after_update-Same : (o : Order p) → Keeps Same (after_update o zero)
  after_update-Same o =
      chain (order_exists (uuid_string o.id)) conflict_or_missing
        (order_exists-Same (uuid_string o.id))
        (λ exists. quiet (conflict_or_missing exists) (conflict_or_missing-same exists))

  pub after_delete-Same : (n : ℕ) → Keeps Same (after_delete {p = p} n)
  after_delete-Same n = quiet (after_delete n) (after_delete-same n)
