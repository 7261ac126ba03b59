-- ===== src/Repository/Abstract/Refinement.antt =====
-- The methods of the repository are the methods of the store.
use go_ordersvc.Prelude.{
  ℕ, zero, suc, Bool, true, false, String, Option, none, some, List, ◌≡◌, refl, ◌∙◌, inl, inr, ap,
}
use go_ordersvc.Prelude.Int.{pos}
use go_ordersvc.Json.{Elems, arr}
use go_ordersvc.Json.Items.{marshal_items}
use go_ordersvc.Platform.{Platform}
use go_ordersvc.Effect.{Result, Result-cases, ok, err, Action, continue, pure, ◌>>=◌}
use go_ordersvc.Outside.{Condition, execute}
use go_ordersvc.Domain.Order.{Order}
use go_ordersvc.Repository.Database.{Row, RowOrder, Database, select_first}
use go_ordersvc.Repository.Postgres.{
  create, find_by_id, update, delete, create_marshalled, update_marshalled, after_update,
  after_delete, order_exists, conflict_or_missing, read_found, insert_order, read_order, query_row,
  live_at, update_statement, delete_statement,
}
use go_ordersvc.Repository.Table.{IsTable}
use go_ordersvc.Repository.Methods.{
  execute_query-Develops, execute_insert-Develops, execute_update-Develops, execute_delete-Develops,
}
use go_ordersvc.Repository.Abstract.{
  StoreServer, StoreCall, add, add_items, look_up, answer, compare_and_swap, compare_items, swapped,
  refuse, remove, removed, insert_new, find_live, has, swap, mark_deleted,
}
use go_ordersvc.Repository.Abstract.Statements.{
  as_server, Implements, execute-as_server, insert_order-Implements, find-Implements,
  exists-Implements, update-Implements, delete-Implements,
}

module _ {p : Platform} where
  open p use {uuid_string}

  -- On a database whose table meets its constraints, an action ends as the action of the store
  -- ends, with the store that the table then holds.
  abbrev pub Refines : {A : Type 0} → Action (Database p) A → Action (StoreServer p) A → Type 0
  Refines m spec =
      (db : Database p) → IsTable db.content → spec (as_server db) ≡ ((m db).0, as_server (m db).1)

  module _ {A B : Type 0} where
    -- One after the other, where what follows does not mind the table.
    Refines->>= :
        (m : Action (Database p) A) (spec : Action (StoreServer p) A)
        (f : A → Action (Database p) B) (g : A → Action (StoreServer p) B)
        → Refines m spec
        → ((db : Database p) → IsTable db.content → IsTable (m db).1.content)
        → ((a : A) → Refines (f a) (g a))
        → Refines (m >>= f) (spec >>= g)
    Refines->>= m spec f g hm valid hf db v =
        ap (λ (e : Result A × StoreServer p). continue g e.0 e.1) (hm db v)
        ∙ go (m db).0 (m db).1 (valid db v)
      where
        go :
            (r : Result A) (db' : Database p)
            → IsTable db'.content
            → continue g r (as_server db') ≡ ((continue f r db').0, as_server (continue f r db').1)
        go (ok a) db' v' = hf a db' v'
        go (err e) db' v' = refl

    -- The statement that keeps the constraints comes first.
    execute_then :
        (statement : Condition (RowOrder p) → List (Row p) → Result (List (Row p) × A))
        (call : StoreCall p A) (f : A → Action (Database p) B) (g : A → Action (StoreServer p) B)
        → Implements statement call
        → ((db : Database p) → IsTable db.content → IsTable (execute statement db).1.content)
        → ((a : A) → Refines (f a) (g a))
        → Refines (execute statement >>= f) (execute call >>= g)
    execute_then statement call f g same =
        Refines->>= (execute statement) (execute call) f g
          (λ db. execute-as_server statement call db same)

  read_found-Refines : (found : Option (Row p)) → Refines (read_found found) (answer found)
  read_found-Refines none db valid = refl
  read_found-Refines (some r) db valid = elim (Result-cases (read_order r)) [
    | inl (o, read) ↦ rw (read, answer, read_found) refl
    | inr (e, bad) ↦ rw (bad, answer, read_found) refl
  ]

  conflict-Refines : (exists : Bool) → Refines (conflict_or_missing exists) (refuse exists)
  conflict-Refines true db valid = refl
  conflict-Refines false db valid = refl

  create_marshalled-Refines :
      (o : Order p) (items : Option (Elems p.Float64))
      → Refines (create_marshalled o items) (add_items o items)
  create_marshalled-Refines o none = λ db valid. refl
  create_marshalled-Refines o (some items) =
      let new : Order p = record o { version = pos 1 } in
      execute_then (insert_order new (arr items)) (insert_new new (arr items)) (λ _. pure new)
        (λ _. pure new) (insert_order-Implements new (arr items))
        (λ db. (execute_insert-Develops new items db).1) (λ _ db valid. refl)

  pub create-Refines : (o : Order p) → Refines (create o) (add o)
  unfolding create
  create-Refines o = create_marshalled-Refines o (marshal_items p o.items)

  pub find_by_id-Refines : (id : String) → Refines (find_by_id id) (look_up id)
  unfolding find_by_id
  find_by_id-Refines id =
      execute_then (query_row id (λ u. select_first (live_at u))) (find_live id) read_found answer
        (find-Implements id) (λ db. (execute_query-Develops id _ db).1) read_found-Refines

  after_update-Refines : (o : Order p) (n : ℕ) → Refines (after_update o n) (swapped o n)
  unfolding order_exists
  after_update-Refines o zero =
      execute_then _ (has (uuid_string o.id)) conflict_or_missing refuse
        (exists-Implements (uuid_string o.id))
        (λ db. (execute_query-Develops (uuid_string o.id) _ db).1) conflict-Refines
  after_update-Refines o (suc n) = λ db valid. refl

  update_marshalled-Refines :
      (o : Order p) (items : Option (Elems p.Float64))
      → Refines (update_marshalled o items) (compare_items o items)
  update_marshalled-Refines o none = λ db valid. refl
  update_marshalled-Refines o (some items) =
      execute_then (update_statement o items) (swap o (arr items)) (after_update o) (swapped o)
        (update-Implements o items) (λ db. (execute_update-Develops o items db).1)
        (after_update-Refines o)

  pub update-Refines : (o : Order p) → Refines (update o) (compare_and_swap o)
  unfolding update
  update-Refines o = update_marshalled-Refines o (marshal_items p o.items)

  after_delete-Refines : (n : ℕ) → Refines (after_delete n) (removed n)
  after_delete-Refines zero db valid = refl
  after_delete-Refines (suc n) db valid = refl

  pub delete-Refines : (id : String) → Refines (delete id) (remove id)
  unfolding delete
  delete-Refines id =
      execute_then (delete_statement id) (mark_deleted id) after_delete removed
        (delete-Implements id) (λ db. (execute_delete-Develops id db).1) after_delete-Refines
