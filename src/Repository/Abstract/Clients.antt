-- ===== src/Repository/Abstract/Clients.antt =====
-- What the clients of the repository can observe of it with calls by id.
use go_ordersvc.Prelude.{String, Option, none, some, List, [], ◌∷◌, ◌≡◌, refl, ◌∙◌, ap}
use go_ordersvc.Platform.{Platform}
use go_ordersvc.Effect.{Result, ok, err, Action}
use go_ordersvc.Domain.Order.{Order}
use go_ordersvc.Repository.Database.{Database}
use go_ordersvc.Repository.Postgres.{create, find_by_id, update, delete}
use go_ordersvc.Repository.Table.{IsTable}
use go_ordersvc.Repository.Methods.{
  create-Develops, find_by_id-Develops, update-Develops, delete-Develops,
}
use go_ordersvc.Repository.Abstract.{StoreServer, add, look_up, compare_and_swap, remove}
use go_ordersvc.Repository.Abstract.Statements.{as_server}
use go_ordersvc.Repository.Abstract.Refinement.{
  create-Refines, find_by_id-Refines, update-Refines, delete-Refines,
}

module _ (p : Platform) where
  pub data Request : Type 0 where
    create_request update_request : Order p → Request
    find_request delete_request : String → Request

  -- What a client is told: an error, or an order if the method returns one.
  abbrev pub Answer : Type 0
  Answer = Result (Option (Order p))

module _ {p : Platform} where
  abbrev told : {A : Type 0} → (A → Option (Order p)) → Result A → Answer p
  told f (ok a) = ok (f a)
  told f (err e) = err e

  abbrev pub tell : {S A : Type 0} → (A → Option (Order p)) → Action S A → S → Answer p × S
  tell f m s = let (r, s') = m s in (told f r, s')

  abbrev pub serve : Request p → Database p → Answer p × Database p
  serve (create_request o) = tell some (create o)
  serve (update_request o) = tell some (update o)
  serve (find_request id) = tell (λ found. found) (find_by_id id)
  serve (delete_request id) = tell (λ _. none) (delete id)

  abbrev pub serve_all : List (Request p) → Database p → List (Answer p) × Database p
  serve_all [] db = ([], db)
  serve_all (request ∷ requests) db =
      let (a, db') = serve request db in
      let (rest, db'') = serve_all requests db' in (a ∷ rest, db'')

  -- The same requests, on the store.
  abbrev pub obey : Request p → StoreServer p → Answer p × StoreServer p
  obey (create_request o) = tell some (add o)
  obey (update_request o) = tell some (compare_and_swap o)
  obey (find_request id) = tell (λ found. found) (look_up id)
  obey (delete_request id) = tell (λ _. none) (remove id)

  abbrev pub obey_all : List (Request p) → StoreServer p → List (Answer p) × StoreServer p
  obey_all [] s = ([], s)
  obey_all (request ∷ requests) s =
      let (a, s') = obey request s in let (rest, s'') = obey_all requests s' in (a ∷ rest, s'')

  tell-Refines :
      {A : Type 0} (f : A → Option (Order p)) (m : Action (Database p) A)
      (spec : Action (StoreServer p) A) (db : Database p)
      → spec (as_server db) ≡ ((m db).0, as_server (m db).1)
      → tell f spec (as_server db) ≡ ((tell f m db).0, as_server (tell f m db).1)
  tell-Refines {A} f m spec db same = ap (λ (e : Result A × StoreServer p). (told f e.0, e.1)) same

  serve-obey :
      (request : Request p) (db : Database p)
      → IsTable db.content
      → obey request (as_server db) ≡ ((serve request db).0, as_server (serve request db).1)
  serve-obey (create_request o) db valid =
      tell-Refines some (create o) (add o) db (create-Refines o db valid)
  serve-obey (update_request o) db valid =
      tell-Refines some (update o) (compare_and_swap o) db (update-Refines o db valid)
  serve-obey (find_request id) db valid =
      tell-Refines (λ found. found) (find_by_id id) (look_up id) db (find_by_id-Refines id db valid)
  serve-obey (delete_request id) db valid =
      tell-Refines (λ _. none) (delete id) (remove id) db (delete-Refines id db valid)

  serve-IsTable :
      (request : Request p) (db : Database p)
      → IsTable db.content
      → IsTable (serve request db).1.content
  serve-IsTable (create_request o) db = (create-Develops o db).1
  serve-IsTable (update_request o) db = (update-Develops o db).1
  serve-IsTable (find_request id) db = (find_by_id-Develops id db).1
  serve-IsTable (delete_request id) db = (delete-Develops id db).1

  -- The repository refines the store: on a table that meets its constraints, any sequence of calls
  -- of Create, FindByID, Update and Delete, with any faults of the server, gives the very answers
  -- and errors that the same calls of the store give with the same faults, and leaves the store
  -- that the table then holds.
  pub serve_all-obey_all :
      (requests : List (Request p)) (db : Database p)
      → IsTable db.content
      → obey_all requests (as_server db)
        ≡ ((serve_all requests db).0, as_server (serve_all requests db).1)
  serve_all-obey_all [] db valid = refl
  serve_all-obey_all (request ∷ requests) db valid =
      let db' = (serve request db).1 in
      let a = (serve request db).0 in
      ap
        (λ (e : Answer p × StoreServer p).
          (e.0 ∷ (obey_all requests e.1).0, (obey_all requests e.1).1))
        (serve-obey request db valid)
      ∙ ap (λ (e : List (Answer p) × StoreServer p). (a ∷ e.0, e.1))
          (serve_all-obey_all requests db' (serve-IsTable request db valid))
