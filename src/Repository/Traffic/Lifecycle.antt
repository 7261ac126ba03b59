-- ===== src/Repository/Traffic/Lifecycle.antt =====
-- The life of every order under the traffic of many clients.
use go_ordersvc.Prelude.{String, Option, none, some, [], All, ◌≡◌, ⊤}
use go_ordersvc.Prelude.Int.{pos}
use go_ordersvc.Json.{Elems, arr}
use go_ordersvc.Json.Items.{marshal_items}
use go_ordersvc.Platform.{Platform}
use go_ordersvc.Effect.{pure}
use go_ordersvc.Outside.{execute}
use go_ordersvc.Outside.Keeps.{Keeps, Keeps->>=, execute-content}
use go_ordersvc.Domain.Status.{pending}
use go_ordersvc.Domain.Order.{Order}
use go_ordersvc.Repository.Database.{Database}
use go_ordersvc.Repository.Postgres.{
  create, update, delete, find_by_id, create_marshalled, insert_order, execute_delete, after_delete,
  delete_statement,
}
use go_ordersvc.Repository.Listing.{list, find_by_customer_id}
use go_ordersvc.Repository.Table.{IsTable}
use go_ordersvc.Repository.Calls.{
  Call, create_call, update_call, find_call, delete_call, list_call, customer_call, run_call,
}
use go_ordersvc.Repository.Queries.{find_by_id-Same, list_where-Same, after_delete-Same}
use go_ordersvc.Repository.Methods.{execute_insert-Develops, execute_delete-Develops}
use go_ordersvc.Repository.Deletion.{delete_statement-eq-ok}
use go_ordersvc.Repository.Traffic.{Traffic, IsPlain, ◌⟹◌, reads, writes, calls, ◌⟹*◌, stay, step}
use go_ordersvc.Repository.Traffic.Moves.{
  Moves, Evolves, Evolves-refl, Evolves-trans, exec_delete-Moves, insert_order-Moves,
}
use go_ordersvc.Repository.Traffic.Tracking.{
  Tracks, All-Tracks, Tracks-held, find_by_id-Tracks, Same-Evolves, update-Evolves,
}

module _ {p : Platform} where
  create_marshalled-Evolves :
      (o : Order p) (items : Option (Elems p.Float64))
      → o.status ≡ pending
      → Keeps Evolves (create_marshalled o items)
  create_marshalled-Evolves o none fresh = λ db. Evolves-refl db.content
  create_marshalled-Evolves o (some items) fresh =
      let new : Order p = record o { version = pos 1 } in
      Keeps->>= Evolves Evolves-trans (execute (insert_order new (arr items))) (λ (_ : ⊤). pure new)
        (λ db. (
          execute_insert-Develops new items db,
          execute-content Moves (λ rows. (Evolves-refl rows).1) (insert_order new (arr items)) db
              λ c rows' a. insert_order-Moves new (arr items) c db.content rows' fresh,
        ))
        (λ _ db. Evolves-refl db.content)

  create-Evolves : (o : Order p) → o.status ≡ pending → Keeps Evolves (create o)
  unfolding create
  create-Evolves o fresh = create_marshalled-Evolves o (marshal_items p o.items) fresh

  delete-Evolves : (id : String) → Keeps Evolves (delete {p = p} id)
  unfolding delete
  delete-Evolves id =
      Keeps->>= Evolves Evolves-trans (execute_delete id) after_delete
        (λ db. (
          execute_delete-Develops id db,
          execute-content Moves (λ rows. (Evolves-refl rows).1) (delete_statement id) db
              λ c rows' n e.
                let (u, _, ran) = delete_statement-eq-ok id c db.content rows' n e in
                exec_delete-Moves u c.local_now c.server_now db.content rows' n ran,
        ))
        (λ n. Same-Evolves (after_delete n) (after_delete-Same n))

  run_call-Evolves :
      (call : Call p) (db : Database p)
      → IsPlain call
      → Evolves db.content (run_call call db).content
  unfolding list find_by_customer_id
  run_call-Evolves (create_call o) db plain = create-Evolves o plain db
  run_call-Evolves (update_call o) db plain = absurd plain
  run_call-Evolves (find_call id) db plain = Same-Evolves (find_by_id id) (find_by_id-Same id) db
  run_call-Evolves (delete_call id) db plain = delete-Evolves id db
  run_call-Evolves (list_call opts) db plain =
      Same-Evolves (list opts) (list_where-Same _ _ opts) db
  run_call-Evolves (customer_call customer_id opts) db plain =
      Same-Evolves (find_by_customer_id customer_id opts) (list_where-Same _ _ opts) db

  -- What holds at every moment of the traffic.
  abbrev IsSound : Traffic p → Traffic p → Type 0
  IsSound s t =
      IsTable t.database.content
      × All (Tracks t.database.content) t.held
      × Evolves s.database.content t.database.content

  grows :
      (s t : Traffic p) (db : Database p)
      → IsSound s t
      → Evolves t.database.content db.content
      → IsSound s (record t { database = db })
  grows s t db (valid, known, evolved) more = (
    more.0.1 valid,
    All-Tracks t.database.content db.content t.held more.0.0 known,
    Evolves-trans s.database.content t.database.content db.content evolved more,
  )

  ⟹-IsSound : (s : Traffic p) {t u : Traffic p} → IsSound s t → t ⟹ u → IsSound s u
  ⟹-IsSound s {t} sound (reads id o read) =
      let db' = (find_by_id id t.database).1 in
      let (valid, known, evolved) =
        grows s t db' sound (Same-Evolves (find_by_id id) (find_by_id-Same id) t.database) in
      (valid, (find_by_id-Tracks id o t.database sound.0 read, known), evolved)
  ⟹-IsSound s {t} sound (writes o changed held same_id same_version allowed) =
      grows s t (update changed t.database).1 sound (
        update-Evolves o changed same_id same_version allowed t.database
          (Tracks-held t.database.content o t.held held sound.1))
  ⟹-IsSound s {t} sound (calls call plain) =
      grows s t (run_call call t.database) sound (run_call-Evolves call t.database plain)

  ⟹*-IsSound : {s t : Traffic p} → IsTable s.database.content → s.held ≡ [] → s ⟹* t → IsSound s t
  ⟹*-IsSound {s} valid nothing stay = (valid, rw nothing tt, Evolves-refl s.database.content)
  ⟹*-IsSound {s} valid nothing (step t u run next) = ⟹-IsSound s (⟹*-IsSound valid nothing run) next

  -- The state machine holds under all traffic: from a table that meets its constraints, whatever any
  -- number of clients do, with their reads and writes interleaved in any order and with any faults, the
  -- constraints stay met, and the status of every row has come from the status that the row of its id
  -- had at first, or from pending if there was none, by steps that CanTransitionTo accepts. A client
  -- writes an order that it has read before, under its id and its version, with its status or one that
  -- CanTransitionTo accepts after it; a new order is pending.
  pub traffic-Moves :
      (s t : Traffic p)
      → IsTable s.database.content
      → s.held ≡ []
      → s ⟹* t
      → IsTable t.database.content × Moves s.database.content t.database.content
  traffic-Moves s t valid nothing run =
      let (valid', _, evolved) = ⟹*-IsSound {s = s} valid nothing run in (valid', evolved.1)
