-- ===== src/Repository/Refusals.antt =====
-- Why `Update` refuses an order, where no statement meets a fault.
use go_ordersvc.Prelude.{
  zero, suc, Bool, String, Option, none, some, List, [], ◌∷◌, ◌≡◌, refl, inl, inr, arith,
  Bool-cases, is_none, if◌then◌else◌, not, Option-cases,
}
use go_ordersvc.Json.{Elems, arr}
use go_ordersvc.Json.Items.{marshal_items}
use go_ordersvc.Platform.{Platform}
use go_ordersvc.Effect.{ok, err}
use go_ordersvc.Outside.{clear, condition}
use go_ordersvc.Outside.Keeps.{execute-clear, execute-clear_err}
use go_ordersvc.Domain.Errors.{Error, domain, order_not_found, concurrent_modification}
use go_ordersvc.Domain.Order.{Order}
use go_ordersvc.Repository.Database.{Row, Database, select_first, update_where}
use go_ordersvc.Repository.Postgres.{
  update, takes_parameters, bad_parameter, update_marshalled, update_statement, after_update,
  version_at, updated_row, exec_update, order_exists, query_row, delete, delete_statement, live_at,
  deleted_row,
}
use go_ordersvc.Repository.Rows.{has_id}

module _ {p : Platform} where
  open p use {UUID, uuid_eq, uuid_string, column_uuid}

  -- The statement and the one after it meet no fault.
  abbrev pub NoFault : Database p → Type 0
  NoFault db = ((condition db).fault ≡ clear) × ((db.upcoming (suc db.executed)).fault ≡ clear)

  update_where-none :
      (test : Row p → Bool) (change : Row p → Option (Row p)) (rows : List (Row p))
      → select_first test rows ≡ none
      → update_where test change rows ≡ some (rows, 0)
  update_where-none test change [] f = refl
  update_where-none test change (r ∷ rows) f = elim (Bool-cases (test r)) [
    | inl hit ↦ ground arith
    | inr miss ↦ rw (miss, update_where-none test change rows (ground arith)) refl
  ]

  exec_update-none :
      (test : Row p → Bool) (change : Row p → Option (Row p)) (rows : List (Row p))
      → select_first test rows ≡ none
      → exec_update test change rows ≡ ok (rows, 0)
  exec_update-none test change rows f = rw (update_where-none test change rows f, exec_update) refl

  -- Which of the two errors the second statement gives: the order's id is in the table, deleted or
  -- not, or not.
  abbrev missing_or_conflict : UUID → List (Row p) → Error
  missing_or_conflict id rows =
      domain (
        if is_none (select_first (has_id id) rows)
        then order_not_found
        else concurrent_modification)

  -- Which error `Update` gives; where its parameters are not taken, the one of pgx or the server.
  abbrev pub refusal : Order p → Elems p.Float64 → List (Row p) → Error
  refusal o items rows =
      if takes_parameters o (arr items) then missing_or_conflict o.id rows else bad_parameter

  abbrev exists_answer : UUID → List (Row p) → Bool
  exists_answer u rows = not (is_none (select_first (λ r. uuid_eq r.id u) rows))

  after_update_refused :
      (o : Order p) (db : Database p)
      → (condition db).fault ≡ clear
      → ((after_update o zero db).0 ≡ err (missing_or_conflict o.id db.content))
        × ((after_update o zero db).1.content ≡ db.content)
  unfolding order_exists
  after_update_refused o db calm =
      let call = query_row (uuid_string o.id) exists_answer in
      let answer : call (condition db) db.content ≡ ok (db.content, exists_answer o.id db.content) =
        rw (p.column_uuid-string o.id) refl in
      rw (execute-clear call db db.content (exists_answer o.id db.content) calm answer)
        (elim (Option-cases (select_first (has_id o.id) db.content)) [
          | inl missing ↦ rw missing (refl, refl)
          | inr (r, there) ↦ rw there (refl, refl)
        ])

  update_marshalled_refused :
      (o : Order p) (items : Elems p.Float64) (db : Database p)
      → NoFault db
      → select_first (version_at o.id o.version) db.content ≡ none
      → ((update_marshalled o (some items) db).0 ≡ err (refusal o items db.content))
        × ((update_marshalled o (some items) db).1.content ≡ db.content)
  update_marshalled_refused o items db (calm, calm') stale =
      let call = update_statement o items in
      elim (Bool-cases (takes_parameters o (arr items))) [
        | inl taken ↦
            let answer : call (condition db) db.content ≡ ok (db.content, 0) =
              rw (taken, update_statement)
                (exec_update-none (version_at o.id o.version)
                  (updated_row o (arr items) (condition db).server_now) db.content stale) in
            rw (execute-clear call db db.content 0 calm answer, taken)
              (after_update_refused o (record db { executed = suc db.executed }) calm')
        | inr not_taken ↦
            let answer : call (condition db) db.content ≡ err bad_parameter =
              rw (not_taken, update_statement) refl in
            rw (execute-clear_err call db bad_parameter calm answer, not_taken) (refl, refl)
      ]

  -- Where the two statements meet no fault, `Update` of an order whose items can be written, and
  -- that is in the table at no live row of its version, changes nothing. Where its parameters are
  -- taken, it gives ErrConcurrentModification if the id is in the table, also if that row is
  -- deleted, and ErrOrderNotFound if it is not; else it gives the error of the parameters.
  pub update_refused :
      (o : Order p) (items : Elems p.Float64) (db : Database p)
      → NoFault db
      → marshal_items p o.items ≡ some items
      → select_first (version_at o.id o.version) db.content ≡ none
      → ((update o db).0 ≡ err (refusal o items db.content))
        × ((update o db).1.content ≡ db.content)
  unfolding update
  update_refused o items db calm m stale =
      rw (m, update) (update_marshalled_refused o items db calm stale)

  -- `Delete` of an id that no live row has changes nothing and gives ErrOrderNotFound.
  pub delete_refused :
      (id : String) (u : UUID) (db : Database p)
      → (condition db).fault ≡ clear
      → column_uuid id ≡ some u
      → select_first (live_at u) db.content ≡ none
      → ((delete id db).0 ≡ err (domain order_not_found)) × ((delete id db).1.content ≡ db.content)
  unfolding delete
  delete_refused id u db calm good missing =
      let c = condition db in
      let answer : delete_statement id c db.content ≡ ok (db.content, 0) =
        rw (good, delete_statement)
          (exec_update-none (live_at u) (deleted_row c.local_now c.server_now) db.content
            missing) in
      rw (execute-clear (delete_statement id) db db.content 0 calm answer) (refl, refl)
