-- ===== src/Repository/Deletion.antt =====
-- Soft deletion: what a successful `Delete` says of the table, and that it is final.
use go_ordersvc.Prelude.{
  ℕ, zero, suc, true, false, String, Option, some, List, ◌≡◌, ◌∙◌, ◌≢◌, inl, inr, arith, subst,
  Option-cases, some_unique, true_and_false,
}
use go_ordersvc.Prelude.Int.{pos, ◌+ℤ◌}
use go_ordersvc.Platform.{Platform}
use go_ordersvc.Effect.{ok, >>=-eq-ok}
use go_ordersvc.Outside.{Condition, condition}
use go_ordersvc.Outside.Keeps.{execute-eq-ok}
use go_ordersvc.Domain.Order.{Order}
use go_ordersvc.Repository.Database.{Row, RowOrder, Database, select_first, is_live}
use go_ordersvc.Repository.Postgres.{
  find_by_id, delete, live_at, execute_delete, after_delete, exec_update, deleted_row,
  delete_statement,
}
use go_ordersvc.Repository.Rows.{has_id, Changed, find-update, update_where-suc}
use go_ordersvc.Repository.History.{Follows, deleted_row-Bumps}
use go_ordersvc.Repository.Table.{IsTable, select_first_passes, find-id_of_found}
use go_ordersvc.Repository.Locking.{exec_update-eq-ok}
use go_ordersvc.Repository.Reads.{live_at-id, find_by_id-eq-ok}
use go_ordersvc.Repository.Methods.{delete-Develops}
use go_ordersvc.Repository.Calls.{Call, run_calls, run_calls-Develops}

module _ {p : Platform} where
  open p use {UUID, uuid_eq, uuid_eq_iff, column_uuid}

  -- What `Delete` did to the row of an id.
  abbrev pub Deleted : UUID → List (Row p) → List (Row p) → Type 0
  Deleted u rows rows' =
      (r : Row p) × (r' : Row p) × (select_first (has_id u) rows ≡ some r)
      × (is_live r ≡ true)
      × (select_first (has_id u) rows' ≡ some r')
      × (is_live r' ≡ false)
      × (r'.version ≡ r.version +ℤ pos 1)
      × (r'.status ≡ r.status)

  deleted_row-parts :
      (u : UUID) (local_now server_now : ℕ) (r r' : Row p)
      → live_at u r ≡ true
      → Changed (live_at u) (deleted_row local_now server_now) r r'
      → (is_live r' ≡ false) × (r'.version ≡ r.version +ℤ pos 1) × (r'.status ≡ r.status)
  deleted_row-parts u local_now server_now r r' hit (inl (miss, e)) = ground arith
  deleted_row-parts u local_now server_now r r' hit (inr (_, c)) = ground arith

  live_at-live : (u : UUID) (r : Row p) → live_at u r ≡ true → is_live r ≡ true
  live_at-live u r h = ground arith

  exec_update-Deleted :
      (u : UUID) (local_now server_now : ℕ) (rows rows' : List (Row p)) (n : ℕ)
      → IsTable rows
      → exec_update (live_at u) (deleted_row local_now server_now) rows ≡ ok (rows', suc n)
      → Deleted u rows rows'
  exec_update-Deleted u local_now server_now rows rows' n valid e =
      let change : Row p → Option (Row p) = deleted_row local_now server_now in
      let done = exec_update-eq-ok (live_at u) change rows rows' (suc n) e in
      let (r, found) = update_where-suc (live_at u) change rows rows' n done in
      let hit = select_first_passes (live_at u) rows r found in
      let by_id =
        subst (λ i. select_first (has_id i) rows ≡ some r) (live_at-id u r hit)
          (find-id_of_found (live_at u) rows r valid found) in
      let (r', found', changed) =
        find-update (live_at u) change (λ s s' c. (deleted_row-Bumps local_now server_now s s' c).0)
          u r rows rows' (suc n) by_id done in
      let (gone, version', status') = deleted_row-parts u local_now server_now r r' hit changed in
      (r, r', by_id, live_at-live u r hit, found', gone, version', status')

  pub delete_statement-eq-ok :
      (id : String) (c : Condition (RowOrder p)) (rows rows' : List (Row p)) (n : ℕ)
      → delete_statement id c rows ≡ ok (rows', n)
      → (u : UUID) × (column_uuid id ≡ some u)
        × (exec_update (live_at u) (deleted_row c.local_now c.server_now) rows ≡ ok (rows', n))
  delete_statement-eq-ok id c rows rows' n h = elim (Option-cases (column_uuid id)) [
    | inl bad ↦ ground arith
    | inr (u, good) ↦ (u, good, ground arith)
  ]

  delete_from :
      (id : String) (db db' : Database p) (n : ℕ)
      → IsTable db.content
      → delete_statement id (condition db) db.content ≡ ok (db'.content, n)
      → (after_delete n db').0 ≡ ok tt
      → (u : UUID) × (column_uuid id ≡ some u) × Deleted u db.content (after_delete n db').1.content
  delete_from id db db' zero valid ran ended = cc
  delete_from id db db' (suc n) valid ran ended =
      let (u, good, e) =
        delete_statement-eq-ok id (condition db) db.content db'.content (suc n) ran in
      (
        u,
        good,
        exec_update-Deleted u (condition db).local_now (condition db).server_now db.content
            db'.content n valid e,
      )

  -- Where `Delete` succeeds, the text is a UUID whose row was live, and that row is now marked as
  -- deleted, with the next version and the status that it had.
  pub delete-Deleted :
      (id : String) (db : Database p)
      → IsTable db.content
      → (delete id db).0 ≡ ok tt
      → (u : UUID) × (column_uuid id ≡ some u) × Deleted u db.content (delete id db).1.content
  unfolding delete
  delete-Deleted id db valid h =
      let (n, ran, ended, same) = >>=-eq-ok (execute_delete id) after_delete db h in
      rw same (
        delete_from id db (execute_delete id db).1 n valid
          (execute-eq-ok (delete_statement id) db n ran) ended)

  Follows-deleted : (r r' : Row p) → Follows r r' → is_live r ≡ false → r' ≡ r
  Follows-deleted r r' (inl same) gone = same
  Follows-deleted r r' (inr (live, _)) gone = cc

  -- Deletion is final: after a successful `Delete`, whatever calls any clients make, a read for the
  -- same text never finds an order.
  pub delete-final :
      (id : String) (calls : List (Call p)) (db : Database p) (o : Order p)
      → IsTable db.content
      → (delete id db).0 ≡ ok tt
      → (find_by_id id (run_calls calls (delete id db).1)).0 ≢ ok (some o)
  delete-final id calls db o valid done read =
      let (u, good, (_, r, _, _, at_u, gone, _, _)) = delete-Deleted id db valid done in
      let after = (delete id db).1 in
      let (progress, keeps) = run_calls-Develops calls after in
      let valid' = (delete-Develops id db).1 valid in
      let (r', at_u', follows) = progress u r at_u in
      let frozen : r' ≡ r = Follows-deleted r r' follows gone in
      let (f, found, _, named) = find_by_id-eq-ok id (run_calls calls after) o read in
      let hit = select_first_passes (live_at f.id) _ f found in
      let same_id : u ≡ f.id = some_unique good named in
      let at_f : select_first (has_id f.id) (run_calls calls after).content ≡ some f =
        find-id_of_found (live_at f.id) _ f (keeps valid') found in
      let met : f ≡ r' = some_unique at_f (
        subst (λ i. select_first (has_id i) (run_calls calls after).content ≡ some r') same_id
          at_u') in
      let live : is_live r ≡ true =
        subst (λ (s : Row p). is_live s ≡ true) (met ∙ frozen) (live_at-live f.id f hit) in
      absurd (true_and_false (is_live r) live gone)
