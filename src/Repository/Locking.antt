-- ===== src/Repository/Locking.antt =====
-- Optimistic locking: what a successful `Update` says of the table.
use go_ordersvc.Prelude.{
  some_unique, ℕ, zero, suc, Bool, true, false, String, Option, none, some, List, ◌≡◌, ◌∙◌, inl,
  inr, arith, subst, ap, sym,
}
use go_ordersvc.Prelude.Int.{ℤ, pos, ◌+ℤ◌, int64, pos_part, neg_part, eqb→eq, +ℤ_one}
use go_ordersvc.Json.{Json, Elems, arr}
use go_ordersvc.Json.Items.{marshal_items}
use go_ordersvc.Platform.{Platform}
use go_ordersvc.Effect.{ok, >>=-eq-ok}
use go_ordersvc.Outside.{condition}
use go_ordersvc.Outside.Keeps.{execute-eq-ok}
use go_ordersvc.Domain.Order.{Order}
use go_ordersvc.Repository.Database.{Row, Database, select_first, update_where, is_live}
use go_ordersvc.Repository.Postgres.{
  find_by_id, update, live_at, version_at, execute_update, after_update, update_marshalled,
  exec_update, updated_row, order_exists, conflict_or_missing,
}
use go_ordersvc.Repository.Rows.{has_id, Changed, find-update, update_where-suc}
use go_ordersvc.Repository.History.{Follows, updated_row-Bumps}
use go_ordersvc.Repository.Table.{IsTable, select_first_passes, find-id_of_found}
use go_ordersvc.Repository.Develops.{update_statement-eq-ok}
use go_ordersvc.Repository.Calls.{Call, run_calls, run_calls-Develops}
use go_ordersvc.Repository.Reads.{ReadFrom, find_by_id-eq-ok}

module _ {p : Platform} where
  open p use {UUID, uuid_eq, uuid_eq_iff, column_uuid}

  -- What the UPDATE statement of `Update` did where it affected a row.
  abbrev pub Updated : Order p → List (Row p) → List (Row p) → Type 0
  Updated o rows rows' =
      (r : Row p) × (r' : Row p) × (select_first (has_id o.id) rows ≡ some r)
      × (is_live r ≡ true)
      × (r.version ≡ o.version)
      × (select_first (has_id o.id) rows' ≡ some r')
      × (is_live r' ≡ true)
      × (r'.version ≡ r.version +ℤ pos 1)
      × (r'.status ≡ o.status)

  pub exec_update-eq-ok :
      (test : Row p → Bool) (change : Row p → Option (Row p)) (rows rows' : List (Row p)) (n : ℕ)
      → exec_update test change rows ≡ ok (rows', n)
      → update_where test change rows ≡ some (rows', n)
  exec_update-eq-ok test change rows rows' n e = ground arith

  version_at-parts :
      (id : UUID) (v : ℤ) (r : Row p)
      → version_at id v r ≡ true
      → (r.id ≡ id) × (r.version ≡ v) × (is_live r ≡ true)
  version_at-parts id v r h = ground (arith, uuid_eq_iff r.id id, eqb→eq r.version v)

  -- The row that the UPDATE makes has the values of the order and the next version.
  updated_row-parts :
      (o : Order p) (items : Json p.Float64) (now : ℕ) (r r' : Row p)
      → is_live r ≡ true
      → Changed (version_at o.id o.version) (updated_row o items now) r r'
      → version_at o.id o.version r ≡ true
      → (is_live r' ≡ true) × (r'.version ≡ r.version +ℤ pos 1) × (r'.status ≡ o.status)
  updated_row-parts o items now r r' live (inl (miss, e)) hit = ground arith
  updated_row-parts o items now r r' live (inr (_, c)) hit = ground arith

  exec_update-Updated :
      (o : Order p) (items : Elems p.Float64) (now : ℕ) (rows rows' : List (Row p)) (n : ℕ)
      → IsTable rows
      → exec_update (version_at o.id o.version) (updated_row o (arr items) now) rows
        ≡ ok (rows', suc n)
      → Updated o rows rows'
  exec_update-Updated o items now rows rows' n valid e =
      let test : Row p → Bool = version_at o.id o.version in
      let change : Row p → Option (Row p) = updated_row o (arr items) now in
      let u = exec_update-eq-ok test change rows rows' (suc n) e in
      let (r, found) = update_where-suc test change rows rows' n u in
      let hit = select_first_passes test rows r found in
      let (same_id, same_version, live) = version_at-parts o.id o.version r hit in
      let by_id =
        subst (λ i. select_first (has_id i) rows ≡ some r) same_id
          (find-id_of_found test rows r valid found) in
      let (r', found', changed) =
        find-update test change (λ s s' c. (updated_row-Bumps o (arr items) now s s' c).0) o.id r
          rows rows' (suc n) by_id u in
      let (live', version', status') = updated_row-parts o (arr items) now r r' live changed hit in
      (r, r', by_id, live, same_version, found', live', version', status')

  -- `Update` fails where no row was affected.
  after_update_none :
      (o saved : Order p) (db : Database p) → (after_update o zero db).0 ≡ ok saved → ⊥
  after_update_none o saved db h =
      let (exists, _, ended, _) =
        >>=-eq-ok (order_exists (p.uuid_string o.id)) conflict_or_missing db h in
      refuse exists _ ended
    where
      refuse :
          (exists : Bool) (db' : Database p) → (conflict_or_missing exists db').0 ≡ ok saved → ⊥
      refuse true db' e = cc
      refuse false db' e = cc

  -- The order that `Update` returns.
  abbrev pub next_version : Order p → Order p
  next_version o = record o { version = int64 (o.version +ℤ pos 1) }

  update_from :
      (o saved : Order p) (items : Elems p.Float64) (db db' : Database p) (n : ℕ)
      → IsTable db.content
      → exec_update
          (version_at o.id o.version)
          (updated_row o (arr items) (condition db).server_now)
          db.content
        ≡ ok (db'.content, n)
      → (after_update o n db').0 ≡ ok saved
      → Updated o db.content (after_update o n db').1.content × (saved ≡ next_version o)
  update_from o saved items db db' zero valid e h = absurd (after_update_none o saved db' h)
  update_from o saved items db db' (suc n) valid e h = (
    exec_update-Updated o items (condition db).server_now db.content db'.content n valid e,
    ground arith,
  )

  update_marshalled-eq-ok :
      (o saved : Order p) (items : Option (Elems p.Float64)) (db : Database p)
      → IsTable db.content
      → (update_marshalled o items db).0 ≡ ok saved
      → Updated o db.content (update_marshalled o items db).1.content × (saved ≡ next_version o)
  update_marshalled-eq-ok o saved none db valid h = cc
  update_marshalled-eq-ok o saved (some items) db valid h =
      let (n, ran, after, same) = >>=-eq-ok (execute_update o items) (after_update o) db h in
      rw same (
        update_from o saved items db (execute_update o items db).1 n valid
          (update_statement-eq-ok o items (condition db) db.content _ n (execute-eq-ok _ db n ran))
          after)

  -- A compare-and-swap: where `Update` succeeds on a table that meets its constraints, the order's
  -- row was live at exactly the order's version; afterwards it has the order's status and the next
  -- version, and the order comes back with the next version.
  pub update-Updated :
      (o saved : Order p) (db : Database p)
      → IsTable db.content
      → (update o db).0 ≡ ok saved
      → Updated o db.content (update o db).1.content × (saved ≡ next_version o)
  unfolding update
  update-Updated o saved db valid h =
      update_marshalled-eq-ok o saved (marshal_items p o.items) db valid h

  Follows-same_version : (r r' : Row p) → Follows r r' → r'.version ≡ r.version → r' ≡ r
  Follows-same_version r r' (inl same) e = same
  Follows-same_version r r' (inr (_, grown)) e =
      absurd (omega (arith, +ℤ_one r.version, ap pos_part e, ap neg_part e))

  -- No lost update: an order is read, any other clients make any calls, and then an order with the
  -- id and the version that were read is written. Where the write succeeds, the row that it
  -- replaced is the very row that was read.
  pub no_lost_update :
      (id : String) (o changed saved : Order p) (calls : List (Call p)) (db : Database p)
      → IsTable db.content
      → (find_by_id id db).0 ≡ ok (some o)
      → changed.id ≡ o.id
      → changed.version ≡ o.version
      → (update changed (run_calls calls db)).0 ≡ ok saved
      → (r : Row p) × ReadFrom r o
        × (select_first (has_id o.id) db.content ≡ some r)
        × (select_first (has_id o.id) (run_calls calls db).content ≡ some r)
  no_lost_update id o changed saved calls db valid read same_id same_version wrote =
      let (r, found, from, _) = find_by_id-eq-ok id db o read in
      let at_id : select_first (has_id r.id) db.content ≡ some r =
        find-id_of_found (live_at r.id) db.content r valid found in
      let (progress, keeps) = run_calls-Develops calls db in
      let (r', found', follows) = progress r.id r at_id in
      let swapped = (update-Updated changed saved (run_calls calls db) (keeps valid) wrote).0 in
      let r₁ = swapped.0 in
      let found₁ = swapped.2 in
      let version₁ = swapped.4 in
      let ids : changed.id ≡ r.id = same_id ∙ from.0 in
      let met : r₁ ≡ r' =
        some_unique
          (subst (λ i. select_first (has_id i) (run_calls calls db).content ≡ some r₁) ids found₁)
          found' in
      let unchanged : r' ≡ r =
        Follows-same_version r r' follows
          (sym (ap (λ (s : Row p). s.version) met) ∙ version₁ ∙ same_version ∙ from.1) in
      (r, from, rw from.0 at_id, rw from.0 (found' ∙ ap some unchanged))
