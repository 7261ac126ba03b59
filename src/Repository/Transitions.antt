-- ===== src/Repository/Transitions.antt =====
-- A change of an order's status from the read to the write, with other clients in between.
use go_ordersvc.Prelude.{String, some, List, ◌≡◌, ◌∙◌, sym, ap, subst, some_unique}
use go_ordersvc.Prelude.Int.{pos, ◌+ℤ◌}
use go_ordersvc.Platform.{Platform}
use go_ordersvc.Effect.{ok}
use go_ordersvc.Domain.Lifecycle.{◌⟶◌}
use go_ordersvc.Domain.Order.{Order}
use go_ordersvc.Repository.Database.{Row, Database, select_first}
use go_ordersvc.Repository.Postgres.{find_by_id, update}
use go_ordersvc.Repository.Rows.{has_id}
use go_ordersvc.Repository.Table.{IsTable}
use go_ordersvc.Repository.Calls.{Call, run_calls, run_calls-Develops}
use go_ordersvc.Repository.Locking.{no_lost_update, update-Updated}

module _ {p : Platform} where
  -- The row of an id before and after a step along the state machine.
  abbrev pub Steps : p.UUID → List (Row p) → List (Row p) → Type 0
  Steps id rows rows' =
      (r : Row p) × (r' : Row p) × (select_first (has_id id) rows ≡ some r)
      × (select_first (has_id id) rows' ≡ some r')
      × (r.status ⟶ r'.status)
      × (r'.version ≡ r.version +ℤ pos 1)

  -- An order is read, other clients make any calls, and the order is written with a status that the
  -- state machine allows after the one that was read, whatever else of it changed. Where the write
  -- succeeds, the row went along that very step, from the status that it had just before the write.
  pub transition-Steps :
      (id : String) (o changed saved : Order p) (calls : List (Call p)) (db : Database p)
      → IsTable db.content
      → (find_by_id id db).0 ≡ ok (some o)
      → changed.id ≡ o.id
      → changed.version ≡ o.version
      → o.status ⟶ changed.status
      → (update changed (run_calls calls db)).0 ≡ ok saved
      → Steps o.id (run_calls calls db).content (update changed (run_calls calls db)).1.content
  transition-Steps id o changed saved calls db valid read same_id same_version step wrote =
      let (r, from, _, before) =
        no_lost_update id o changed saved calls db valid read same_id same_version wrote in
      let (updated, _) =
        update-Updated changed saved (run_calls calls db) ((run_calls-Develops calls db).1 valid)
          wrote in
      let (r₁, r', found, _, _, after, _, next, status) = updated in
      let met : r₁ ≡ r =
        some_unique
          (subst (λ i. select_first (has_id i) (run_calls calls db).content ≡ some r₁) same_id
            found)
          before in
      (
        r,
        r',
        before,
        subst
            (λ i. select_first (has_id i) (update changed (run_calls calls db)).1.content ≡ some r')
            same_id after,
        subst (λ t. r.status ⟶ t) (sym status) (subst (λ t. t ⟶ changed.status) (from.2) step),
        next ∙ ap (λ (s : Row p). s.version +ℤ pos 1) met,
      )
