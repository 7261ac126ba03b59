-- ===== src/Repository/Develops.antt =====
-- How the table may develop under the statements of the repository.
use go_ordersvc.Prelude.{
  ℕ, Bool, Option, some, List, ◌≡◌, ◌∙◌, inl, inr, arith, ap, Bool-cases, Option-cases,
}
use go_ordersvc.Json.{Json, Elems, arr}
use go_ordersvc.Platform.{Platform}
use go_ordersvc.Effect.{ok}
use go_ordersvc.Outside.{Condition}
use go_ordersvc.Domain.Order.{Order}
use go_ordersvc.Repository.Database.{Row, RowOrder, update_where}
use go_ordersvc.Repository.Postgres.{
  exec_update, insert_order, update_statement, takes_parameters, updated_row, version_at,
}
use go_ordersvc.Repository.History.{
  Progress, Progress-refl, Progress-trans, NeedsLive, Bumps, exec_update-Progress,
  insert_order-Progress,
}
use go_ordersvc.Repository.Table.{IsTable, KeepsRow, update_where-IsTable, insert_order-IsTable}

module _ {p : Platform} where
  -- No row is lost, a changed row has a higher version, and the constraints stay met.
  abbrev pub Develops : List (Row p) → List (Row p) → Type 0
  Develops rows rows' = Progress rows rows' × (IsTable rows → IsTable rows')

  pub Develops-refl : (rows : List (Row p)) → Develops rows rows
  Develops-refl rows = (Progress-refl rows, λ valid. valid)

  pub Develops-trans :
      (rows₁ rows₂ rows₃ : List (Row p))
      → Develops rows₁ rows₂
      → Develops rows₂ rows₃
      → Develops rows₁ rows₃
  Develops-trans rows₁ rows₂ rows₃ (f, v) (g, w) =
      (Progress-trans rows₁ rows₂ rows₃ f g, λ valid. w (v valid))

  pub exec_update-Develops :
      (test : Row p → Bool) (change : Row p → Option (Row p)) (rows rows' : List (Row p)) (n : ℕ)
      → NeedsLive test
      → Bumps change
      → KeepsRow change
      → exec_update test change rows ≡ ok (rows', n)
      → Develops rows rows'
  exec_update-Develops test change rows rows' n needs bumps keeps e = (
    exec_update-Progress test change rows rows' n needs bumps e,
    elim (Option-cases (update_where test change rows)) [
      | inl refused ↦ ground arith
      | inr (done, u) ↦
          let same : done ≡ (rows', n) = ground arith in
          update_where-IsTable test change (λ r r' c. (bumps r r' c).0) keeps rows rows' n
            (u ∙ ap some same)
    ],
  )

  pub insert_order-Develops :
      (o : Order p) (items : Json p.Float64) (c : Condition (RowOrder p))
      (rows rows' : List (Row p))
      → insert_order o items c rows ≡ ok (rows', tt)
      → Develops rows rows'
  insert_order-Develops o items c rows rows' e =
      (insert_order-Progress o items c rows rows' e, insert_order-IsTable o items c rows rows' e)

  -- An UPDATE that ends well has been given parameters that are taken.
  pub update_statement-eq-ok :
      (o : Order p) (items : Elems p.Float64) (c : Condition (RowOrder p))
      (rows rows' : List (Row p)) (n : ℕ)
      → update_statement o items c rows ≡ ok (rows', n)
      → exec_update (version_at o.id o.version) (updated_row o (arr items) c.server_now) rows
        ≡ ok (rows', n)
  update_statement-eq-ok o items c rows rows' n e =
      elim (Bool-cases (takes_parameters o (arr items))) [ inl taken ↦ cc | inr not_taken ↦ cc ]
