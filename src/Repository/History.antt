-- ===== src/Repository/History.antt =====
-- How the rows of the table develop: none is lost, and a row that changes takes a higher version.
use go_ordersvc.Prelude.{
  ℕ, Bool, true, Option, none, some, List, ◌∷◌, ◌≡◌, refl, sym, ◌∙◌, ◌⊎◌, inl, inr, subst, arith,
  Bool-cases, Option-cases, ap,
}
use go_ordersvc.Prelude.Int.{pos, ◌+ℤ◌, ◌≤ℤ◌, +ℤ_one}
use go_ordersvc.Json.{Json}
use go_ordersvc.Platform.{Platform}
use go_ordersvc.Effect.{ok}
use go_ordersvc.Outside.{Condition}
use go_ordersvc.Domain.Order.{Order}
use go_ordersvc.Repository.Database.{Row, RowOrder, is_live, select_first, update_where}
use go_ordersvc.Repository.Postgres.{
  updated_row, deleted_row, inserted_row, exec_update, insert_order,
}
use go_ordersvc.Repository.Rows.{has_id, Changed, find-update}

module _ {p : Platform} where
  open p use {UUID, uuid_eq, uuid_eq_iff}

  -- The row is as it was, or it was not deleted and its version has grown.
  abbrev pub Follows : Row p → Row p → Type 0
  Follows r r' = (r' ≡ r) ⊎ ((is_live r ≡ true) × (r.version +ℤ pos 1 ≤ℤ r'.version))

  -- Every row is still there, and follows what it was.
  abbrev pub Progress : List (Row p) → List (Row p) → Type 0
  Progress rows rows' =
      (id : UUID) (r : Row p)
      → select_first (has_id id) rows ≡ some r
      → (r' : Row p) × (select_first (has_id id) rows' ≡ some r') × Follows r r'

  pub Progress-refl : (rows : List (Row p)) → Progress rows rows
  Progress-refl rows id r found = (r, found, inl refl)

  Follows-trans : (a b c : Row p) → Follows a b → Follows b c → Follows a c
  Follows-trans a b c (inl e) (inl f) = inl (f ∙ e)
  Follows-trans a b c (inl e) (inr (live, f)) =
      inr (rw (← e) live, subst (λ (s : Row p). s.version +ℤ pos 1 ≤ℤ c.version) e f)
  Follows-trans a b c (inr (live, e)) (inl f) = inr (live, rw f e)
  Follows-trans a b c (inr (live, e)) (inr (_, f)) =
      inr (live, omega (arith, +ℤ_one a.version, +ℤ_one b.version))

  pub Progress-trans :
      (rows₁ rows₂ rows₃ : List (Row p))
      → Progress rows₁ rows₂
      → Progress rows₂ rows₃
      → Progress rows₁ rows₃
  Progress-trans rows₁ rows₂ rows₃ first second id r found =
      let (r', found', f) = first id r found in
      let (r'', found'', g) = second id r' found' in (r'', found'', Follows-trans r r' r'' f g)

  -- The WHERE of both UPDATE statements leaves deleted rows out.
  abbrev pub NeedsLive : (Row p → Bool) → Type 0
  NeedsLive test = (r : Row p) → test r ≡ true → is_live r ≡ true

  -- What the two UPDATE statements make of a row.
  abbrev pub Bumps : (Row p → Option (Row p)) → Type 0
  Bumps change =
      (r r' : Row p) → change r ≡ some r' → (r'.id ≡ r.id) × (r'.version ≡ r.version +ℤ pos 1)

  pub updated_row-Bumps :
      (o : Order p) (items : Json p.Float64) (now : ℕ) → Bumps (updated_row o items now)
  updated_row-Bumps o items now r r' h = ground arith

  pub deleted_row-Bumps : (local_now server_now : ℕ) → Bumps (deleted_row local_now server_now)
  deleted_row-Bumps local_now server_now r r' h = ground arith

  update_where-Progress :
      (test : Row p → Bool) (change : Row p → Option (Row p)) (rows rows' : List (Row p)) (n : ℕ)
      → NeedsLive test
      → Bumps change
      → update_where test change rows ≡ some (rows', n)
      → Progress rows rows'
  update_where-Progress test change rows rows' n needs bumps u id r found =
      let (r', found', changed) =
        find-update test change (λ s s' c. (bumps s s' c).0) id r rows rows' n found u in
      (r', found', follows r r' changed)
    where
      follows : (s s' : Row p) → Changed test change s s' → Follows s s'
      follows s s' (inl (miss, e)) = inl e
      follows s s' (inr (hit, c)) = inr (needs s hit, rw (bumps s s' c).1 (omega arith))

  pub exec_update-Progress :
      (test : Row p → Bool) (change : Row p → Option (Row p)) (rows rows' : List (Row p)) (n : ℕ)
      → NeedsLive test
      → Bumps change
      → exec_update test change rows ≡ ok (rows', n)
      → Progress rows rows'
  exec_update-Progress test change rows rows' n needs bumps e =
      elim (Option-cases (update_where test change rows)) [
        | inl refused ↦ ground arith
        | inr (done, u) ↦
            let same : done ≡ (rows', n) = ground arith in
            update_where-Progress test change rows rows' n needs bumps (u ∙ ap some same)
      ]

  -- An INSERT that went through has put one row in front, whose id was not there.
  pub insert_order-eq-ok :
      (o : Order p) (items : Json p.Float64) (c : Condition (RowOrder p))
      (rows rows' : List (Row p))
      → insert_order o items c rows ≡ ok (rows', tt)
      → (r : Row p) × (inserted_row o items ≡ some r)
        × (rows' ≡ r ∷ rows)
        × (select_first (has_id o.id) rows ≡ none)
  insert_order-eq-ok o items c rows rows' e = elim (Option-cases (inserted_row o items)) [
    | inl refused ↦ ground arith
    | inr (r, made) ↦ elim (Option-cases (select_first (has_id o.id) rows)) [
      | inl new ↦ (r, made, ground arith, new)
      | inr (old, taken) ↦ ground arith
    ]
  ]

  pub inserted_row-id :
      (o : Order p) (items : Json p.Float64) (r : Row p)
      → inserted_row o items ≡ some r
      → r.id ≡ o.id
  inserted_row-id o items r h = ground arith

  pub insert_order-Progress :
      (o : Order p) (items : Json p.Float64) (c : Condition (RowOrder p))
      (rows rows' : List (Row p))
      → insert_order o items c rows ≡ ok (rows', tt)
      → Progress rows rows'
  insert_order-Progress o items c rows rows' e id r found =
      let (r₀, made, front, new) = insert_order-eq-ok o items c rows rows' e in
      elim (Bool-cases (uuid_eq r₀.id id)) [
        | inl clash ↦
            let same : o.id ≡ id =
              sym (inserted_row-id o items r₀ made) ∙ (uuid_eq_iff r₀.id id).0 clash in
            absurd (ground (arith, subst (λ i. select_first (has_id i) rows ≡ none) same new))
        | inr other ↦ (r, rw (front, other) found, inl refl)
      ]
