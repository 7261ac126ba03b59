-- ===== src/Repository/Traffic/Moves.antt =====
-- How the statuses of the rows move under the statements of the repository.
use go_ordersvc.Prelude.{
  ℕ, Bool, true, Option, none, some, List, ◌∷◌, ◌≡◌, refl, sym, ◌∙◌, inl, inr, ap, subst, arith,
  Bool-cases, Option-cases, some_unique,
}
use go_ordersvc.Json.{Json}
use go_ordersvc.Platform.{Platform}
use go_ordersvc.Effect.{ok}
use go_ordersvc.Outside.{Condition}
use go_ordersvc.Domain.Status.{OrderStatus, pending}
use go_ordersvc.Domain.Order.{Order}
use go_ordersvc.Repository.Database.{Row, RowOrder, select_first, update_where}
use go_ordersvc.Repository.Postgres.{inserted_row, insert_order, exec_update, deleted_row, live_at}
use go_ordersvc.Repository.Rows.{has_id, Changed, find-update, find_none-update}
use go_ordersvc.Repository.History.{Bumps, insert_order-eq-ok, deleted_row-Bumps}
use go_ordersvc.Repository.Develops.{Develops, Develops-refl, Develops-trans}
use go_ordersvc.Repository.Locking.{exec_update-eq-ok}
use go_ordersvc.Repository.Traffic.{IsAllowed}

infix 40 ◌⇝◌
-- Any number of allowed changes of a status.
pub data ◌⇝◌ (s : OrderStatus) : OrderStatus → Type 0 where
  same : s ⇝ s
  after : (t u : OrderStatus) → s ⇝ t → IsAllowed t u → s ⇝ u

pub ⇝-trans : {s t u : OrderStatus} → s ⇝ t → t ⇝ u → s ⇝ u
⇝-trans a same = a
⇝-trans a (after t u b c) = after t u (⇝-trans a b) c

module _ {p : Platform} where
  -- Where a row's status came from: the row of its id before, or, for a new one, pending.
  abbrev pub Came : Option (Row p) → OrderStatus → Type 0
  Came none t = pending ⇝ t
  Came (some r) t = r.status ⇝ t

  abbrev pub Moves : List (Row p) → List (Row p) → Type 0
  Moves rows rows' =
      (id : p.UUID) (r' : Row p)
      → select_first (has_id id) rows' ≡ some r'
      → Came (select_first (has_id id) rows) r'.status

  -- No row is lost, and the statuses have moved by allowed changes.
  abbrev pub Evolves : List (Row p) → List (Row p) → Type 0
  Evolves rows rows' = Develops rows rows' × Moves rows rows'

  Moves-refl : (rows : List (Row p)) → Moves rows rows
  Moves-refl rows id r' found = rw found same

  pub Evolves-refl : (rows : List (Row p)) → Evolves rows rows
  Evolves-refl rows = (Develops-refl rows, Moves-refl rows)

  Came-trans :
      (before middle : Option (Row p)) (t : OrderStatus)
      → ((r : Row p) → middle ≡ some r → Came before r.status)
      → ((r : Row p) → before ≡ some r → (r' : Row p) × (middle ≡ some r'))
      → Came middle t
      → Came before t
  Came-trans none none t first kept later = later
  Came-trans (some r) none t first kept later = let (r', e) = kept r refl in absurd (cc e)
  Came-trans none (some r) t first kept later = ⇝-trans (first r refl) later
  Came-trans (some r₀) (some r) t first kept later = ⇝-trans (first r refl) later

  pub Evolves-trans :
      (rows₁ rows₂ rows₃ : List (Row p))
      → Evolves rows₁ rows₂
      → Evolves rows₂ rows₃
      → Evolves rows₁ rows₃
  Evolves-trans rows₁ rows₂ rows₃ (d, m) (e, n) = (
    Develops-trans rows₁ rows₂ rows₃ d e,
    λ id r'' found.
        Came-trans (select_first (has_id id) rows₁) (select_first (has_id id) rows₂) r''.status
          (m id) (λ r at. let (r', at', _) = d.0 id r at in (r', at')) (n id r'' found),
  )

  -- An UPDATE all of whose changes are allowed.
  pub update_where-Moves :
      (test : Row p → Bool) (change : Row p → Option (Row p)) (rows rows' : List (Row p)) (n : ℕ)
      → Bumps change
      → ((id : p.UUID) (r r' : Row p)
          → select_first (has_id id) rows ≡ some r
          → test r ≡ true
          → change r ≡ some r'
          → IsAllowed r.status r'.status)
      → update_where test change rows ≡ some (rows', n)
      → Moves rows rows'
  update_where-Moves test change rows rows' n bumps allowed u id r' found =
      let keep = λ (s s' : Row p) (c : change s ≡ some s'). (bumps s s' c).0 in
      elim (Option-cases (select_first (has_id id) rows)) [
        | inl missing ↦
            let still = find_none-update test change keep id rows rows' n missing u in
            absurd (cc (still, found))
        | inr (r, at) ↦
            let (r'', found'', changed) = find-update test change keep id r rows rows' n at u in
            let met : r'' ≡ r' = some_unique found'' found in
            rw at (subst (λ (s : Row p). r.status ⇝ s.status) met (moved r r'' at changed))
      ]
    where
      moved :
          (r r'' : Row p)
          → select_first (has_id id) rows ≡ some r
          → Changed test change r r''
          → r.status ⇝ r''.status
      moved r r'' at (inl (miss, e)) = subst (λ (s : Row p). r.status ⇝ s.status) (sym e) same
      moved r r'' at (inr (hit, c)) = after r.status r''.status same (allowed id r r'' at hit c)

  pub exec_update-Moves :
      (test : Row p → Bool) (change : Row p → Option (Row p)) (rows rows' : List (Row p)) (n : ℕ)
      → Bumps change
      → ((id : p.UUID) (r r' : Row p)
          → select_first (has_id id) rows ≡ some r
          → test r ≡ true
          → change r ≡ some r'
          → IsAllowed r.status r'.status)
      → exec_update test change rows ≡ ok (rows', n)
      → Moves rows rows'
  exec_update-Moves test change rows rows' n bumps allowed e =
      update_where-Moves test change rows rows' n bumps allowed
        (exec_update-eq-ok test change rows rows' n e)

  deleted_row-IsAllowed :
      (local_now server_now : ℕ) (r r' : Row p)
      → deleted_row local_now server_now r ≡ some r'
      → IsAllowed r.status r'.status
  deleted_row-IsAllowed local_now server_now r r' c = inl (ground arith)

  pub exec_delete-Moves :
      (u : p.UUID) (local_now server_now : ℕ) (rows rows' : List (Row p)) (n : ℕ)
      → exec_update (live_at u) (deleted_row local_now server_now) rows ≡ ok (rows', n)
      → Moves rows rows'
  exec_delete-Moves u local_now server_now rows rows' n e =
      exec_update-Moves (live_at u) (deleted_row local_now server_now) rows rows' n
        (deleted_row-Bumps local_now server_now)
        (λ id r r' at hit c. deleted_row-IsAllowed local_now server_now r r' c) e

  inserted_row-parts :
      (o : Order p) (items : Json p.Float64) (r : Row p)
      → inserted_row o items ≡ some r
      → (r.id ≡ o.id) × (r.status ≡ o.status)
  inserted_row-parts o items r h = ground arith

  -- A new order that is pending.
  pub insert_order-Moves :
      (o : Order p) (items : Json p.Float64) (c : Condition (RowOrder p))
      (rows rows' : List (Row p))
      → o.status ≡ pending
      → insert_order o items c rows ≡ ok (rows', tt)
      → Moves rows rows'
  insert_order-Moves o items c rows rows' fresh e id r' found =
      let (r, made, front, new) = insert_order-eq-ok o items c rows rows' e in
      let (same_id, same_status) = inserted_row-parts o items r made in
      let found' : select_first (has_id id) (r ∷ rows) ≡ some r' = rw front at found in
      elim (Bool-cases (p.uuid_eq r.id id)) [
        | inl here ↦
            let missing : select_first (has_id id) rows ≡ none =
              subst (λ i. select_first (has_id i) rows ≡ none)
                (sym same_id ∙ (p.uuid_eq_iff r.id id).0 here) new in
            let met : r ≡ r' = ground arith in
            rw missing (
              subst (λ t. pending ⇝ t)
                (sym (same_status ∙ fresh) ∙ ap (λ (s : Row p). s.status) met) same)
        | inr other ↦
            let later : select_first (has_id id) rows ≡ some r' = ground arith in rw later same
      ]
