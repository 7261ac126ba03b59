-- ===== src/Repository/Table.antt =====
-- The constraints of the table: the primary key, and the checks on status and version.
use go_ordersvc.Prelude.{
  ℕ, Bool, true, Option, none, some, List, [], ◌∷◌, ◌≡◌, refl, inl, inr, arith, subst, ap, sym,
  Bool-cases,
}
use go_ordersvc.Json.{Json}
use go_ordersvc.Platform.{Platform}
use go_ordersvc.Effect.{ok}
use go_ordersvc.Outside.{Condition}
use go_ordersvc.Domain.Order.{Order}
use go_ordersvc.Repository.Database.{
  Row, RowOrder, select_first, update_where, is_status, is_version,
}
use go_ordersvc.Repository.Postgres.{updated_row, deleted_row, inserted_row, insert_order}
use go_ordersvc.Repository.Rows.{has_id, Changed, update_where-cons, find_none-update}
use go_ordersvc.Repository.History.{insert_order-eq-ok, inserted_row-id}

module _ {p : Platform} where
  open p use {UUID, uuid_eq, uuid_eq_iff}

  -- The checks `valid_status` and `positive_version`, with the range of the column.
  abbrev pub IsRow : Row p → Type 0
  IsRow r = (is_status r.status ≡ true) × (is_version r.version ≡ true)

  -- The checks of every row, and no id twice.
  abbrev pub IsTable : List (Row p) → Type 0
  IsTable [] = Unit
  IsTable (r ∷ rows) = (select_first (has_id r.id) rows ≡ none) × IsRow r × IsTable rows

  -- A change that keeps the id and the checks.
  abbrev pub KeepsRow : (Row p → Option (Row p)) → Type 0
  KeepsRow change = (r r' : Row p) → change r ≡ some r' → IsRow r → (r'.id ≡ r.id) × IsRow r'

  pub updated_row-KeepsRow :
      (o : Order p) (items : Json p.Float64) (now : ℕ) → KeepsRow (updated_row o items now)
  updated_row-KeepsRow o items now r r' h valid = ground arith

  pub deleted_row-KeepsRow :
      (local_now server_now : ℕ) → KeepsRow (deleted_row local_now server_now)
  deleted_row-KeepsRow local_now server_now r r' h valid = ground arith

  inserted_row-IsRow :
      (o : Order p) (items : Json p.Float64) (r : Row p) → inserted_row o items ≡ some r → IsRow r
  inserted_row-IsRow o items r h = ground arith

  pub insert_order-IsTable :
      (o : Order p) (items : Json p.Float64) (c : Condition (RowOrder p))
      (rows rows' : List (Row p))
      → insert_order o items c rows ≡ ok (rows', tt)
      → IsTable rows
      → IsTable rows'
  insert_order-IsTable o items c rows rows' e valid =
      let (r, made, front, new) = insert_order-eq-ok o items c rows rows' e in
      rw front (rw (inserted_row-id o items r made) new, inserted_row-IsRow o items r made, valid)

  module _ (test : Row p → Bool) (change : Row p → Option (Row p))
      (keeps_id : (r r' : Row p) → change r ≡ some r' → r'.id ≡ r.id)
      (keeps : KeepsRow change) where
    pub update_where-IsTable :
        (rows rows' : List (Row p)) (n : ℕ)
        → update_where test change rows ≡ some (rows', n)
        → IsTable rows
        → IsTable rows'
    update_where-IsTable [] rows' n u valid = ground arith
    update_where-IsTable (x ∷ rows) rows' n u (unique, row, valid) =
        let (x', rest, m, e, made, changed, _) = update_where-cons test change x rows rows' n u in
        let (same_id, row') = kept x x' changed row in
        rw made (
          rw same_id (find_none-update test change keeps_id x.id rows rest m unique e),
          row',
          update_where-IsTable rows rest m e valid,
        )
      where
        kept : (s s' : Row p) → Changed test change s s' → IsRow s → (s'.id ≡ s.id) × IsRow s'
        kept s s' (inl (miss, e)) v = (ap (λ (t : Row p). t.id) e, subst IsRow (sym e) v)
        kept s s' (inr (hit, c)) v = keeps s s' c v

  pub select_first_passes :
      (test : Row p → Bool) (rows : List (Row p)) (r : Row p)
      → select_first test rows ≡ some r
      → test r ≡ true
  select_first_passes test [] r f = ground arith
  select_first_passes test (x ∷ rows) r f = ground (arith, select_first_passes test rows r)

  -- The primary key: a row that is found in any way is the one that its id finds.
  pub find-id_of_found :
      (test : Row p → Bool) (rows : List (Row p)) (r : Row p)
      → IsTable rows
      → select_first test rows ≡ some r
      → select_first (has_id r.id) rows ≡ some r
  find-id_of_found test [] r valid f = ground arith
  find-id_of_found test (x ∷ rows) r (unique, row, valid) f = elim (Bool-cases (test x)) [
    | inl hit ↦ let same : x ≡ r = ground arith in rw (← same, (uuid_eq_iff x.id x.id).1 refl) refl
    | inr miss ↦
        let found : select_first (has_id r.id) rows ≡ some r =
          find-id_of_found test rows r valid (ground arith) in
        elim (Bool-cases (uuid_eq x.id r.id)) [
          | inl clash ↦
              let same : x.id ≡ r.id = (uuid_eq_iff x.id r.id).0 clash in
              absurd (ground (arith, subst (λ i. select_first (has_id i) rows ≡ none) same unique))
          | inr other ↦ rw other found
        ]
  ]
