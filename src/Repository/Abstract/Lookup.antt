-- ===== src/Repository/Abstract/Lookup.antt =====
-- The table as a store: what its ids find, and how an UPDATE changes that.
use go_ordersvc.Prelude.{
  ℕ, Bool, true, false, ◌&&◌, Option, none, some, List, [], ◌∷◌, ◌≡◌, refl, ◌∙◌, inl, inr, arith,
  Bool-cases, Option-cases, ap, sym, fun_ext,
}
use go_ordersvc.Json.{◌>>=◌}
use go_ordersvc.Platform.{Platform}
use go_ordersvc.Repository.Database.{Row, select_first, update_where}
use go_ordersvc.Repository.Rows.{has_id}
use go_ordersvc.Repository.Table.{IsTable, select_first_passes}
use go_ordersvc.Repository.Abstract.{Store, put, only, change_row, change_at}

module _ {p : Platform} where
  open p use {UUID, uuid_eq, uuid_eq_iff}

  -- The row of an id, deleted or not.
  abbrev pub lookup : List (Row p) → Store p
  lookup rows u = select_first (has_id u) rows

  -- The rows of an id that pass a test.
  abbrev pub has_id_and : UUID → (Row p → Bool) → Row p → Bool
  has_id_and u test r = uuid_eq r.id u && test r

  select_first-none :
      (u : UUID) (test : Row p → Bool) (rows : List (Row p))
      → lookup rows u ≡ none
      → select_first (has_id_and u test) rows ≡ none
  select_first-none u test [] h = refl
  select_first-none u test (x ∷ rows) h = ground (arith, select_first-none u test rows)

  lookup-here :
      (u : UUID) (x : Row p) (rows : List (Row p))
      → IsTable (x ∷ rows)
      → uuid_eq x.id u ≡ true
      → lookup rows u ≡ none
  lookup-here u x rows (unique, _, _) here =
      ap (lookup rows) (sym ((uuid_eq_iff x.id u).0 here)) ∙ unique

  -- By the primary key, only the row of the id can pass.
  pub select_first-lookup :
      (u : UUID) (test : Row p → Bool) (rows : List (Row p))
      → IsTable rows
      → select_first (has_id_and u test) rows ≡ only test (lookup rows u)
  select_first-lookup u test [] valid = refl
  select_first-lookup u test (x ∷ rows) valid = elim (Bool-cases (uuid_eq x.id u)) [
    | inl here ↦ ground (arith, select_first-none u test rows (lookup-here u x rows valid here))
    | inr other ↦ ground (arith, select_first-lookup u test rows valid.2)
  ]

  abbrev pub as_store : Option (List (Row p) × ℕ) → Option (Store p × ℕ)
  as_store none = none
  as_store (some (rows, n)) = some (lookup rows, n)

  module _ (u : UUID) (test : Row p → Bool) (change : Row p → Option (Row p))
      (keep : (r r' : Row p) → change r ≡ some r' → r'.id ≡ r.id) where
    abbrev update_rows : List (Row p) → Option (List (Row p) × ℕ)
    update_rows = update_where (has_id_and u test) change

    update_rows-none :
        (rows : List (Row p)) → lookup rows u ≡ none → update_rows rows ≡ some (rows, 0)
    update_rows-none [] h = refl
    update_rows-none (x ∷ rows) h =
        let other : uuid_eq x.id u ≡ false = ground arith in
        let later : lookup rows u ≡ none = ground arith in
        rw (other, update_rows-none rows later) refl

    put-front : (x x' : Row p) (f : Store p) → x'.id ≡ x.id → put x' (put x f) ≡ put x' f
    put-front x x' f same = fun_ext λ v. elim (Bool-cases (uuid_eq x'.id v)) [
      | inl here ↦ ground arith
      | inr other ↦ ground (arith, ap (λ i. uuid_eq i v) same)
    ]

    put-later :
        (x r : Row p) (f : Store p) → uuid_eq x.id r.id ≡ false → put r (put x f) ≡ put x (put r f)
    put-later x r f other = fun_ext λ v. elim (Bool-cases (uuid_eq r.id v)) [
      | inl here ↦
          let same : r.id ≡ v = (uuid_eq_iff r.id v).0 here in
          ground (arith, ap (uuid_eq x.id) same)
      | inr miss ↦ ground arith
    ]

    abbrev put_in : Row p → Option (Store p × ℕ) → Option (Store p × ℕ)
    put_in x none = none
    put_in x (some (f, n)) = some (put x f, n)

    -- A change of another id's row does not mind a row in front.
    change_row-later :
        (x : Row p) (f : Store p) (found : Option (Row p))
        → uuid_eq x.id u ≡ false
        → ((r : Row p) → found ≡ some r → r.id ≡ u)
        → change_row change found (put x f) ≡ put_in x (change_row change found f)
    change_row-later x f none other at_u = refl
    change_row-later x f (some r) other at_u = elim (Option-cases (change r)) [
      | inl refused ↦ rw (refused, change_row) refl
      | inr (r', c) ↦
          let apart : uuid_eq x.id r'.id ≡ false =
            ap (uuid_eq x.id) (keep r r' c ∙ at_u r refl) ∙ other in
          rw (c, change_row, put-later x r' f apart) refl
    ]

    as_store-later :
        (x : Row p) (done : Option (List (Row p) × ℕ))
        → put_in x (as_store done) ≡ as_store (do (rows', n) ← done; some (x ∷ rows', n))
    as_store-later x none = refl
    as_store-later x (some (rows, n)) = refl

    only-at_u : (rows : List (Row p)) (r : Row p) → only test (lookup rows u) ≡ some r → r.id ≡ u
    only-at_u rows r h = elim (Option-cases (lookup rows u)) [
      | inl gone ↦ ground arith
      | inr (s, found) ↦
          let same : s ≡ r = ground arith in
          let hit : uuid_eq s.id u ≡ true = select_first_passes (has_id u) rows s found in
          ap (λ (t : Row p). t.id) (sym same) ∙ (uuid_eq_iff s.id u).0 hit
    ]

    update-here :
        (x : Row p) (rows : List (Row p))
        → IsTable (x ∷ rows)
        → uuid_eq x.id u ≡ true
        → change_at u test change (lookup (x ∷ rows)) ≡ as_store (update_rows (x ∷ rows))
    update-here x rows valid here =
        let rest = update_rows-none rows (lookup-here u x rows valid here) in
        elim (Bool-cases (test x)) [
          | inl hit ↦ elim (Option-cases (change x)) [
            | inl refused ↦ rw (here, hit, refused) refl
            | inr (x', c) ↦ rw (here, hit, rest, c, put-front x x' (lookup rows) (keep x x' c)) refl
          ]
          | inr miss ↦ rw (here, miss, rest) refl
        ]

    -- An UPDATE of an id is the change of what the id finds.
    pub update_where-change_at :
        (rows : List (Row p))
        → IsTable rows
        → change_at u test change (lookup rows) ≡ as_store (update_rows rows)
    update_where-change_at [] valid = refl
    update_where-change_at (x ∷ rows) valid = elim (Bool-cases (uuid_eq x.id u)) [
      | inl here ↦ update-here x rows valid here
      | inr other ↦ rw other (
          change_row-later x (lookup rows) (only test (lookup rows u)) other (only-at_u rows)
          ∙ ap (put_in x) (update_where-change_at rows valid.2)
          ∙ as_store-later x (update_rows rows))
    ]
