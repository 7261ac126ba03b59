-- ===== src/Repository/Rows.antt =====
-- How an UPDATE changes the rows that a SELECT finds.
use go_ordersvc.Prelude.{
  ℕ, suc, Bool, true, false, Option, none, some, List, [], ◌∷◌, if◌then◌else◌, ◌≡◌, refl, ◌∙◌, ◌⊎◌,
  inl, inr, subst, arith, Bool-cases, Option-cases, ap,
}
use go_ordersvc.Platform.{Platform}
use go_ordersvc.Repository.Database.{Row, select_first, update_where}

module _ {p : Platform} where
  open p use {UUID, uuid_eq, uuid_eq_iff}

  -- `WHERE id = $1`
  abbrev pub has_id : UUID → Row p → Bool
  has_id id r = uuid_eq r.id id

  -- What the first row of a list became.
  abbrev pub Changed : (Row p → Bool) → (Row p → Option (Row p)) → Row p → Row p → Type 0
  Changed test change r r' =
      ((test r ≡ false) × (r' ≡ r)) ⊎ ((test r ≡ true) × (change r ≡ some r'))

  find_here :
      (id : UUID) (x x' : Row p) (rest : List (Row p))
      → x'.id ≡ x.id
      → uuid_eq x.id id ≡ true
      → select_first (has_id id) (x' ∷ rest) ≡ some x'
  find_here id x x' rest same here = ground arith

  find_later :
      (id : UUID) (x x' : Row p) (rest : List (Row p))
      → x'.id ≡ x.id
      → uuid_eq x.id id ≡ false
      → select_first (has_id id) (x' ∷ rest) ≡ select_first (has_id id) rest
  find_later id x x' rest same other = ground arith

  module _ (test : Row p → Bool) (change : Row p → Option (Row p)) where
    pub update_where-cons :
        (r : Row p) (rs rows : List (Row p)) (n : ℕ)
        → update_where test change (r ∷ rs) ≡ some (rows, n)
        → (r' : Row p) × (rs' : List (Row p)) × (m : ℕ) × (update_where test change rs
            ≡ some (rs', m))
          × (rows ≡ r' ∷ rs')
          × Changed test change r r'
          × (n ≡ (if test r then suc m else m))
    update_where-cons r rs rows n h = elim (Option-cases (update_where test change rs)) [
      | inl failed ↦ ground arith
      | inr ((rs', m), e) ↦ elim (Bool-cases (test r)) [
        | inl hit ↦ elim (Option-cases (change r)) [
          | inl refused ↦ ground arith
          | inr (r', c) ↦ (r', rs', m, e, ground arith, inr (hit, c), ground arith)
        ]
        | inr miss ↦ (r, rs', m, e, ground arith, inl (miss, refl), ground arith)
      ]
    ]

    module _ (keep : (r r' : Row p) → change r ≡ some r' → r'.id ≡ r.id) where
      Changed-id : (r r' : Row p) → Changed test change r r' → r'.id ≡ r.id
      Changed-id r r' (inl (miss, same)) = ap (λ (s : Row p). s.id) same
      Changed-id r r' (inr (hit, c)) = keep r r' c

      -- The row that is found by its id is the changed one.
      pub find-update :
          (id : UUID) (r : Row p) (rows rows' : List (Row p)) (n : ℕ)
          → select_first (has_id id) rows ≡ some r
          → update_where test change rows ≡ some (rows', n)
          → (r' : Row p) × (select_first (has_id id) rows' ≡ some r') × Changed test change r r'
      find-update id r [] rows' n f u = ground arith
      find-update id r (x ∷ rows) rows' n f u =
          let (x', rest, m, e, made, changed, _) = update_where-cons x rows rows' n u in
          let same_id : x'.id ≡ x.id = Changed-id x x' changed in
          elim (Bool-cases (uuid_eq x.id id)) [
            | inl here ↦
                let x_is_r : x ≡ r = ground arith in
                (
                  x',
                  rw made (find_here id x x' rest same_id here),
                  subst (λ s. Changed test change s x') x_is_r changed,
                )
            | inr later ↦
                let (r', found, ch) = find-update id r rows rest m (ground arith) e in
                (r', rw made (find_later id x x' rest same_id later ∙ found), ch)
          ]

      -- No row appears.
      pub find_none-update :
          (id : UUID) (rows rows' : List (Row p)) (n : ℕ)
          → select_first (has_id id) rows ≡ none
          → update_where test change rows ≡ some (rows', n)
          → select_first (has_id id) rows' ≡ none
      find_none-update id [] rows' n f u = ground arith
      find_none-update id (x ∷ rows) rows' n f u =
          let (x', rest, m, e, made, changed, _) = update_where-cons x rows rows' n u in
          let same_id : x'.id ≡ x.id = Changed-id x x' changed in
          let other : uuid_eq x.id id ≡ false = ground arith in
          rw made (
            find_later id x x' rest same_id other
            ∙ find_none-update id rows rest m (ground arith) e)

    -- Where no row is affected, none has changed.
    pub update_where-zero :
        (rows rows' : List (Row p)) → update_where test change rows ≡ some (rows', 0) → rows' ≡ rows
    update_where-zero [] rows' u = ground arith
    update_where-zero (x ∷ rows) rows' u =
        let (x', rest, m, e, made, changed, counted) = update_where-cons x rows rows' 0 u in
        elim (Bool-cases (test x)) [
          | inl hit ↦ absurd (ground arith)
          | inr miss ↦
              let none_later : m ≡ 0 = ground arith in
              let same : x' ≡ x = ground arith in
              rw (made, same, update_where-zero rows rest (rw none_later at e)) refl
        ]

    -- Where a row is affected, one passes the test.
    pub update_where-suc :
        (rows rows' : List (Row p)) (n : ℕ)
        → update_where test change rows ≡ some (rows', suc n)
        → (r : Row p) × (select_first test rows ≡ some r)
    update_where-suc [] rows' n u = ground arith
    update_where-suc (x ∷ rows) rows' n u =
        let (x', rest, m, e, made, changed, counted) = update_where-cons x rows rows' (suc n) u in
        elim (Bool-cases (test x)) [
          | inl hit ↦ (x, rw hit)
          | inr miss ↦
              let more : m ≡ suc n = ground arith in
              let (r, found) = update_where-suc rows rest n (rw more at e) in (r, rw miss found)
        ]
