-- ===== src/Repository/Traffic/Tracking.antt =====
-- What a client knows of an order that it has read some time ago, and what its write may do.
use go_ordersvc.Prelude.{
  ℕ, zero, suc, true, String, Option, none, some, List, [], ◌∷◌, All, ◌≡◌, sym, ◌∙◌, ◌⊎◌, inl, inr,
  ap, subst, arith, some_unique,
}
use go_ordersvc.Prelude.Int.{pos, ◌+ℤ◌, ◌≤ℤ◌, +ℤ_one, pos_part, neg_part, eqb→eq}
use mathlib.Core.List.{Memᴰ}
use go_ordersvc.Json.{Json, Elems, arr}
use go_ordersvc.Json.Items.{marshal_items}
use go_ordersvc.Platform.{Platform}
use go_ordersvc.Effect.{ok, Action}
use go_ordersvc.Outside.Keeps.{Keeps, execute-content, >>=-content}
use go_ordersvc.Domain.Order.{Order}
use go_ordersvc.Repository.Database.{Row, Database, select_first}
use go_ordersvc.Repository.Postgres.{
  find_by_id, update, live_at, version_at, updated_row, execute_update, after_update,
  update_marshalled, update_statement, exec_update,
}
use go_ordersvc.Repository.Rows.{has_id}
use go_ordersvc.Repository.History.{Follows, Progress, updated_row-Bumps}
use go_ordersvc.Repository.Table.{IsTable, find-id_of_found, select_first_passes}
use go_ordersvc.Repository.Reads.{find_by_id-eq-ok}
use go_ordersvc.Repository.Queries.{Same, find_by_id-Same, after_update-Same}
use go_ordersvc.Repository.Develops.{update_statement-eq-ok}
use go_ordersvc.Repository.Methods.{execute_update-Develops}
use go_ordersvc.Repository.Traffic.{IsAllowed}
use go_ordersvc.Repository.Traffic.Moves.{
  Moves, Evolves, Evolves-refl, Evolves-trans, exec_update-Moves,
}

module _ {p : Platform} where
  open p use {UUID, uuid_eq_iff}

  -- The row of an order that was read is there; where it has the version that was read, it has the
  -- status that was read.
  abbrev pub Tracks : List (Row p) → Order p → Type 0
  Tracks rows o =
      (r : Row p) × (select_first (has_id o.id) rows ≡ some r)
      × ((o.version +ℤ pos 1 ≤ℤ r.version) ⊎ ((r.version ≡ o.version) × (r.status ≡ o.status)))

  Tracks-Follows :
      (o : Order p) (r r' : Row p)
      → Follows r r'
      → (o.version +ℤ pos 1 ≤ℤ r.version) ⊎ ((r.version ≡ o.version) × (r.status ≡ o.status))
      → (o.version +ℤ pos 1 ≤ℤ r'.version) ⊎ ((r'.version ≡ o.version) × (r'.status ≡ o.status))
  Tracks-Follows o r r' (inl e) known =
      subst
        (λ (s : Row p).
          (o.version +ℤ pos 1 ≤ℤ s.version) ⊎ ((s.version ≡ o.version) × (s.status ≡ o.status)))
        (sym e) known
  Tracks-Follows o r r' (inr (_, grown)) (inl older) =
      inl (omega (arith, +ℤ_one o.version, +ℤ_one r.version, grown, older))
  Tracks-Follows o r r' (inr (_, grown)) (inr (same, _)) =
      inl (subst (λ v. v +ℤ pos 1 ≤ℤ r'.version) same grown)

  pub Tracks-Progress :
      (rows rows' : List (Row p)) (o : Order p)
      → Progress rows rows'
      → Tracks rows o
      → Tracks rows' o
  Tracks-Progress rows rows' o progress (r, at, known) =
      let (r', at', follows) = progress o.id r at in (r', at', Tracks-Follows o r r' follows known)

  pub All-Tracks :
      (rows rows' : List (Row p)) (os : List (Order p))
      → Progress rows rows'
      → All (Tracks rows) os
      → All (Tracks rows') os
  All-Tracks rows rows' [] progress known = tt
  All-Tracks rows rows' (o ∷ os) progress (first, rest) =
      (Tracks-Progress rows rows' o progress first, All-Tracks rows rows' os progress rest)

  pub Tracks-held :
      (rows : List (Row p)) (o : Order p) (os : List (Order p))
      → Memᴰ o os
      → All (Tracks rows) os
      → Tracks rows o
  Tracks-held rows o [] m known = elim m [ ]
  Tracks-held rows o (o' ∷ os) (Memᴰ.head e) (first, rest) = subst (Tracks rows) (sym e) first
  Tracks-held rows o (o' ∷ os) (Memᴰ.tail m) (first, rest) = Tracks-held rows o os m rest

  pub find_by_id-Tracks :
      (id : String) (o : Order p) (db : Database p)
      → IsTable db.content
      → (find_by_id id db).0 ≡ ok (some o)
      → Tracks (find_by_id id db).1.content o
  find_by_id-Tracks id o db valid read =
      let (r, found, (same_id, same_version, same_status, _, _), _) =
        find_by_id-eq-ok id db o read in
      let at : select_first (has_id o.id) db.content ≡ some r =
        rw same_id (find-id_of_found (live_at r.id) db.content r valid found) in
      rw (find_by_id-Same id db) (r, at, inr (sym same_version, sym same_status))

  pub Same-Evolves : {A : Type 0} (m : Action (Database p) A) → Keeps Same m → Keeps Evolves m
  Same-Evolves m h db = rw (h db) (Evolves-refl db.content)

  after_update-Evolves : (o : Order p) (n : ℕ) → Keeps Evolves (after_update o n)
  after_update-Evolves o zero = Same-Evolves (after_update o zero) (after_update-Same o)
  after_update-Evolves o (suc n) = λ db. Evolves-refl db.content

  version_at-parts :
      (id : UUID) (o : Order p) (r : Row p)
      → version_at id o.version r ≡ true
      → (r.id ≡ id) × (r.version ≡ o.version)
  version_at-parts id o r h = ground (arith, uuid_eq_iff r.id id, eqb→eq r.version o.version)

  -- The row that the UPDATE of a tracked order finds has the status that was read.
  hit-status :
      (o changed : Order p) (rows : List (Row p)) (id : UUID) (r : Row p)
      → Tracks rows o
      → changed.id ≡ o.id
      → changed.version ≡ o.version
      → select_first (has_id id) rows ≡ some r
      → version_at changed.id changed.version r ≡ true
      → r.status ≡ o.status
  hit-status o changed rows id r (r₀, at₀, known) same_id same_version at hit =
      let (r_id, r_version) = version_at-parts changed.id changed r hit in
      let here : id ≡ o.id = sym (found-id id rows r at) ∙ r_id ∙ same_id in
      let met : r₀ ≡ r =
        some_unique (subst (λ i. select_first (has_id i) rows ≡ some r₀) (sym here) at₀) at in
      current r₀ known met (r_version ∙ same_version)
    where
      found-id :
          (id : UUID) (rows : List (Row p)) (r : Row p)
          → select_first (has_id id) rows ≡ some r
          → r.id ≡ id
      found-id id rows r at = (uuid_eq_iff r.id id).0 (select_first_passes (has_id id) rows r at)

      current :
          (r₀ : Row p)
          → (o.version +ℤ pos 1 ≤ℤ r₀.version) ⊎ ((r₀.version ≡ o.version) × (r₀.status ≡ o.status))
          → r₀ ≡ r
          → r.version ≡ o.version
          → r.status ≡ o.status
      current r₀ (inl older) met v = absurd (
          omega (
            arith,
            +ℤ_one o.version,
            older,
            ap (λ (s : Row p). pos_part s.version) met,
            ap (λ (s : Row p). neg_part s.version) met,
            ap pos_part v,
            ap neg_part v,
          ))
      current r₀ (inr (_, same)) met v = sym (ap (λ (s : Row p). s.status) met) ∙ same

  updated_row-status :
      (o : Order p) (items : Json p.Float64) (now : ℕ) (r r' : Row p)
      → updated_row o items now r ≡ some r'
      → r'.status ≡ o.status
  updated_row-status o items now r r' c = ground arith

  module _ (o changed : Order p) (same_id : changed.id ≡ o.id)
      (same_version : changed.version ≡ o.version)
      (allowed : IsAllowed o.status changed.status) where
    update_statement-Moves :
        (items : Elems p.Float64) (now : ℕ) (rows rows' : List (Row p)) (n : ℕ)
        → Tracks rows o
        → exec_update
            (version_at changed.id changed.version)
            (updated_row changed (arr items) now)
            rows
          ≡ ok (rows', n)
        → Moves rows rows'
    update_statement-Moves items now rows rows' n known e =
        exec_update-Moves (version_at changed.id changed.version)
          (updated_row changed (arr items) now) rows rows' n
          (updated_row-Bumps changed (arr items) now)
          (λ id r r' at hit c.
            subst (λ s. IsAllowed s r'.status)
              (sym (hit-status o changed rows id r known same_id same_version at hit))
              (subst (IsAllowed o.status) (sym (updated_row-status changed (arr items) now r r' c))
                allowed))
          e

    update_marshalled-Evolves :
        (items : Option (Elems p.Float64)) (db : Database p)
        → Tracks db.content o
        → Evolves db.content (update_marshalled changed items db).1.content
    update_marshalled-Evolves none db known = Evolves-refl db.content
    update_marshalled-Evolves (some items) db known =
        >>=-content Evolves Evolves-trans (execute_update changed items) (after_update changed) db
          (
            execute_update-Develops changed items db,
            execute-content Moves (λ rows. (Evolves-refl rows).1) (update_statement changed items)
                db
                λ c rows' n e.
                  update_statement-Moves items c.server_now db.content rows' n known
                    (update_statement-eq-ok changed items c db.content rows' n e),
          )
          (after_update-Evolves changed)

    -- Writing an order that was read, with an allowed status.
    pub update-Evolves :
        (db : Database p) → Tracks db.content o → Evolves db.content (update changed db).1.content
    unfolding update
    update-Evolves db known = update_marshalled-Evolves (marshal_items p changed.items) db known
