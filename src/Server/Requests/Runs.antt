-- ===== src/Server/Requests/Runs.antt =====
-- An action of the service as traffic of the database: the calls that it makes, and the orders that
-- it has read.
use mathlib.Core.List.{Memᴰ}
use go_ordersvc.Prelude.{String, Option, none, some, List, ◌∷◌, ◌≡◌, refl, sym, subst}
use go_ordersvc.Platform.{Platform}
use go_ordersvc.Effect.{Result, ok, err, Action, ◌>>=◌, continue, err-neq-ok, ok-injective}
use go_ordersvc.Domain.Order.{Order}
use go_ordersvc.Repository.Database.{Database}
use go_ordersvc.Repository.Postgres.{find_by_id}
use go_ordersvc.Repository.Listing.{new_order_repository}
use go_ordersvc.Repository.Calls.{Call, find_call, run_call}
use go_ordersvc.Service.Steps.{find_existing, or_not_found}
use go_ordersvc.Repository.Traffic.{Traffic, ◌⟹◌, reads, calls, ◌⟹*◌, stay, step, IsPlain}
use go_ordersvc.Server.{World, repository, on_database}

module _ {p : Platform} where
  pub ⟹*-trans : {s t u : Traffic p} → s ⟹* t → t ⟹* u → s ⟹* u
  ⟹*-trans first stay = first
  ⟹*-trans first (step t u run next) = step t u (⟹*-trans first run) next

  abbrev pub traffic_of : World p → List (Order p) → Traffic p
  traffic_of w held = record { database = w.database; held = held }

  -- How an action ended: it was traffic, and its result is right for the orders that were read.
  abbrev pub Runs :
      {A : Type 0}
      → World p
      → List (Order p)
      → (A → List (Order p) → Type 0)
      → Result A × World p
      → Type 0
  Runs {A} w held P (r, w') =
      (held' : List (Order p)) × (traffic_of w held ⟹* traffic_of w' held')
      × ((a : A) → r ≡ ok a → P a held')

  -- Nothing is known of the result.
  abbrev pub Any : {A : Type 0} → A → List (Order p) → Type 0
  Any a held = Unit

  pub >>=-Runs :
      {A B : Type 0} {P : A → List (Order p) → Type 0} {Q : B → List (Order p) → Type 0}
      (w : World p) (held : List (Order p)) (m : Action (World p) A) (f : A → Action (World p) B)
      → Runs w held P (m w)
      → ((a : A) (w' : World p) (held' : List (Order p)) → P a held' → Runs w' held' Q (f a w'))
      → Runs w held Q ((m >>= f) w)
  >>=-Runs {A} {B} {P} {Q} w held m f first next = go (m w).0 (m w).1 first
    where
      go : (r : Result A) (w' : World p) → Runs w held P (r, w') → Runs w held Q (continue f r w')
      go (ok a) w' (held', path, right) =
          let (held'', path', right') = next a w' held' (right a refl) in
          (held'', ⟹*-trans path path', right')
      go (err e) w' (held', path, right) = (held', path, λ b h. absurd (err-neq-ok h))

  -- An action that leaves the database alone.
  pub still-Runs :
      {A : Type 0} {P : A → List (Order p) → Type 0} (w : World p) (held : List (Order p))
      (x : Result A × World p)
      → x.1.database ≡ w.database
      → ((a : A) → x.0 ≡ ok a → P a held)
      → Runs w held P x
  still-Runs w held x same right = (
    held,
    subst (λ (db : Database p). traffic_of w held ⟹* record { database = db; held = held })
        (sym same) stay,
    right,
  )

  pub find_existing-Runs :
      (id : String) (w : World p) (held : List (Order p))
      → Runs w held Memᴰ (find_existing (repository p) id w)
  unfolding repository new_order_repository
  find_existing-Runs id w held = go (find_by_id id w.database).0 refl
    where
      w' : World p
      w' = record w { database = (find_by_id id w.database).1 }

      go :
          (r : Result (Option (Order p)))
          → (find_by_id id w.database).0 ≡ r
          → Runs w held Memᴰ (continue or_not_found r w')
      go (ok (some o)) found = (
        o ∷ held,
        step (traffic_of w held) (traffic_of w' (o ∷ held)) stay (reads id o found),
        λ a h. Memᴰ.head (ok-injective (sym h)),
      )
      go (ok none) found = (
        held,
        step (traffic_of w held) (traffic_of w' held) stay (calls (find_call id) tt),
        λ a h. absurd (err-neq-ok h),
      )
      go (err e) found = (
        held,
        step (traffic_of w held) (traffic_of w' held) stay (calls (find_call id) tt),
        λ a h. absurd (err-neq-ok h),
      )

  -- A call that writes no order back.
  pub call-Runs :
      {A : Type 0} (m : Action (Database p) A) (call : Call p)
      → IsPlain call
      → ((db : Database p) → run_call call db ≡ (m db).1)
      → (w : World p) (held : List (Order p)) → Runs w held Any (on_database m w)
  call-Runs m call plain same w held = (
    held,
    step (traffic_of w held) (traffic_of (record w { database = (m w.database).1 }) held) stay (
        subst (λ db. traffic_of w held ⟹ record { database = db; held = held }) (same w.database)
          (calls call plain)),
    λ a h. tt,
  )
