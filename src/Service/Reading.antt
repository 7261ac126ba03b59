-- ===== src/Service/Reading.antt =====
-- What `GetOrderByID` returns, with a cache and without.
use go_ordersvc.Prelude.{String, Option, none, some, ◌≡◌, refl, ◌≢◌, ◌⊎◌, inl, inr}
use go_ordersvc.Platform.{Platform}
use go_ordersvc.Effect.{Result, ok, err, Action, pure, ◌>>◌, continue}
use go_ordersvc.Domain.Errors.{Error, domain, order_not_found}
use go_ordersvc.Domain.Order.{Order}
use go_ordersvc.Cache.Interface.{OrderCache}
use go_ordersvc.Service.Interface.{Runtime}
use go_ordersvc.Service.Steps.{find_existing, cache_store, order_cache_ttl, miss_on_error}
use go_ordersvc.Service.Impl.{OrderServiceImpl, get_order_by_id, fetch_and_cache}
use go_ordersvc.Service.Publishing.{warn_about-ok}

module _ {p : Platform} {S : Type 0} (rt : Runtime p S) where
  cache_store-ok :
      (cache : Option (OrderCache p S)) (id : String) (order : Order p) (s : S)
      → (s' : S) × (cache_store rt cache id order s ≡ (ok tt, s'))
  cache_store-ok none id order s = (s, refl)
  cache_store-ok (some cache) id order s =
      warn_about-ok rt "cache set failed" id (cache.set order order_cache_ttl s).0
        (cache.set order order_cache_ttl s).1

  -- The read of the repository decides how a miss ends.
  fetch_and_cache-result :
      (svc : OrderServiceImpl p S) (id : String) (s : S)
      → (fetch_and_cache rt svc id s).0 ≡ (find_existing svc.repo id s).0
  fetch_and_cache-result svc id s =
      ended (find_existing svc.repo id s).0 (find_existing svc.repo id s).1
    where
      ended :
          (r : Result (Order p)) (s₁ : S)
          → (continue (λ order. cache_store rt svc.cache id order >> pure order) r s₁).0 ≡ r
      ended (err e) s₁ = refl
      ended (ok order) s₁ =
          let (s₂, stored) = cache_store-ok svc.cache id order s₁ in rw stored refl

  abbrev or_fetch : OrderServiceImpl p S → String → Option (Order p) → Action S (Order p)
  or_fetch svc id (some order) = pure order
  or_fetch svc id none = fetch_and_cache rt svc id

  -- An order that the cache has is returned, and nothing but the cache was asked: also where the
  -- repository has a later version of it, or none.
  pub get_order_by_id_cached :
      (svc : OrderServiceImpl p S) (cache : OrderCache p S) (id : String) (order : Order p)
      (s s₁ : S)
      → svc.cache ≡ some cache
      → cache.get id s ≡ (ok (some order), s₁)
      → get_order_by_id rt svc id s ≡ (ok order, s₁)
  unfolding get_order_by_id
  get_order_by_id_cached svc cache id order s s₁ has hit = rw (has, hit) refl

  -- The state after a cache that had no answer: where it failed, that was logged.
  abbrev pub IsMissed : OrderCache p S → String → S → S → Type 0
  IsMissed cache id s s₁ =
      (s₁ ≡ (cache.get id s).1)
      ⊎ ((e : Error) × (s₁ ≡ rt.warn "cache get failed" id e (cache.get id s).1))

  pub get_order_by_id-found :
      (svc : OrderServiceImpl p S) (cache : OrderCache p S) (id : String) (s : S)
      → svc.cache ≡ some cache
      → ((order : Order p) → (cache.get id s).0 ≢ ok (some order))
      → (s₁ : S) × IsMissed cache id s s₁
        × ((get_order_by_id rt svc id s).0 ≡ (find_existing svc.repo id s₁).0)
  unfolding get_order_by_id
  get_order_by_id-found svc cache id s has miss =
      rw has (ended (cache.get id s).0 (cache.get id s).1 miss)
    where
      ended :
          (r : Result (Option (Order p))) (s' : S)
          → ((order : Order p) → r ≢ ok (some order))
          → (s₁ : S) × ((s₁ ≡ s') ⊎ ((e : Error) × (s₁ ≡ rt.warn "cache get failed" id e s')))
            × ((continue
                  (or_fetch svc id)
                  (miss_on_error rt id r s').0
                  (miss_on_error rt id r s').1).0
                ≡ (find_existing svc.repo id s₁).0)
      ended (ok none) s' h = (s', inl refl, fetch_and_cache-result svc id s')
      ended (ok (some order)) s' h = absurd (h order refl)
      ended (err e) s' h =
          (_, inr (e, refl), fetch_and_cache-result svc id (rt.warn "cache get failed" id e s'))

  -- Where the cache has no answer, since the order is not there or since it failed, the read ends as
  -- the read of the repository, whatever becomes of writing the cache.
  pub get_order_by_id_uncached :
      (svc : OrderServiceImpl p S) (cache : OrderCache p S) (id : String) (s : S)
      → svc.cache ≡ some cache
      → ((order : Order p) → (cache.get id s).0 ≢ ok (some order))
      → (s₁ : S) × ((get_order_by_id rt svc id s).0 ≡ (find_existing svc.repo id s₁).0)
  get_order_by_id_uncached svc cache id s has miss =
      let (s₁, _, found) = get_order_by_id-found svc cache id s has miss in (s₁, found)

  -- An order that the repository does not find is not written to the cache: where the cache misses,
  -- the read fails with ErrOrderNotFound, and nothing was done but the two reads.
  pub get_order_by_id_missing :
      (svc : OrderServiceImpl p S) (cache : OrderCache p S) (id : String) (s s₁ s₂ : S)
      → svc.cache ≡ some cache
      → cache.get id s ≡ (ok none, s₁)
      → svc.repo.find_by_id id s₁ ≡ (ok none, s₂)
      → get_order_by_id rt svc id s ≡ (err (domain order_not_found), s₂)
  unfolding get_order_by_id
  get_order_by_id_missing svc cache id s s₁ s₂ has miss missing = rw (has, miss, missing) refl
