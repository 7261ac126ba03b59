-- ===== src/Cache/Interface.antt =====
-- internal/cache/order_cache.go. Durations are nanoseconds.
use go_ordersvc.Prelude.{ℕ, ⊤, Bool, String, Option}
use go_ordersvc.Prelude.Int.{ℤ}
use go_ordersvc.Platform.{Platform}
use go_ordersvc.Effect.{Action}
use go_ordersvc.Domain.Order.{Order}

module _ (p : Platform) (S : Type 0) where
  pub record OrderCache : Type 0 where
    pub get : String → Action S (Option (Order p))
    pub set : Order p → ℕ → Action S ⊤
    pub delete : String → Action S ⊤
    -- With a bound on the rounds of its loop; `none` where they are used up.
    pub delete_pattern : ℕ → String → Action S (Option ⊤)

pub record RateLimiter (S : Type 0) : Type 0 where
  pub allow : String → ℤ → ℕ → Action S Bool
  pub reset : String → Action S ⊤
