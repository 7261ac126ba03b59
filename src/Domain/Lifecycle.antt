-- ===== src/Domain/Lifecycle.antt =====
-- The life of an order as a state machine, against which `CanTransitionTo` is read.
use go_ordersvc.Prelude.{
  ℕ, ◌+◌, ◌≤◌, ◌<◌, Bool, true, List, [], ◌∷◌, str_eq, str_eq_iff, if◌then◌else◌, ◌≡◌, refl, ◌↔◌,
  arith, length, ◌⊎◌, inl, inr,
}
use mathlib.Core.Bool.{and-eq-true_iff, ◌&&◌}
use go_ordersvc.Domain.Status.{
  OrderStatus, pending, confirmed, processing, shipped, delivered, cancelled, can_transition_to,
  valid_statuses, contains,
}

abbrev pub IsOpen : OrderStatus → Type 0
IsOpen s = (s ≡ pending) ⊎ (s ≡ confirmed) ⊎ (s ≡ processing)

infix 40 ◌⟶◌
pub data ◌⟶◌ (s t : OrderStatus) : Type 0 where
  confirm : s ≡ pending → t ≡ confirmed → s ⟶ t
  process : s ≡ confirmed → t ≡ processing → s ⟶ t
  ship : s ≡ processing → t ≡ shipped → s ⟶ t
  deliver : s ≡ shipped → t ≡ delivered → s ⟶ t
  cancel : IsOpen s → t ≡ cancelled → s ⟶ t

can_transition_sound : (s t : OrderStatus) → can_transition_to s t ≡ true → s ⟶ t
unfolding can_transition_to
can_transition_sound s t h = grind (
  arith,
  confirm,
  process,
  ship,
  deliver,
  cancel,
  str_eq_iff pending s,
  str_eq_iff confirmed s,
  str_eq_iff processing s,
  str_eq_iff shipped s,
  str_eq_iff delivered s,
  str_eq_iff cancelled s,
  str_eq_iff confirmed t,
  str_eq_iff processing t,
  str_eq_iff shipped t,
  str_eq_iff delivered t,
  str_eq_iff cancelled t,
)

can_transition_complete : {s t : OrderStatus} → s ⟶ t → can_transition_to s t ≡ true
unfolding can_transition_to
can_transition_complete (confirm p q) = rw (p, q) refl
can_transition_complete (process p q) = rw (p, q) refl
can_transition_complete (ship p q) = rw (p, q) refl
can_transition_complete (deliver p q) = rw (p, q) refl
can_transition_complete (cancel (inl p) q) = rw (p, q) refl
can_transition_complete (cancel (inr (inl p)) q) = rw (p, q) refl
can_transition_complete (cancel (inr (inr p)) q) = rw (p, q) refl

-- `CanTransitionTo` accepts exactly the steps of the state machine, whatever the two texts are.
pub can_transition_to_iff : (s t : OrderStatus) → (can_transition_to s t ≡ true) ↔ (s ⟶ t)
can_transition_to_iff s t = (can_transition_sound s t, can_transition_complete)

-- How far an order has come; a final status, and a text that is no status, stand at the end.
abbrev rank : OrderStatus → ℕ
rank s =
    if str_eq s pending
    then 0
    else if str_eq s confirmed
    then 1
    else if str_eq s processing
    then 2
    else if str_eq s shipped
    then 3
    else 4

rank-lt : {s t : OrderStatus} → s ⟶ t → rank s < rank t
rank-lt (confirm p q) = rw (p, q) (omega arith)
rank-lt (process p q) = rw (p, q) (omega arith)
rank-lt (ship p q) = rw (p, q) (omega arith)
rank-lt (deliver p q) = rw (p, q) (omega arith)
rank-lt (cancel (inl p) q) = rw (p, q) (omega arith)
rank-lt (cancel (inr (inl p)) q) = rw (p, q) (omega arith)
rank-lt (cancel (inr (inr p)) q) = rw (p, q) (omega arith)

rank-le : (s : OrderStatus) → rank s ≤ 4
rank-le s = ground arith

-- A sequence of statuses each of which the code accepts after the one before.
abbrev pub accepts : OrderStatus → List OrderStatus → Bool
accepts s [] = true
accepts s (t ∷ ts) = can_transition_to s t && accepts t ts

accepts-rank :
    (s : OrderStatus) (ts : List OrderStatus) → accepts s ts ≡ true → length ts + rank s ≤ 4
accepts-rank s [] h = omega (arith, rank-le s)
accepts-rank s (t ∷ ts) h =
    let (first, later) = (and-eq-true_iff _ _).0 h in
    omega (arith, rank-lt (can_transition_sound s t first), accepts-rank t ts later)

-- An order passes through at most four transitions.
pub accepts-length : (s : OrderStatus) (ts : List OrderStatus) → accepts s ts ≡ true → length ts ≤ 4
accepts-length s ts h = omega (arith, accepts-rank s ts h)

-- The status that a transition leads to is one of the six valid ones.
pub target_valid :
    (s t : OrderStatus) → can_transition_to s t ≡ true → contains t valid_statuses ≡ true
unfolding valid_statuses
target_valid s t h = of_step (can_transition_sound s t h)
  where
    of_step : s ⟶ t → contains t valid_statuses ≡ true
    of_step (confirm p q) = rw q refl
    of_step (process p q) = rw q refl
    of_step (ship p q) = rw q refl
    of_step (deliver p q) = rw q refl
    of_step (cancel p q) = rw q refl
