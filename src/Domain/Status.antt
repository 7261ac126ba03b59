-- ===== src/Domain/Status.antt =====
-- OrderStatus of internal/domain/order.go. The type is a string: any text can stand for a status,
-- and a request's text is converted with no check.
use go_ordersvc.Prelude.{Bool, true, false, String, List, [], ◌∷◌, str_eq, if◌then◌else◌, ◌≡◌, refl}

abbrev pub OrderStatus : Type 0
OrderStatus = String

abbrev pub pending : OrderStatus
pending = "pending"

abbrev pub confirmed : OrderStatus
confirmed = "confirmed"

abbrev pub processing : OrderStatus
processing = "processing"

abbrev pub shipped : OrderStatus
shipped = "shipped"

abbrev pub delivered : OrderStatus
delivered = "delivered"

abbrev pub cancelled : OrderStatus
cancelled = "cancelled"

unfoldable pub valid_statuses : List OrderStatus
valid_statuses = pending ∷ confirmed ∷ processing ∷ shipped ∷ delivered ∷ cancelled ∷ []

-- The map literal of `CanTransitionTo`.
abbrev pub valid_transitions : List (OrderStatus × List OrderStatus)
valid_transitions =
    (pending, confirmed ∷ cancelled ∷ [])
    ∷ (confirmed, processing ∷ cancelled ∷ [])
    ∷ (processing, shipped ∷ cancelled ∷ [])
    ∷ (shipped, delivered ∷ [])
    ∷ (delivered, [])
    ∷ (cancelled, [])
    ∷ []

-- `validTransitions[s]`; the value of a missing key is an empty slice.
abbrev pub map_get : OrderStatus → List (OrderStatus × List OrderStatus) → List OrderStatus
map_get s [] = []
map_get s ((k, v) ∷ m) = if str_eq k s then v else map_get s m

-- The loop that looks for `newStatus`.
abbrev pub contains : OrderStatus → List OrderStatus → Bool
contains new_status [] = false
contains new_status (status ∷ allowed) =
    if str_eq status new_status then true else contains new_status allowed

unfoldable pub can_transition_to : OrderStatus → OrderStatus → Bool
can_transition_to s new_status = contains new_status (map_get s valid_transitions)

confirm_pending : can_transition_to pending confirmed ≡ true
unfolding can_transition_to
confirm_pending = refl
