-- ===== src/Examples/Traffics.antt =====
-- The theorem on the traffic of many clients at two of them.
use go_ordersvc.Prelude.{some, List, [], ◌∷◌, ◌≡◌, refl, inr}
use mathlib.Core.List.{Memᴰ}
use go_ordersvc.Json.Items.{unmarshal_items, unmarshal_elems}
use go_ordersvc.Effect.{ok}
use go_ordersvc.Outside.{execute}
use go_ordersvc.Domain.Status.{valid_statuses, confirmed, can_transition_to}
use go_ordersvc.Domain.Order.{Order}
use go_ordersvc.Repository.Postgres.{find_by_id, update, read_order}
use go_ordersvc.Repository.Table.{IsTable}
use go_ordersvc.Repository.Calls.{delete_call, run_call}
use go_ordersvc.Repository.Traffic.{Traffic, IsAllowed, ◌⟹*◌, stay, step, reads, writes, calls}
use go_ordersvc.Repository.Traffic.Moves.{Moves}
use go_ordersvc.Repository.Traffic.Lifecycle.{traffic-Moves}
use go_ordersvc.Server.{World}
use go_ordersvc.Server.Requests.Lifecycle.{
  Request, status_request, delete_request, after_requests, requests-Moves,
}
use go_ordersvc.Examples.Concrete.{sample, order, row, database_of, world_of}

abbrev quiet : Traffic sample
quiet = record { database = database_of (row ∷ []); held = [] }

constraints_met : IsTable quiet.database.content
unfolding valid_statuses
constraints_met = (refl, (refl, refl), tt)

abbrev confirmed_order : Order sample
confirmed_order = record order { status = confirmed; updated_at = 9 }

order_read : (find_by_id "u1" quiet.database).0 ≡ ok (some order)
unfolding find_by_id execute read_order unmarshal_items unmarshal_elems
order_read = refl

confirmed-IsAllowed : IsAllowed order.status confirmed
unfolding can_transition_to
confirmed-IsAllowed = inr refl

-- One client reads the order, another deletes it, and the first writes what it has read.
abbrev after_read : Traffic sample
after_read = record { database = (find_by_id "u1" quiet.database).1; held = order ∷ [] }

abbrev after_delete : Traffic sample
after_delete = record after_read { database = run_call (delete_call "u1") after_read.database }

abbrev after_write : Traffic sample
after_write = record after_delete { database = (update confirmed_order after_delete.database).1 }

busy : quiet ⟹* after_write
busy =
    step after_delete after_write
      (step after_read after_delete (step quiet after_read stay (reads "u1" order order_read))
        (calls (delete_call "u1") tt))
      (writes order confirmed_order (Memᴰ.head refl) refl refl confirmed-IsAllowed)

traffic-Moves_example :
    IsTable after_write.database.content × Moves quiet.database.content after_write.database.content
traffic-Moves_example = traffic-Moves quiet after_write constraints_met refl busy

-- An order is confirmed, then asked to be delivered at once, which is refused, and deleted.
abbrev three_requests : List (Request sample)
three_requests =
    status_request "u1" confirmed ∷ status_request "u1" "delivered" ∷ delete_request "u1" ∷ []

abbrev first_world : World sample
first_world = world_of (row ∷ []) []

requests-Moves_example :
    IsTable (after_requests ("kafka:9092" ∷ []) three_requests first_world).database.content
    × Moves first_world.database.content
        (after_requests ("kafka:9092" ∷ []) three_requests first_world).database.content
requests-Moves_example =
    requests-Moves ("kafka:9092" ∷ []) three_requests first_world constraints_met
