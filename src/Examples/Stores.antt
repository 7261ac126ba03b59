-- ===== src/Examples/Stores.antt =====
-- The repository's, the cache's and the JSON's theorems at a table with one order.
use go_ordersvc.Prelude.{
  String, suc, ℕ, zero, ◌≤◌, ◌↔◌, true, some, List, [], ◌∷◌, ◌≡◌, ◌≢◌, refl, arith, length, select,
  All,
}
use go_ordersvc.Prelude.Int.{pos, ◌+ℤ◌, int64}
use go_ordersvc.Json.{Json, nil, obj}
use go_ordersvc.Json.Items.{marshal_items, unmarshal_items, unmarshal_elems}
use go_ordersvc.Json.Orders.{order_fields, marshal_order}
use go_ordersvc.Effect.{ok, err}
use go_ordersvc.Outside.{execute}
use go_ordersvc.Domain.Status.{valid_statuses, pending, confirmed, can_transition_to}
use go_ordersvc.Domain.Lifecycle.{confirm, ◌⟶◌, accepts, accepts-length, can_transition_to_iff}
use go_ordersvc.Domain.Order.{Order}
use go_ordersvc.Repository.Interface.{ListOptions}
use go_ordersvc.Repository.Database.{Row, Database, select_first}
use go_ordersvc.Repository.Postgres.{find_by_id, create, update, delete, read_order}
use go_ordersvc.Repository.Listing.{list_where, list, find_by_customer_id, read_orders, listed_for}
use go_ordersvc.Repository.Rows.{has_id}
use go_ordersvc.Repository.History.{Follows}
use go_ordersvc.Repository.Table.{IsTable}
use go_ordersvc.Repository.Calls.{Call, find_call, run_calls, run_calls-keeps}
use go_ordersvc.Repository.Locking.{no_lost_update, update-Updated, Updated, next_version}
use go_ordersvc.Repository.Reads.{ReadFrom}
use go_ordersvc.Repository.Transitions.{transition-Steps, Steps}
use go_ordersvc.Repository.Deletion.{delete-final}
use go_ordersvc.Repository.Creation.{find-create, Stored, first_version}
use go_ordersvc.Repository.Refusals.{update_refused, refusal}
use go_ordersvc.Repository.Pages.{find_by_customer_id-IsListed, IsListed}
use go_ordersvc.Repository.Abstract.Statements.{as_server}
use go_ordersvc.Repository.Abstract.Clients.{
  Request, find_request, update_request, delete_request, serve_all, obey_all, serve_all-obey_all,
}
use go_ordersvc.Cache.Redis
use go_ordersvc.Cache.Redis.{RedisServer, order_key}
use go_ordersvc.Cache.Laws.{get-set}
use go_ordersvc.Cache.Patterns.{
  more, last, after_round, all_keys, LeavesOthers, delete_pattern-ends,
}
use go_ordersvc.Examples.Concrete.{sample, order, row, database_of, redis_of, calm}

abbrev table : Database sample
table = database_of (row ∷ [])

constraints_met : IsTable table.content
unfolding valid_statuses
constraints_met = (refl, (refl, refl), tt)

abbrev read_first : List (Call sample)
read_first = find_call "u1" ∷ []

abbrev confirmed_order : Order sample
confirmed_order = record order { status = confirmed; updated_at = 9 }

order_read : (find_by_id "u1" table).0 ≡ ok (some order)
unfolding find_by_id execute read_order unmarshal_items unmarshal_elems
order_read = refl

order_written :
    (update confirmed_order (run_calls read_first table)).0 ≡ ok (next_version confirmed_order)
unfolding find_by_id update execute marshal_items read_order unmarshal_items unmarshal_elems
    valid_statuses ◌+ℤ◌ int64
order_written = refl

abbrev options : ListOptions
options = record { limit = pos 10; offset = pos 0; status = some pending }

order_updated : (update confirmed_order table).0 ≡ ok (next_version confirmed_order)
unfolding update execute marshal_items valid_statuses ◌+ℤ◌ int64
order_updated = refl

order_created : (create order (database_of [])).0 ≡ ok (first_version order)
unfolding create execute marshal_items valid_statuses
order_created = refl

order_listed : (list options table).0 ≡ ok (order ∷ [], pos 1)
unfolding list list_where execute read_orders read_order unmarshal_items unmarshal_elems
order_listed = refl

customer_listed : (find_by_customer_id "c1" options table).0 ≡ ok (order ∷ [], pos 1)
unfolding find_by_customer_id list_where execute read_orders read_order unmarshal_items
    unmarshal_elems
customer_listed = refl

transitions_accepted : accepts pending (confirmed ∷ "cancelled" ∷ []) ≡ true
unfolding can_transition_to
transitions_accepted = refl

no_lost_update_example :
    (r : Row sample) × ReadFrom r order
    × (select_first (has_id order.id) table.content ≡ some r)
    × (select_first (has_id order.id) (run_calls read_first table).content ≡ some r)
no_lost_update_example =
    no_lost_update "u1" order confirmed_order (next_version confirmed_order) read_first table
      constraints_met order_read refl refl order_written

transition-Steps_example :
    Steps order.id
      (run_calls read_first table).content
      (update confirmed_order (run_calls read_first table)).1.content
transition-Steps_example =
    transition-Steps "u1" order confirmed_order (next_version confirmed_order) read_first table
      constraints_met order_read refl refl (confirm refl refl) order_written

run_calls-keeps_example :
    IsTable (run_calls read_first table).content
    × ((r' : Row sample) × (select_first (has_id "u1") (run_calls read_first table).content
          ≡ some r')
        × Follows row r')
run_calls-keeps_example = run_calls-keeps read_first table "u1" row constraints_met refl

update-Updated_example :
    Updated confirmed_order table.content (update confirmed_order table).1.content
    × (next_version confirmed_order ≡ next_version confirmed_order)
update-Updated_example =
    update-Updated confirmed_order (next_version confirmed_order) table constraints_met
      order_updated

order_deleted : (delete "u1" table).0 ≡ ok tt
unfolding delete execute ◌+ℤ◌
order_deleted = refl

delete-final_example :
    (find_by_id "u1" (run_calls read_first (delete "u1" table).1)).0 ≢ ok (some order)
delete-final_example = delete-final "u1" read_first table order constraints_met order_deleted

find-create_example :
    (first_version order ≡ first_version order)
    × ((stored : Order sample) × ((find_by_id "u1" (create order (database_of [])).1).0
          ≡ ok (some stored))
        × Stored order stored)
find-create_example = find-create order (first_version order) (database_of []) order_created refl

update_refused_example :
    ((update (next_version order) table).0 ≡ err (refusal (next_version order) nil table.content))
    × ((update (next_version order) table).1.content ≡ table.content)
unfolding marshal_items int64 ◌+ℤ◌
update_refused_example = update_refused (next_version order) nil table (refl, refl) refl refl

find_by_customer_id-IsListed_example :
    All (λ (o : Order sample). (o.customer_id ≡ "c1") × IsListed options o) (order ∷ [])
    × (1 ≤ 10)
    × (pos 1 ≡ pos (length (select (listed_for "c1" options) table.content)))
find_by_customer_id-IsListed_example =
    find_by_customer_id-IsListed "c1" options table (order ∷ []) (pos 1) (λ P rows all. all)
      customer_listed

abbrev order_json : Json sample.Float64
order_json = obj (order_fields sample order nil)

order_marshalled : marshal_order sample order ≡ some order_json
unfolding marshal_order marshal_items
order_marshalled = refl

abbrev empty_cache : RedisServer sample
empty_cache = redis_of []

get-set_example : (Redis.get "u1" (Redis.set order 100 empty_cache).1).0 ≡ ok (some order)
get-set_example = get-set order order_json 100 empty_cache order_marshalled refl refl (omega arith)

accepts-length_example : 2 ≤ 4
accepts-length_example = accepts-length pending (confirmed ∷ "cancelled" ∷ []) transitions_accepted

can_transition_to_iff_example : (can_transition_to pending confirmed ≡ true) ↔ (pending ⟶ confirmed)
can_transition_to_iff_example = can_transition_to_iff pending confirmed

-- A cache whose SCAN takes two rounds, by the cursor 3, and returns its one key in both.
abbrev next_cursor : ℕ → ℕ
next_cursor zero = 3
next_cursor (suc cursor) = 0

abbrev scanning_cache : RedisServer sample
scanning_cache = record (Redis.set order 100 empty_cache).1 {
  upcoming = λ n. calm (λ cursor pattern ks. ("order:u1" ∷ [], next_cursor cursor));
}

abbrev two_answers : List (List String)
two_answers = ("order:u1" ∷ []) ∷ ("order:u1" ∷ []) ∷ []

delete_pattern-ends_example :
    (c : RedisServer sample) × (Redis.delete_pattern 2 "order:*" scanning_cache ≡ (ok (some tt), c))
    × LeavesOthers (all_keys two_answers) scanning_cache c
delete_pattern-ends_example =
    delete_pattern-ends 2 "order:*" scanning_cache two_answers (λ k. refl)
      (more 0 scanning_cache (("order:u1" ∷ []) ∷ []) (λ h. absurd (omega (arith, h)))
        (last 3 (after_round ("order:u1" ∷ []) scanning_cache) refl))
      (omega arith)

-- A version that is stale by then is written after the right one.
abbrev requests : List (Request sample)
requests =
    find_request "u1"
    ∷ update_request confirmed_order
    ∷ update_request confirmed_order
    ∷ delete_request "u1"
    ∷ []

serve_all-obey_all_example :
    obey_all requests (as_server table)
    ≡ ((serve_all requests table).0, as_server (serve_all requests table).1)
serve_all-obey_all_example = serve_all-obey_all requests table constraints_met
