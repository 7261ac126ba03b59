-- ===== src/Repository/Pages.antt =====
-- What `List` and `FindByCustomerID` return.
use mathlib.Core.Bool.{and-eq-true_iff}
use go_ordersvc.Prelude.{
  ℕ, suc, ◌≤◌, Bool, true, String, Option, none, some, List, [], ◌∷◌, ◌≡◌, refl, ◌∙◌, inl, inr,
  arith, ap, sym, subst, length, select, take, drop, All, All-take, All-drop, All-select,
  length-take-le, str_eq_iff,
}
use go_ordersvc.Prelude.Int.{ℤ, pos, pos_part}
use go_ordersvc.Platform.{Platform}
use go_ordersvc.Effect.{Result-cases, ok, ◌>>=◌, >>=-eq-ok}
use go_ordersvc.Outside.{Condition, condition, execute}
use go_ordersvc.Outside.Keeps.{execute-eq-ok, condition-execute}
use go_ordersvc.Domain.Status.{OrderStatus}
use go_ordersvc.Domain.Order.{Order}
use go_ordersvc.Repository.Interface.{ListOptions}
use go_ordersvc.Repository.Database.{Row, RowOrder, Database, is_live}
use go_ordersvc.Repository.Postgres.{read_order}
use go_ordersvc.Repository.Listing.{
  listed, listed_for, has_status, count_where, select_page, read_orders, read_page, list_where,
  list, find_by_customer_id,
}
use go_ordersvc.Repository.Reads.{ReadFrom, read_order-ReadFrom}

module _ {p : Platform} where
  -- The server returns rows in some order and invents none.
  abbrev pub Reorders : RowOrder p → Type 1
  Reorders order_by =
      (P : Row p → Type 0) (rows : List (Row p)) → All P rows → All P (order_by rows)

  read_orders-cons :
      (r : Row p) (rows : List (Row p)) (orders : List (Order p))
      → read_orders (r ∷ rows) ≡ ok orders
      → (o : Order p) × (os : List (Order p)) × (read_order r ≡ ok o)
        × (read_orders rows ≡ ok os)
        × (orders ≡ o ∷ os)
  unfolding read_orders
  read_orders-cons r rows orders h = elim (Result-cases (read_order r)) [
    | inr (e, bad) ↦ ground arith
    | inl (o, good) ↦ elim (Result-cases (read_orders rows)) [
      | inr (e, bad) ↦ ground arith
      | inl (os, later) ↦ (o, os, good, later, ground arith)
    ]
  ]

  -- The orders that rows are read into have what every row has that a reading keeps.
  read_orders-All :
      (P : Row p → Type 0) (Q : Order p → Type 0)
      → ((r : Row p) (o : Order p) → ReadFrom r o → P r → Q o)
      → (rows : List (Row p)) (orders : List (Order p)) → read_orders rows ≡ ok orders
      → All P rows
      → All Q orders × (length orders ≡ length rows)
  unfolding read_orders
  read_orders-All P Q keep [] orders h _ =
      let none_read : orders ≡ [] = ground arith in rw none_read (tt, refl)
  read_orders-All P Q keep (r ∷ rows) orders h (here, later) =
      let (o, os, good, more, split) = read_orders-cons r rows orders h in
      let (all, same) = read_orders-All P Q keep rows os more later in
      rw split ((keep r o (read_order-ReadFrom r o good) here, all), ap suc same)

  -- The status that the options ask for, if they do.
  abbrev pub HasStatus : Option OrderStatus → Order p → Type 0
  HasStatus none o = Unit
  HasStatus (some status) o = o.status ≡ status

  -- An order that a query with these options may return.
  abbrev pub IsListed : ListOptions → Order p → Type 0
  IsListed opts o = (o.deleted_at ≡ none) × HasStatus opts.status o

  select_page-eq-ok :
      (taken : Bool) (test : Row p → Bool) (opts : ListOptions) (c : Condition (RowOrder p))
      (rows rows' page : List (Row p))
      → select_page taken test opts c rows ≡ ok (rows', page)
      → page
        ≡ take (pos_part opts.limit) (drop (pos_part opts.offset) (c.chosen (select test rows)))
  select_page-eq-ok taken test opts c rows rows' page h = ground arith

  has_status-keeps :
      (status : Option OrderStatus) (r : Row p) (o : Order p)
      → o.status ≡ r.status
      → has_status status r ≡ true
      → HasStatus status o
  has_status-keeps none r o same h = tt
  has_status-keeps (some status) r o same h = same ∙ (str_eq_iff r.status status).0 h

  live_not_deleted :
      (r : Row p) (o : Order p)
      → o.deleted_at ≡ r.deleted_at
      → is_live r ≡ true
      → o.deleted_at ≡ none
  live_not_deleted r o same live = ground arith

  listed-keeps :
      (opts : ListOptions) (r : Row p) (o : Order p)
      → ReadFrom r o
      → listed opts r ≡ true
      → IsListed opts o
  listed-keeps opts r o (_, _, status, _, deleted) h =
      let (live, wanted) = (and-eq-true_iff (is_live r) (has_status opts.status r)).0 h in
      (live_not_deleted r o deleted live, has_status-keeps opts.status r o status wanted)

  -- A page of the rows that pass a test: they pass it, and they are no more than the limit.
  page_rows :
      (test : Row p → Bool) (order_by : RowOrder p) (limit offset : ℕ) (rows page : List (Row p))
      → Reorders order_by
      → page ≡ take limit (drop offset (order_by (select test rows)))
      → All (λ r. test r ≡ true) page × (length page ≤ limit)
  page_rows test order_by limit offset rows page honest cut =
      let passing : Row p → Type 0 = λ r. test r ≡ true in
      rw cut (
        All-take passing limit _
            (All-drop passing offset _ (honest passing (select test rows) (All-select test rows))),
        length-take-le limit _,
      )

  count_where-eq-ok :
      (taken : Bool) (test : Row p → Bool) (c : Condition (RowOrder p)) (rows rows' : List (Row p))
      (n : ℤ)
      → count_where taken test c rows ≡ ok (rows', n)
      → (rows' ≡ rows) × (n ≡ pos (length (select test rows)))
  count_where-eq-ok taken test c rows rows' n h = (ground arith, ground arith)

  read_page-eq-ok :
      (total n : ℤ) (rows : List (Row p)) (orders : List (Order p)) (db : Database p)
      → (read_page total rows db).0 ≡ ok (orders, n)
      → (read_orders rows ≡ ok orders) × (n ≡ total)
  read_page-eq-ok total n rows orders db h = elim (Result-cases (read_orders rows)) [
    | inl (read, good) ↦ (ground arith, ground arith)
    | inr (e, bad) ↦ ground arith
  ]

  -- What a query by a test returns.
  list_where-All :
      (taken : Bool) (test : Row p → Bool) (opts : ListOptions) (Q : Order p → Type 0)
      (db : Database p) (orders : List (Order p)) (n : ℤ)
      → Reorders ((db.upcoming (suc db.executed)).chosen)
      → ((r : Row p) (o : Order p) → ReadFrom r o → test r ≡ true → Q o)
      → (list_where taken test opts db).0 ≡ ok (orders, n)
      → All Q orders
        × (length orders ≤ pos_part opts.limit)
        × (n ≡ pos (length (select test db.content)))
  unfolding list_where
  list_where-All taken test opts Q db orders n honest keep h =
      let counted = execute (count_where taken test) in
      let paged = execute (select_page taken test opts) in
      let (total, ran, after, _) =
        >>=-eq-ok counted (λ total_count. paged >>= read_page total_count) db h in
      let db' = (counted db).1 in
      let (rows, ran', read, _) = >>=-eq-ok paged (read_page total) db' after in
      let (same_rows, count) =
        count_where-eq-ok taken test (condition db) db.content db'.content total
          (execute-eq-ok (count_where taken test) db total ran) in
      let cut =
        select_page-eq-ok taken test opts (condition db') db'.content (paged db').1.content rows
          (execute-eq-ok (select_page taken test opts) db' rows ran') in
      let now =
        ap (λ (c : Condition (RowOrder p)). c.chosen)
          (condition-execute (count_where taken test) db) in
      let (kept, short) =
        page_rows test _ (pos_part opts.limit) (pos_part opts.offset) db'.content rows
          (subst Reorders (sym now) honest) cut in
      let (was_read, n_total) = read_page-eq-ok total n rows orders (paged db').1 read in
      let (all, same) = read_orders-All (λ r. test r ≡ true) Q keep rows orders was_read kept in
      (all, subst (λ k. k ≤ pos_part opts.limit) (sym same) short, n_total ∙ count)

  -- Where `List` answers, every order on the page is live and has the status that was asked for,
  -- the page is no longer than the limit, and the count is the number of all rows that match.
  pub list-IsListed :
      (opts : ListOptions) (db : Database p) (orders : List (Order p)) (n : ℤ)
      → Reorders ((db.upcoming (suc db.executed)).chosen)
      → (list opts db).0 ≡ ok (orders, n)
      → All (IsListed opts) orders
        × (length orders ≤ pos_part opts.limit)
        × (n ≡ pos (length (select (listed opts) db.content)))
  unfolding list
  list-IsListed opts db orders n honest h =
      list_where-All _ (listed opts) opts (IsListed opts) db orders n honest (listed-keeps opts) h

  -- Where `FindByCustomerID` answers, every order on the page is the customer's, live and in the
  -- status that was asked for, the page is no longer than the limit, and the count is the number of
  -- all rows that match.
  pub find_by_customer_id-IsListed :
      (customer_id : String) (opts : ListOptions) (db : Database p) (orders : List (Order p))
      (n : ℤ)
      → Reorders ((db.upcoming (suc db.executed)).chosen)
      → (find_by_customer_id customer_id opts db).0 ≡ ok (orders, n)
      → All (λ o. (o.customer_id ≡ customer_id) × IsListed opts o) orders
        × (length orders ≤ pos_part opts.limit)
        × (n ≡ pos (length (select (listed_for customer_id opts) db.content)))
  unfolding find_by_customer_id
  find_by_customer_id-IsListed customer_id opts db orders n honest h =
      list_where-All _ (listed_for customer_id opts) opts
        (λ o. (o.customer_id ≡ customer_id) × IsListed opts o) db orders n honest
        (λ r o from hit.
          let (own, rest) = (and-eq-true_iff _ _).0 hit in
          (from.3 ∙ (str_eq_iff r.customer_id customer_id).0 own, listed-keeps opts r o from rest))
        h
