-- ===== src/Server/Created.antt =====
-- An order that `CreateOrder` has returned and that `GetOrderByID` is then asked for, over the
-- servers that `NewServer` connects the service to.
use go_ordersvc.Prelude.{
  String, none, some, List, [], ◌∷◌, ◌≡◌, ◌≢◌, refl, ◌∙◌, ap, sym, inl, inr, Bool-cases,
  Option-cases, str_eq,
}
use go_ordersvc.Platform.{Platform}
use go_ordersvc.Effect.{Result, ok, err, pure}
use go_ordersvc.Outside.{Condition, clear, condition}
use go_ordersvc.Domain.Errors.{domain}
use go_ordersvc.Domain.Order.{Order}
use go_ordersvc.Repository.Database.{Database, RowOrder}
use go_ordersvc.Repository.Postgres.{create, find_by_id}
use go_ordersvc.Repository.Listing.{new_order_repository}
use go_ordersvc.Service.Steps.{find_existing}
use go_ordersvc.Repository.Creation.{first_version, Stored, find-create, create-condition}
use go_ordersvc.Cache.Redis.{get}
use go_ordersvc.Service.Interface.{CreateOrderDto, EventPublisher}
use go_ordersvc.Service.Impl.{create_order, get_order_by_id}
use go_ordersvc.Service.Creation.{
  IsDraftOf, dto_error, persisted, create_order-persisted, create_order_refused,
}
use go_ordersvc.Service.Reading.{get_order_by_id-found, IsMissed}
use go_ordersvc.Service.Publishing.{published-result, published-view}
use go_ordersvc.Server.{World, runtime, repository, order_cache, publisher_for, dependencies}

module _ {p : Platform} where
  -- Publishing does not touch the database.
  publisher_for-database :
      (brokers : List String) (o : Order p) (w : World p)
      → ((publisher_for p brokers).publish_order_created o w).1.database ≡ w.database
  unfolding publisher_for
  publisher_for-database [] o w = refl
  publisher_for-database (broker ∷ brokers) o w = elim (Bool-cases (str_eq broker "")) [
    | inl t ↦ rw t refl
    | inr f ↦ rw f refl
  ]

  -- Neither does a miss of the cache.
  pub IsMissed-database :
      (id : String) (w w₁ : World p)
      → IsMissed (runtime p) (order_cache p) id w w₁
      → w₁.database ≡ w.database
  unfolding order_cache
  IsMissed-database id w w₁ (inl same) = ap (λ (x : World p). x.database) same
  IsMissed-database id w w₁ (inr (e, same)) = ap (λ (x : World p). x.database) same

  find_existing-found :
      (id : String) (w : World p) (stored : Order p)
      → (find_by_id id w.database).0 ≡ ok (some stored)
      → (find_existing (repository p) id w).0 ≡ ok stored
  unfolding repository new_order_repository
  find_existing-found id w stored found = rw found refl

  sender-database :
      (brokers : List String) (o : Order p) (sender : EventPublisher p (World p)) (w : World p)
      → (dependencies p brokers).publisher ≡ some sender
      → (sender.publish_order_created o w).1.database ≡ w.database
  unfolding dependencies
  sender-database brokers o sender w used =
      let same : publisher_for p brokers ≡ sender = cc in
      ap (λ (k : EventPublisher p (World p)). (k.publish_order_created o w).1.database) (sym same)
      ∙ publisher_for-database brokers o w

  -- What the end of `CreateOrder` leaves in the database, where it succeeds.
  persisted-database :
      (brokers : List String) (order saved : Order p) (w w₁ : World p)
      → persisted (runtime p) (dependencies p brokers) order w ≡ (ok saved, w₁)
      → ((create order w.database).0 ≡ ok saved) × (w₁.database ≡ (create order w.database).1)
  unfolding dependencies repository new_order_repository
  persisted-database brokers order saved w w₁ ran =
      let svc = dependencies p brokers in
      (
        sym (
              published-result (runtime p) (svc.repo.create order) svc.publisher
                "failed to publish order.created event"
                (λ o publisher. publisher.publish_order_created o) (λ o. pure o) w
                (λ o s. (s, refl)))
            ∙ ap (λ (x : Result (Order p) × World p). x.0) ran,
        sym (ap (λ (x : Result (Order p) × World p). x.1.database) ran)
            ∙ published-view (runtime p) (λ (x : World p). x.database) (λ text id e s. refl)
                (svc.repo.create order) svc.publisher "failed to publish order.created event"
                (λ o publisher. publisher.publish_order_created o)
                (λ o sender x used. sender-database brokers o sender x used) w,
      )

  -- A request that succeeded was valid.
  created-dto_error :
      (brokers : List String) (dto : CreateOrderDto p) (w w₁ : World p) (saved : Order p)
      → create_order (runtime p) (dependencies p brokers) dto w ≡ (ok saved, w₁)
      → dto_error (runtime p) dto ≡ none
  created-dto_error brokers dto w w₁ saved ran = elim (Option-cases (dto_error (runtime p) dto)) [
    | inl good ↦ good
    | inr (e, bad) ↦
        let svc = dependencies p brokers in
        let refused = (create_order_refused (runtime p) svc svc dto w e bad).0 in
        let both : ok saved ≡ err (domain e) =
          ap (λ (x : Result (Order p) × World p). x.0) (sym ran) ∙ refused in
        cc
  ]

  -- Over the servers that NewServer connects: the order that a successful CreateOrder returns is what
  -- GetOrderByID returns for its id right after it, with the customer, the total and the times as the
  -- columns hold them, where the cache has no order for the id and the read of the database meets no
  -- fault. It was made from the request, pending, at version 1, and what becomes of the event does not
  -- matter.
  pub get_order_by_id-create_order :
      (brokers : List String) (dto : CreateOrderDto p) (w w₁ : World p) (saved : Order p)
      → create_order (runtime p) (dependencies p brokers) dto w ≡ (ok saved, w₁)
      → ((order : Order p) → (get (p.uuid_string saved.id) w₁.redis).0 ≢ ok (some order))
      → (condition w₁.database).fault ≡ clear
      → (order stored : Order p) × IsDraftOf dto order
        × (saved ≡ first_version order)
        × Stored order stored
        × ((get_order_by_id (runtime p) (dependencies p brokers) (p.uuid_string saved.id) w₁).0
            ≡ ok stored)
  unfolding dependencies order_cache
  get_order_by_id-create_order brokers dto w w₁ saved ran miss calm =
      let (order, w', made, _, ended) =
        create_order-persisted (runtime p) (dependencies p brokers) dto w
          (created-dto_error brokers dto w w₁ saved ran) in
      let (created, left) = persisted-database brokers order saved w' w₁ (sym ended ∙ ran) in
      let next =
        ap (λ (c : Condition (RowOrder p)). c.fault)
          (sym (create-condition order saved w'.database created) ∙ ap condition (sym left))
        ∙ calm in
      let (same, (stored, read, kept)) = find-create order saved w'.database created next in
      let id = p.uuid_string saved.id in
      let (w₂, missed, found) =
        get_order_by_id-found (runtime p) (dependencies p brokers) (order_cache p) id w₁ refl
          miss in
      let here = IsMissed-database id w₁ w₂ missed ∙ left in
      let answer =
        ap (λ (db : Database p). (find_by_id id db).0) here
        ∙ ap (λ (o : Order p). (find_by_id (p.uuid_string o.id) (create order w'.database).1).0)
            same
        ∙ read in
      (order, stored, made, same, kept, found ∙ find_existing-found id w₂ stored answer)
