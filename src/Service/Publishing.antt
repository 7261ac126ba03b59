-- ===== src/Service/Publishing.antt =====
-- What follows the change of an order: events that are published, and warnings where that fails.
use go_ordersvc.Prelude.{⊤, String, Option, none, some, ◌≡◌, refl, ◌∙◌, sym, ap}
use go_ordersvc.Platform.{Platform}
use go_ordersvc.Effect.{Result, ok, err, Action, ◌>>=◌, ◌>>◌, pure, continue}
use go_ordersvc.Domain.Errors.{Error}
use go_ordersvc.Domain.Order.{Order}
use go_ordersvc.Service.Interface.{EventPublisher, Runtime}
use go_ordersvc.Service.Steps.{publish, warn_about}

module _ {p : Platform} {S : Type 0} (rt : Runtime p S) where
  pub warn_about-ok :
      (text order_id : String) (r : Result ⊤) (s : S)
      → (s' : S) × (warn_about rt text order_id r s ≡ (ok tt, s'))
  warn_about-ok text order_id (ok _) s = (s, refl)
  warn_about-ok text order_id (err e) s = (_, refl)

  -- Publishing an event never fails the operation, whatever becomes of the event.
  pub publish-ok :
      (publisher : Option (EventPublisher p S)) (text : String) (order : Order p)
      (send : EventPublisher p S → Action S ⊤) (s : S)
      → (s' : S) × (publish rt publisher text order send s ≡ (ok tt, s'))
  publish-ok none text order send s = (s, refl)
  publish-ok (some publisher) text order send s =
      warn_about-ok text (p.uuid_string order.id) (send publisher s).0 (send publisher s).1

  -- An action followed by the publishing of its result ends as the action ends.
  pub published-result :
      (m : Action S (Order p)) (publisher : Option (EventPublisher p S)) (text : String)
      (send : Order p → EventPublisher p S → Action S ⊤) (rest : Order p → Action S (Order p))
      (s : S)
      → ((o : Order p) (s₁ : S) → (s' : S) × (rest o s₁ ≡ (ok o, s')))
      → ((m >>= λ saved. publish rt publisher text saved (send saved) >> rest saved) s).0 ≡ (m s).0
  published-result m publisher text send rest s calm = ended (m s).0 (m s).1
    where
      ended :
          (r : Result (Order p)) (s₁ : S)
          → (continue (λ saved. publish rt publisher text saved (send saved) >> rest saved) r s₁).0
            ≡ r
      ended (err e) s₁ = refl
      ended (ok saved) s₁ =
          let (s₂, e) = publish-ok publisher text saved (send saved) s₁ in
          let (s₃, e') = calm saved s₂ in rw e (ap (λ (x : Result (Order p) × S). x.0) e')

-- What neither a warning nor an event changes, seen through `view`.
module _ {p : Platform} {S X : Type 0} (rt : Runtime p S) (view : S → X)
    (quiet : (text id : String) (e : Error) (s : S) → view (rt.warn text id e s) ≡ view s) where
  warn_about-view :
      (text order_id : String) (r : Result ⊤) (s : S)
      → view (warn_about rt text order_id r s).1 ≡ view s
  warn_about-view text order_id (ok _) s = refl
  warn_about-view text order_id (err e) s = quiet text order_id e s

  publish-view :
      (publisher : Option (EventPublisher p S)) (text : String) (order : Order p)
      (send : EventPublisher p S → Action S ⊤)
      → ((sender : EventPublisher p S) (s : S)
          → publisher ≡ some sender
          → view (send sender s).1 ≡ view s)
      → (s : S) → view (publish rt publisher text order send s).1 ≡ view s
  publish-view none text order send same s = refl
  publish-view (some sender) text order send same s =
      warn_about-view text (p.uuid_string order.id) (send sender s).0 (send sender s).1
      ∙ same sender s refl

  -- The publishing of an action's result leaves what the action left.
  pub published-view :
      (m : Action S (Order p)) (publisher : Option (EventPublisher p S)) (text : String)
      (send : Order p → EventPublisher p S → Action S ⊤)
      → ((o : Order p) (sender : EventPublisher p S) (s : S)
          → publisher ≡ some sender
          → view (send o sender s).1 ≡ view s)
      → (s : S)
      → view ((m >>= λ saved. publish rt publisher text saved (send saved) >> pure saved) s).1
        ≡ view (m s).1
  published-view m publisher text send same s = ended (m s).0 (m s).1
    where
      ended :
          (r : Result (Order p)) (s₁ : S)
          → view
              (continue
                (λ saved. publish rt publisher text saved (send saved) >> pure saved)
                r
                s₁).1
            ≡ view s₁
      ended (err e) s₁ = refl
      ended (ok saved) s₁ =
          let (s₂, e) = publish-ok rt publisher text saved (send saved) s₁ in
          ap (λ (x : Result ⊤ × S). view (continue (λ _. pure saved) x.0 x.1).1) e
          ∙ ap (λ (x : Result ⊤ × S). view x.1) (sym e)
          ∙ publish-view publisher text saved (send saved) (same saved) s₁
