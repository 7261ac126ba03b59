-- ===== src/Effect.antt =====
-- A Go function that returns `(value, error)` and acts on the outside world: an action on a state
-- `S` that ends in a value or in an error. What was done before an error stays done.
use go_ordersvc.Prelude.{◌⊎◌, inl, inr, ◌≡◌, ◌≢◌, refl, ⊤, Option, none, some}
use go_ordersvc.Domain.Errors.{Error, DomainError, domain}

pub data Result {ℓ} (A : Type ℓ) : Type ℓ where
  ok : A → Result A
  err : Error → Result A

abbrev pub Action : Type 0 → Type 0 → Type 0
Action S A = S → Result A × S

module _ {S A : Type 0} where
  abbrev pub pure : A → Action S A
  pure a s = (ok a, s)

  abbrev pub fail : Error → Action S A
  fail e s = (err e, s)

  -- A call that cannot fail.
  abbrev pub run : (S → A × S) → Action S A
  run f s = let (a, s') = f s in (ok a, s')

  -- `return nil, domain.ErrX`
  abbrev pub throw : DomainError → Action S A
  throw e s = (err (domain e), s)

  -- The error of an action as a value, for `if err := f(); err != nil { … }` that goes on.
  abbrev pub attempt : Action S A → Action S (Result A)
  attempt m s = let (r, s') = m s in (ok r, s')

-- What follows an action, by how it ended.
abbrev pub continue : {S A B : Type 0} → (A → Action S B) → Result A → S → Result B × S
continue f (ok a) s = f a s
continue f (err e) s = (err e, s)

infixl 5 ◌>>=◌ ◌>>◌
abbrev pub ◌>>=◌ : {S A B : Type 0} → Action S A → (A → Action S B) → Action S B
◌>>=◌ m f s = let (r, s') = m s in continue f r s'

abbrev pub ◌>>◌ : {S A B : Type 0} → Action S A → Action S B → Action S B
m >> k = m >>= λ _. k

module _ {S : Type 0} where
  -- `if err := check; err != nil { return nil, err }`
  abbrev pub check : Option DomainError → Action S ⊤
  check none s = (ok tt, s)
  check (some e) s = (err (domain e), s)

  abbrev pub modify : (S → S) → Action S ⊤
  modify f s = (ok tt, f s)

-- An action on a part of the state.
abbrev pub zoom : {S T A : Type 0} → (S → T) → (T → S → S) → Action T A → Action S A
zoom get put m s = let (r, t) = m (get s) in (r, put t s)

-- A successful action that was followed by another: both succeeded.
pub >>=-eq-ok :
    {S A B : Type 0} (m : Action S A) (f : A → Action S B) (s : S) {b : B}
    → ((m >>= f) s).0 ≡ ok b
    → (a : A) × ((m s).0 ≡ ok a) × ((f a (m s).1).0 ≡ ok b) × ((m >>= f) s ≡ f a (m s).1)
>>=-eq-ok {S} {A} {B} m f s {b} h = go (m s).0 (m s).1 h
  where
    go :
        (r : Result A) (s' : S)
        → (continue f r s').0 ≡ ok b
        → (a : A) × (r ≡ ok a) × ((f a s').0 ≡ ok b) × (continue f r s' ≡ f a s')
    go (ok a) s' e = (a, refl, e, refl)
    go (err x) s' e = cc

pub Result-cases {ℓ} :
    {A : Type ℓ} (r : Result A) → ((a : A) × (r ≡ ok a)) ⊎ ((e : Error) × (r ≡ err e))
Result-cases (ok a) = inl (a, refl)
Result-cases (err e) = inr (e, refl)

pub err-neq-ok : {A : Type 0} {e : Error} {a : A} → err e ≢ ok a
err-neq-ok h = cc

pub ok-injective : {A : Type 0} {a b : A} → ok a ≡ ok b → a ≡ b
ok-injective h = cc
