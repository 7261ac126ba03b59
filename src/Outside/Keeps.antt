-- ===== src/Outside/Keeps.antt =====
-- What a call to a server leaves of its content, whatever becomes of the call.
use go_ordersvc.Prelude.{arith, suc, ◌≡◌, refl}
use go_ordersvc.Domain.Errors.{Error}
use go_ordersvc.Effect.{Result, ok, err, Action, continue, ◌>>=◌}
use go_ordersvc.Outside.{
  Fault, clear, refused, unacknowledged, Condition, Server, settle, next_call, condition, execute,
}

module _ {D X A : Type 0} (R : D → D → Type 0) (same : (d : D) → R d d) where
  settle-content :
      (f : Fault) (s : Server D X) (r : Result (D × A))
      → ((d : D) (a : A) → r ≡ ok (d, a) → R s.content d)
      → R s.content (settle f s r).1.content
  settle-content clear s (ok (d, a)) h = h d a refl
  settle-content clear s (err e) h = same s.content
  settle-content (refused e) s r h = same s.content
  settle-content (unacknowledged e) s (ok (d, a)) h = h d a refl
  settle-content (unacknowledged e) s (err e') h = same s.content

  -- A relation that holds between the content and what a call makes of it holds between the content
  -- before and after, also where the call fails or its answer is lost.
  pub execute-content :
      (call : Condition X → D → Result (D × A)) (s : Server D X)
      → ((c : Condition X) (d : D) (a : A) → call c s.content ≡ ok (d, a) → R s.content d)
      → R s.content (execute call s).1.content
  unfolding execute
  execute-content call s h =
      settle-content (condition s).fault (next_call s) (call (condition s) s.content)
        (h (condition s))

module _ {D X A : Type 0} where
  settle-eq-ok :
      (f : Fault) (s : Server D X) (r : Result (D × A)) (a : A)
      → (settle f s r).0 ≡ ok a
      → (r ≡ ok ((settle f s r).1.content, a))
  settle-eq-ok clear s (ok (d, b)) a h = ground arith
  settle-eq-ok clear s (err e) a h = cc
  settle-eq-ok (refused e) s r a h = cc
  settle-eq-ok (unacknowledged e) s (ok (d, b)) a h = cc
  settle-eq-ok (unacknowledged e) s (err e') a h = cc

  -- A call that succeeded ran, and its change is there.
  pub execute-eq-ok :
      (call : Condition X → D → Result (D × A)) (s : Server D X) (a : A)
      → (execute call s).0 ≡ ok a
      → call (condition s) s.content ≡ ok ((execute call s).1.content, a)
  unfolding execute
  execute-eq-ok call s a h =
      settle-eq-ok (condition s).fault (next_call s) (call (condition s) s.content) a h

  settle-condition :
      (f : Fault) (s : Server D X) (r : Result (D × A)) → condition (settle f s r).1 ≡ condition s
  settle-condition clear s (ok (d, a)) = refl
  settle-condition clear s (err e) = refl
  settle-condition (refused e) s r = refl
  settle-condition (unacknowledged e) s (ok (d, a)) = refl
  settle-condition (unacknowledged e) s (err e') = refl

  -- The circumstances of the call after a call are the next ones.
  pub condition-execute :
      (call : Condition X → D → Result (D × A)) (s : Server D X)
      → condition (execute call s).1 ≡ s.upcoming (suc s.executed)
  unfolding execute
  condition-execute call s =
      settle-condition (condition s).fault (next_call s) (call (condition s) s.content)

  -- A call that meets no fault does what the server makes of it.
  pub execute-clear :
      (call : Condition X → D → Result (D × A)) (s : Server D X) (d : D) (a : A)
      → (condition s).fault ≡ clear
      → call (condition s) s.content ≡ ok (d, a)
      → execute call s ≡ (ok a, record s { content = d; executed = suc s.executed })
  unfolding execute
  execute-clear call s d a calm ran = rw (calm, ran) refl

  -- A call that the server refuses leaves the content alone.
  pub execute-clear_err :
      (call : Condition X → D → Result (D × A)) (s : Server D X) (e : Error)
      → (condition s).fault ≡ clear
      → call (condition s) s.content ≡ err e
      → execute call s ≡ (err e, record s { executed = suc s.executed })
  unfolding execute
  execute-clear_err call s e calm ran = rw (calm, ran) refl

-- A relation between the content before an action and after it.
abbrev pub Keeps : {D X A : Type 0} → (D → D → Type 0) → Action (Server D X) A → Type 0
Keeps {D} {X} R m = (s : Server D X) → R s.content (m s).1.content

module _ {D X A B : Type 0} (R : D → D → Type 0) (trans : (a b c : D) → R a b → R b c → R a c) where
  -- From one state, where what follows keeps the relation from every state.
  pub >>=-content :
      (m : Action (Server D X) A) (f : A → Action (Server D X) B) (s : Server D X)
      → R s.content (m s).1.content
      → ((a : A) → Keeps R (f a))
      → R s.content ((m >>= f) s).1.content
  >>=-content m f s hm hf = go (m s).0 (m s).1 hm
    where
      go :
          (r : Result A) (s' : Server D X)
          → R s.content s'.content
          → R s.content (continue f r s').1.content
      go (ok a) s' h = trans s.content s'.content (f a s').1.content h (hf a s')
      go (err e) s' h = h

  pub Keeps->>= :
      (m : Action (Server D X) A) (f : A → Action (Server D X) B)
      → Keeps R m
      → ((a : A) → Keeps R (f a))
      → Keeps R (m >>= f)
  Keeps->>= m f hm hf s = >>=-content m f s (hm s) hf
