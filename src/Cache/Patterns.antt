-- ===== src/Cache/Patterns.antt =====
-- When the loop of `DeletePattern` ends, and what it has deleted then.
use mathlib.Core.List.{append-nil}
use go_ordersvc.Prelude.{
  ℕ, zero, suc, true, false, Bool, String, none, some, List, [], ◌∷◌, ◌++◌, ◌≡◌, ◌≢◌, refl, ◌∙◌, ap,
  arith, inl, inr, Bool-cases, ◌==◌, ◌≤◌, if◌then◌else◌, length, str_eq, str_eq_iff,
}
use go_ordersvc.Platform.{Platform}
use go_ordersvc.Effect.{Result, ok}
use go_ordersvc.Outside.{Condition, clear, condition}
use go_ordersvc.Domain.Status.{contains}
use go_ordersvc.Cache.Redis.{
  Keys, Scan, RedisServer, lookup_key, remove_key, remove_keys, delete_scanned, scan_from,
  delete_pattern,
}
use go_ordersvc.Cache.Laws.{after, call-clear, lookup-remove, lookup-remove_other}

-- The keys of all answers, in order.
abbrev pub all_keys : List (List String) → List String
all_keys [] = []
all_keys (keys ∷ pages) = keys ++ all_keys pages

same_either : {A : Type 0} (b : Bool) (a : A) → (if b then a else a) ≡ a
same_either true a = refl
same_either false a = refl

differs : (j k : String) → str_eq j k ≡ false → str_eq j k ≡ true → ⊥
differs j k other same = cc

not_last : (n : ℕ) → n ≢ 0 → (n == 0) ≡ false
not_last zero h = absurd (h refl)
not_last (suc n) h = ground arith

contains-++ :
    (k : String) (xs ys : List String)
    → contains k (xs ++ ys) ≡ (if contains k xs then true else contains k ys)
contains-++ k [] ys = refl
contains-++ k (x ∷ xs) ys = elim (Bool-cases (str_eq x k)) [
  | inl same ↦ rw same refl
  | inr other ↦ rw other (contains-++ k xs ys)
]

module _ {p : Platform} where
  -- The keys and the next cursor that the server gives for the next SCAN.
  abbrev pub scanned : ℕ → String → RedisServer p → List String × ℕ
  scanned cursor pattern c = (condition c).chosen cursor pattern c.content

  -- The server after a round: one call, and a second one that deletes, if there are keys.
  abbrev pub after_round : List String → RedisServer p → RedisServer p
  after_round [] c = after c c.content
  after_round (k ∷ ks) c =
      let seen = after c c.content in after seen (remove_keys (k ∷ ks) seen.content)

  -- The server's answers to SCAN, where each call is given the cursor of the answer before: a cursor
  -- other than zero until the last one. Nothing else is asked of the cursors.
  pub data Answers (pattern : String) : ℕ → RedisServer p → List (List String) → Type 0 where
    last :
        (cursor : ℕ) (c : RedisServer p)
        → (scanned cursor pattern c).1 ≡ 0
        → Answers pattern cursor c ((scanned cursor pattern c).0 ∷ [])
    more :
        (cursor : ℕ) (c : RedisServer p) (pages : List (List String))
        → (scanned cursor pattern c).1 ≢ 0
        → Answers pattern
            (scanned cursor pattern c).1
            (after_round (scanned cursor pattern c).0 c)
            pages
        → Answers pattern cursor c ((scanned cursor pattern c).0 ∷ pages)

  abbrev pub IsCalm : RedisServer p → Type 0
  IsCalm c = (k : ℕ) → (c.upcoming k).fault ≡ clear

  -- A key that is among the removed ones is gone, and any other is as it was.
  lookup-remove_keys :
      (ks : List String) (k : String) (now : ℕ) (keys : Keys p)
      → lookup_key k now (remove_keys ks keys)
        ≡ (if contains k ks then none else lookup_key k now keys)
  lookup-remove_keys [] k now keys = refl
  lookup-remove_keys (j ∷ ks) k now keys = elim (Bool-cases (str_eq j k)) [
    | inl same ↦
        let at : j ≡ k = (str_eq_iff j k).0 same in
        rw same (
          lookup-remove_keys ks k now (remove_key j keys)
          ∙ rw at (rw (lookup-remove k now keys) (same_either (contains k ks) none)))
    | inr other ↦
        let apart : j ≢ k = λ e. differs j k other ((str_eq_iff j k).1 e) in
        rw other (
          lookup-remove_keys ks k now (remove_key j keys)
          ∙ rw (lookup-remove_other k j now keys apart) refl)
  ]

  after_round-content :
      (found : List String) (c : RedisServer p)
      → (after_round found c).content ≡ remove_keys found c.content
  after_round-content [] c = refl
  after_round-content (k ∷ ks) c = refl

  after_round-IsCalm :
      (found : List String) (c : RedisServer p) → IsCalm c → IsCalm (after_round found c)
  after_round-IsCalm [] c calm = calm
  after_round-IsCalm (k ∷ ks) c calm = calm

  delete_scanned-after_round :
      (pattern : String) (found : List String) (c : RedisServer p)
      → IsCalm c
      → delete_scanned pattern found (after c c.content) ≡ (ok tt, after_round found c)
  delete_scanned-after_round pattern [] c calm = refl
  delete_scanned-after_round pattern (k ∷ ks) c calm =
      let seen = after c c.content in
      call-clear "cache del pattern " pattern _ seen (remove_keys (k ∷ ks) seen.content) tt
        (calm seen.executed) refl

  abbrev scan_page : ℕ → String → Condition (Scan p) → Keys p → Result (Keys p × (List String × ℕ))
  scan_page cursor pattern c keys = ok (keys, c.chosen cursor pattern keys)

  -- What is left of a server's keys.
  abbrev pub LeavesOthers : List String → RedisServer p → RedisServer p → Type 0
  LeavesOthers gone c c' =
      (k : String) (now : ℕ)
      → lookup_key k now c'.content ≡ (if contains k gone then none else lookup_key k now c.content)

  after_round-LeavesOthers :
      (found : List String) (c : RedisServer p) → LeavesOthers found c (after_round found c)
  after_round-LeavesOthers found c k now =
      ap (lookup_key k now) (after_round-content found c) ∙ lookup-remove_keys found k now c.content

  LeavesOthers-trans :
      (xs ys : List String) (a b c : RedisServer p)
      → LeavesOthers xs a b
      → LeavesOthers ys b c
      → LeavesOthers (xs ++ ys) a c
  LeavesOthers-trans xs ys a b c first second k now =
      second k now
      ∙ ap (λ v. if contains k ys then none else v) (first k now)
      ∙ rw (contains-++ k xs ys) (elim (Bool-cases (contains k xs)) [
        | inl t ↦ rw t (same_either (contains k ys) none)
        | inr f ↦ rw f refl
      ])

  -- A round of the loop.
  scan_from-round :
      (rounds cursor : ℕ) (pattern : String) (c : RedisServer p)
      → IsCalm c
      → let (found, next) = scanned cursor pattern c in
        scan_from (suc rounds) cursor pattern c ≡ (
          if next == 0
          then (ok (some tt), after_round found c)
          else scan_from rounds next pattern (after_round found c))
  unfolding scan_from
  scan_from-round rounds cursor pattern c calm =
      let (found, next) = scanned cursor pattern c in
      let seen =
        call-clear "cache scan " pattern (scan_page cursor pattern) c c.content (found, next)
          (calm c.executed) refl in
      rw (seen, delete_scanned-after_round pattern found c calm)
        (elim (Bool-cases (next == 0)) [ inl t ↦ rw t refl | inr f ↦ rw f refl ])

  scan_from-Answers :
      (rounds cursor : ℕ) (pattern : String) (c : RedisServer p) (pages : List (List String))
      → IsCalm c
      → Answers pattern cursor c pages
      → length pages ≤ rounds
      → (c' : RedisServer p) × (scan_from rounds cursor pattern c ≡ (ok (some tt), c'))
        × LeavesOthers (all_keys pages) c c'
  scan_from-Answers zero cursor pattern c pages calm (last _ _ zero_next) enough =
      absurd (omega (arith, enough))
  scan_from-Answers zero cursor pattern c pages calm (more _ _ rest open_cursor answers) enough =
      absurd (omega (arith, enough))
  scan_from-Answers (suc rounds) cursor pattern c pages calm (last _ _ zero_next) enough =
      let (found, next) = scanned cursor pattern c in
      (
        after_round found c,
        scan_from-round rounds cursor pattern c calm ∙ rw zero_next refl,
        λ k now. after_round-LeavesOthers found c k now ∙ rw (append-nil found) refl,
      )
  scan_from-Answers (suc rounds) cursor pattern c pages calm (more _ _ rest open_cursor answers)
        enough =
      let (found, next) = scanned cursor pattern c in
      let (c', ended, others) =
        scan_from-Answers rounds next pattern (after_round found c) rest
          (after_round-IsCalm found c calm) answers (omega arith) in
      (
        c',
        scan_from-round rounds cursor pattern c calm ∙ rw (not_last next open_cursor) ended,
        LeavesOthers-trans found (all_keys rest) c (after_round found c) c'
            (after_round-LeavesOthers found c) others,
      )

  -- Where no call meets a fault and the server, asked for one cursor after the other, answers with the
  -- cursor zero after some number of answers: `DeletePattern`, given at least as many rounds, ends
  -- without an error, every key of the answers is gone, and every other key is as it was.
  pub delete_pattern-ends :
      (rounds : ℕ) (pattern : String) (c : RedisServer p) (pages : List (List String))
      → IsCalm c
      → Answers pattern 0 c pages
      → length pages ≤ rounds
      → (c' : RedisServer p) × (delete_pattern rounds pattern c ≡ (ok (some tt), c'))
        × LeavesOthers (all_keys pages) c c'
  unfolding delete_pattern
  delete_pattern-ends rounds pattern c pages calm answers enough =
      scan_from-Answers rounds 0 pattern c pages calm answers enough
