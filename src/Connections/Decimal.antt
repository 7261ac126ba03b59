-- ===== src/Connections/Decimal.antt =====
-- The decimal text of an int, as `%d` prints it.
use Prim.Native.Char.{Char, code}
use go_ordersvc.Prelude.{
  ℕ, zero, suc, ◌+◌, ◌*◌, ◌/◌, ◌%◌, ◌^◌, ◌≤◌, ◌<◌, String, some, ◌≡◌, refl, ◌∙◌, sym, subst, Option,
  none, ltb, ltb→lt, ap, ◌==◌, if◌then◌else◌, arith, true, false, inl, inr, Bool-cases,
}
use go_ordersvc.Prelude.Int.{ℤ, pos, negsuc}
use go_ordersvc.Json.{◌>>=◌}
use go_ordersvc.Http.Params.{atoi, digits, magnitude, is_digit, positive, negative}

abbrev digit : ℕ → Char
digit zero = "0"
digit (suc zero) = "1"
digit (suc (suc zero)) = "2"
digit (suc (suc (suc zero))) = "3"
digit (suc (suc (suc (suc zero)))) = "4"
digit (suc (suc (suc (suc (suc zero))))) = "5"
digit (suc (suc (suc (suc (suc (suc zero)))))) = "6"
digit (suc (suc (suc (suc (suc (suc (suc zero))))))) = "7"
digit (suc (suc (suc (suc (suc (suc (suc (suc zero)))))))) = "8"
digit _ = "9"

-- The digits of a number in front of a text. A number has fewer digits than it has units, so that it
-- is fuel enough itself.
abbrev show : ℕ → ℕ → String → String
show zero n rest = String.◌∷◌ (digit n) rest
show (suc fuel) n rest =
    let longer = show fuel (n / 10) (String.◌∷◌ (digit (n % 10)) rest) in
    if ltb n 10 then String.◌∷◌ (digit n) rest else longer

abbrev pub decimal_ℕ : ℕ → String
decimal_ℕ n = show n n String.[]

unfoldable pub decimal : ℤ → String
decimal (pos n) = decimal_ℕ n
decimal (negsuc n) = String.◌∷◌ "-" (decimal_ℕ (suc n))

code-digit : (d : ℕ) → d < 10 → code (digit d) ≡ 48 + d
code-digit zero h = refl
code-digit (suc zero) h = refl
code-digit (suc (suc zero)) h = refl
code-digit (suc (suc (suc zero))) h = refl
code-digit (suc (suc (suc (suc zero)))) h = refl
code-digit (suc (suc (suc (suc (suc zero))))) h = refl
code-digit (suc (suc (suc (suc (suc (suc zero)))))) h = refl
code-digit (suc (suc (suc (suc (suc (suc (suc zero))))))) h = refl
code-digit (suc (suc (suc (suc (suc (suc (suc (suc zero)))))))) h = refl
code-digit (suc (suc (suc (suc (suc (suc (suc (suc (suc zero))))))))) h = refl
code-digit (suc (suc (suc (suc (suc (suc (suc (suc (suc (suc d)))))))))) h =
    absurd (omega (arith, h))

digit-is_digit : (d : ℕ) → d < 10 → is_digit (digit d) ≡ true
digit-is_digit d h = rw (code-digit d h) (ground arith)

-- Read behind a number, a digit is its last one.
digits-digit :
    (d n : ℕ) (rest : String)
    → d < 10
    → digits (String.◌∷◌ (digit d) rest) n ≡ digits rest (10 * n + d)
digits-digit d n rest h =
    rw (digit-is_digit d h, code-digit d h) (ap (digits rest) (omega (arith, h)))

digits-show : (fuel n : ℕ) (rest : String) → n ≤ fuel → digits (show fuel n rest) 0 ≡ digits rest n
digits-show zero n rest h =
    let small : n < 10 = omega (arith, h) in
    digits-digit n 0 rest small ∙ ap (digits rest) (omega arith)
digits-show (suc fuel) n rest h = elim (Bool-cases (ltb n 10)) [
  | inl small ↦
      rw small (digits-digit n 0 rest (ltb→lt n 10 small) ∙ ap (digits rest) (omega arith))
  | inr long ↦
      let last : n % 10 < 10 = omega arith in
      rw long (
        digits-show fuel (n / 10) (String.◌∷◌ (digit (n % 10)) rest) (ground arith)
        ∙ digits-digit (n % 10) (n / 10) rest last
        ∙ ap (digits rest) (omega arith))
]

-- A text of decimal digits begins with one.
abbrev Begins : String → Type 0
Begins text = (d : ℕ) × (rest : String) × (d < 10) × (text ≡ String.◌∷◌ (digit d) rest)

show-Begins : (fuel n : ℕ) (rest : String) → n ≤ fuel → Begins (show fuel n rest)
show-Begins zero n rest h = (n, rest, omega (arith, h), refl)
show-Begins (suc fuel) n rest h = elim (Bool-cases (ltb n 10)) [
  | inl small ↦ (n, rest, ltb→lt n 10 small, rw small refl)
  | inr long ↦
      let (d, tail, less, at) =
        show-Begins fuel (n / 10) (String.◌∷◌ (digit (n % 10)) rest) (ground arith) in
      (d, tail, less, rw long at)
]

magnitude-Begins : (text : String) → Begins text → magnitude text ≡ digits text 0
magnitude-Begins text (d, rest, less, at) = rw at refl

magnitude-decimal_ℕ : (n : ℕ) → magnitude (decimal_ℕ n) ≡ some n
magnitude-decimal_ℕ n =
    magnitude-Begins (decimal_ℕ n) (show-Begins n n String.[] (omega arith))
    ∙ digits-show n n String.[] (omega arith)

-- A text that begins with a digit has no sign.
atoi-Begins : (text : String) → Begins text → atoi text ≡ magnitude text >>= positive
unfolding atoi
atoi-Begins text (d, rest, less, at) =
    let no_minus : (48 + d == 45) ≡ false = ground arith in
    let no_plus : (48 + d == 43) ≡ false = ground arith in
    rw (at, code-digit d less, no_minus, no_plus) refl

-- The numbers of 64 bits.
abbrev pub IsInt : ℤ → Type 0
IsInt (pos n) = n < 2 ^ 63
IsInt (negsuc n) = n < 2 ^ 63

-- An int is read back from its decimal text.
pub atoi-decimal : (v : ℤ) → IsInt v → atoi (decimal v) ≡ some v
unfolding atoi decimal
atoi-decimal (pos n) h =
    atoi-Begins (decimal_ℕ n) (show-Begins n n String.[] (omega arith))
    ∙ ap (λ m. m >>= positive) (magnitude-decimal_ℕ n)
    ∙ ground (arith, h)
atoi-decimal (negsuc n) h =
    ap (λ m. m >>= negative) (magnitude-decimal_ℕ (suc n)) ∙ ground (arith, h)

positive-IsInt : (n : ℕ) (v : ℤ) → positive n ≡ some v → IsInt v
positive-IsInt n v h = elim (Bool-cases (ltb n (2 ^ 63))) [
  | inl small ↦ let same : pos n ≡ v = ground arith in subst IsInt same (ltb→lt n (2 ^ 63) small)
  | inr large ↦ ground arith
]

negative-IsInt : (n : ℕ) (v : ℤ) → negative n ≡ some v → IsInt v
negative-IsInt zero v h = let same : pos 0 ≡ v = ground arith in subst IsInt same (omega arith)
negative-IsInt (suc n) v h = elim (Bool-cases (ltb n (2 ^ 63))) [
  | inl small ↦ let same : negsuc n ≡ v = ground arith in subst IsInt same (ltb→lt n (2 ^ 63) small)
  | inr large ↦ ground arith
]

>>=-IsInt :
    (m : Option ℕ) (f : ℕ → Option ℤ) (v : ℤ)
    → ((n : ℕ) → f n ≡ some v → IsInt v)
    → m >>= f ≡ some v
    → IsInt v
>>=-IsInt none f v fits h = absurd (cc h)
>>=-IsInt (some n) f v fits h = fits n h

-- What `Atoi` reads is an int.
pub atoi-IsInt : (text : String) (v : ℤ) → atoi text ≡ some v → IsInt v
unfolding atoi
atoi-IsInt String.[] v h = ground arith
atoi-IsInt (String.◌∷◌ c s) v h = elim (Bool-cases (code c == 45)) [
  | inl minus ↦
      >>=-IsInt (magnitude s) negative v (λ n. negative-IsInt n v) (sym (rw minus refl) ∙ h)
  | inr no_minus ↦ elim (Bool-cases (code c == 43)) [
    | inl plus ↦
        >>=-IsInt (magnitude s) positive v (λ n. positive-IsInt n v)
          (sym (rw (no_minus, plus) refl) ∙ h)
    | inr no_plus ↦
        >>=-IsInt (magnitude (String.◌∷◌ c s)) positive v (λ n. positive-IsInt n v)
          (sym (rw (no_minus, no_plus) refl) ∙ h)
  ]
]
