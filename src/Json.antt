-- ===== src/Json.antt =====
-- JSON values as encoding/json writes and reads them, without their spelling as text. Numbers are
-- kept as the Go value that they came from; `time` is a string in the format of time.RFC3339Nano.
pub mod Items
pub mod Orders
use go_ordersvc.Prelude.{ℕ, String, Option, none, some, str_eq, if◌then◌else◌}
use go_ordersvc.Prelude.Int.{ℤ, pos, is_int64}

mutual
  pub data Json (F : Type 0) : Type 0 where
    null : Json F
    int : ℤ → Json F
    float : F → Json F
    str : String → Json F
    time : ℕ → Json F
    arr : Elems F → Json F
    obj : Fields F → Json F

  pub data Elems (F : Type 0) : Type 0 where
    nil : Elems F
    cons : Json F → Elems F → Elems F

  pub data Fields (F : Type 0) : Type 0 where
    end : Fields F
    field : String → Json F → Fields F → Fields F

module _ {F : Type 0} where
  -- The value of a key; a missing key leaves a struct's field alone, as `null` does.
  abbrev pub member : String → Fields F → Json F
  member k end = null
  member k (field j v fs) = if str_eq j k then v else member k fs

  -- Reading a value into a field that holds its zero value; `none` is an error of Unmarshal.
  abbrev pub as_string : Json F → Option String
  as_string null = some ""
  as_string (str s) = some s
  as_string _ = none

  -- A number outside the range of an int is an UnmarshalTypeError.
  abbrev pub as_int : Json F → Option ℤ
  as_int null = some (pos 0)
  as_int (int n) = if is_int64 n then some n else none
  as_int _ = none

  abbrev pub as_float : (ℤ → F) → Json F → Option F
  as_float of_int null = some (of_int (pos 0))
  as_float of_int (int n) = some (of_int n)
  as_float of_int (float x) = some x
  as_float of_int _ = none

  abbrev pub as_time : Json F → Option ℕ
  as_time null = some 0
  as_time (time t) = some t
  as_time _ = none

  -- A pointer to a time: `null` is nil.
  abbrev pub as_time_pointer : Json F → Option (Option ℕ)
  as_time_pointer null = some none
  as_time_pointer (time t) = some (some t)
  as_time_pointer _ = none

infixl 5 ◌>>=◌
abbrev pub ◌>>=◌ {ℓ κ} : {A : Type ℓ} {B : Type κ} → Option A → (A → Option B) → Option B
none >>= f = none
some a >>= f = f a
