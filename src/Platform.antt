-- ===== src/Platform.antt =====
-- What the program takes from code outside the repository: the UUIDs of github.com/google/uuid as
-- pgx and encoding/json read them, float64, and the types of the database's columns. Every module
-- that handles an order takes such a record as its parameter.
use go_ordersvc.Prelude.{ℕ, Bool, true, Option, some, String, ◌≡◌, ◌↔◌}
use go_ordersvc.Prelude.Int.{ℤ}
use go_ordersvc.Json.{Json}

pub record Platform : Type 1 where
  -- `uuid.UUID`, an array of bytes with the zero value `uuid.Nil`, compared by `==`.
  pub UUID : Type 0
  pub uuid_nil : UUID
  pub uuid_eq : UUID → UUID → Bool
  pub uuid_eq_iff : (a b : UUID) → (uuid_eq a b ≡ true) ↔ (a ≡ b)
  -- `String()`, `UnmarshalText`, and the reading of a text argument for a column of type uuid.
  -- Several spellings may be read as one UUID; what `String()` writes is read back.
  pub uuid_string : UUID → String
  pub uuid_parse : String → Option UUID
  pub column_uuid : String → Option UUID
  pub uuid_parse-string : (u : UUID) → uuid_parse (uuid_string u) ≡ some u
  pub column_uuid-string : (u : UUID) → column_uuid (uuid_string u) ≡ some u
  -- float64: 0.0, the conversion from int, `+`, `*`, `/`, `<=`, `int(math.Ceil(x))`, and whether
  -- encoding/json can write the value (it refuses NaN and the infinities).
  pub Float64 : Type 0
  pub float_zero : Float64
  pub of_int : ℤ → Float64
  pub float_add : Float64 → Float64 → Float64
  pub float_mul : Float64 → Float64 → Float64
  pub float_div : Float64 → Float64 → Float64
  pub float_leb : Float64 → Float64 → Bool
  pub ceil_int : Float64 → ℤ
  pub is_finite : Float64 → Bool
  -- Whether the server takes a text at all (it has no NUL and is in UTF-8);
  -- what the columns of the database hold of a value, `none` where they refuse it: VARCHAR(255),
  -- DECIMAL(10, 2), TIMESTAMP WITH TIME ZONE; and whether a JSONB column takes a value, which
  -- encoding/json then reads back unchanged.
  pub column_text : String → Bool
  pub column_varchar : String → Option String
  pub column_jsonb : Json Float64 → Bool
  pub column_decimal : Float64 → Option Float64
  pub column_time : ℕ → ℕ
