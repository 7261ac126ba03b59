-- ===== src/Middleware/Headers.antt =====
-- The headers that the middleware sets reach the client.
use go_ordersvc.Prelude.{
  Bool, true, not, ◌&&◌, String, Option, none, some, List, [], ◌∷◌, ◌≡◌, if◌then◌else◌, str_eq,
}
use go_ordersvc.Middleware.Writer.{WriterCall, sets_header, Response, client_header}

-- The value of a header.
abbrev pub header_value : String → List (String × String) → Option String
header_value key [] = none
header_value key ((k, value) ∷ rest) = if str_eq k key then some value else header_value key rest

module _ {B : Type 0} where
  -- The handler does not set the header itself.
  abbrev pub leaves_call : String → WriterCall B → Bool
  leaves_call key (sets_header k value) = not (str_eq k key)
  leaves_call key _ = true

  abbrev pub leaves : String → List (WriterCall B) → Bool
  leaves key [] = true
  leaves key (call ∷ calls) = leaves_call key call && leaves key calls

  -- A header has a value, also in what has been sent.
  abbrev Has : String → String → Response B → Type 0
  Has key value r =
      (header_value key r.header ≡ some value) × (header_value key (client_header r) ≡ some value)
