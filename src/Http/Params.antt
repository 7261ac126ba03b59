-- ===== src/Http/Params.antt =====
-- `strconv.Atoi`, and `parseIntParam` of internal/handler/http/order_handler.go. A request's query is
-- a function from a name to the value that `r.URL.Query().Get` returns, the empty text for none.
use Prim.Native.Char.{Char, code}
use go_ordersvc.Prelude.{
  ℕ, zero, suc, ◌+◌, ◌-◌, ◌*◌, ◌^◌, Bool, ◌&&◌, String, Option, none, some, ltb, leb, ◌==◌, str_eq,
  if◌then◌else◌,
}
use go_ordersvc.Prelude.Int.{ℤ, pos, negsuc, pos_part, ltb_ℤ, quot, ◌+ℤ◌, int64}
use go_ordersvc.Json.{◌>>=◌}
use go_ordersvc.Service.Interface.{ListOrdersRequest}

abbrev pub is_digit : Char → Bool
is_digit c = leb 48 (code c) && leb (code c) 57

-- The number that decimal digits spell behind `n`; `none` where another character stands.
abbrev pub digits : String → ℕ → Option ℕ
digits String.[] n = some n
digits (String.◌∷◌ c s) n =
    let rest = digits s (10 * n + (code c - 48)) in if is_digit c then rest else none

-- At least one digit.
abbrev pub magnitude : String → Option ℕ
magnitude String.[] = none
magnitude (String.◌∷◌ c s) = digits (String.◌∷◌ c s) 0

-- A number that fits into an int; the other numbers are an error.
abbrev pub positive : ℕ → Option ℤ
positive n = if ltb n (2 ^ 63) then some (pos n) else none

abbrev pub negative : ℕ → Option ℤ
negative zero = some (pos 0)
negative (suc n) = if ltb n (2 ^ 63) then some (negsuc n) else none

unfoldable pub atoi : String → Option ℤ
atoi String.[] = none
atoi (String.◌∷◌ c s) =
    if code c == 45
    then magnitude s >>= negative
    else if code c == 43
    then magnitude s >>= positive
    else magnitude (String.◌∷◌ c s) >>= positive

unfoldable pub parse_int_param : (String → String) → String → ℤ → ℤ
unfolding atoi
parse_int_param query name default_val =
    let text = query name in
    if str_eq text "" then default_val else elim (atoi text) [ none ↦ default_val | some val ↦ val ]

abbrev pub default_limit : ℤ
default_limit = pos 20

abbrev pub max_limit : ℤ
max_limit = pos 100

-- The limit, the offset and the page that a query asks for.
unfoldable pub query_limit : (String → String) → ℤ
unfolding parse_int_param
query_limit query =
    let limit = parse_int_param query "limit" default_limit in
    let capped = if ltb_ℤ max_limit limit then max_limit else limit in
    if ltb_ℤ capped (pos 1) then default_limit else capped

unfoldable pub query_offset : (String → String) → ℤ
unfolding parse_int_param
query_offset query =
    let offset = parse_int_param query "offset" (pos 0) in
    if ltb_ℤ offset (pos 0) then pos 0 else offset

-- `(offset / limit) + 1`, where the limit is positive.
unfoldable pub query_page : (String → String) → ℤ
unfolding query_limit query_offset
query_page query = int64 (quot (query_offset query) (pos_part (query_limit query)) +ℤ pos 1)

-- A filter that is given and is not the empty text.
abbrev pub query_filter : (String → String) → String → Option String
query_filter query name = if str_eq (query name) "" then none else some (query name)

unfoldable pub list_request : (String → String) → ListOrdersRequest
unfolding query_limit query_page
list_request query = record {
  page = query_page query;
  page_size = query_limit query;
  status = query_filter query "status";
  customer_id = query_filter query "customer_id";
}
