-- ===== src/Http/Paging.antt =====
-- What becomes of the limit and the offset of a list request on their way to the repository.
use native.Mathlib.Nat.{div-mul-le_self, lt-div-mul-add, div-le_self}
use go_ordersvc.Prelude.{
  ℕ, zero, suc, ◌+◌, ◌-◌, ◌*◌, ◌/◌, ◌^◌, ◌≤◌, ◌<◌, ◌≡◌, refl, ap, arith, inl, inr, ltb, Bool-cases,
  if◌then◌else◌, String,
}
use go_ordersvc.Prelude.Int.{ℤ, pos, negsuc, pos_part, ltb_ℤ, int64_pos, quot, +ℤ_pos}
use go_ordersvc.Service.Steps.{list_options}
use go_ordersvc.Service.Paging.{page_offset, effective_page-id, effective_page_size-id}
use go_ordersvc.Http.Params.{
  parse_int_param, default_limit, max_limit, query_limit, query_offset, query_page, query_filter,
  list_request,
}

query_limit-suc :
    (query : String → String) → (m : ℕ) × (query_limit query ≡ pos (suc m)) × (suc m ≤ 100)
unfolding query_limit
query_limit-suc query = split (parse_int_param query "limit" default_limit)
  where
    split :
        (limit : ℤ)
        → (m : ℕ) × ((let capped = if ltb_ℤ max_limit limit then max_limit else limit in
              if ltb_ℤ capped (pos 1) then default_limit else capped)
            ≡ pos (suc m))
          × (suc m ≤ 100)
    split (negsuc k) = (19, ground arith, omega arith)
    split (pos zero) = (19, ground arith, omega arith)
    split (pos (suc m)) = elim (Bool-cases (ltb 100 (suc m))) [
      | inl large ↦ (99, ground arith, omega arith)
      | inr small ↦ (m, ground arith, ground arith)
    ]

query_offset-pos : (query : String → String) → (o : ℕ) × (query_offset query ≡ pos o)
unfolding query_offset
query_offset-pos query = split (parse_int_param query "offset" (pos 0))
  where
    split : (offset : ℤ) → (o : ℕ) × ((if ltb_ℤ offset (pos 0) then pos 0 else offset) ≡ pos o)
    split (negsuc k) = (0, ground arith)
    split (pos o) = (o, ground arith)

query_page-pos :
    (query : String → String) (o m : ℕ)
    → query_offset query ≡ pos o
    → query_limit query ≡ pos (suc m)
    → o < 2 ^ 63 - 1
    → query_page query ≡ pos (suc (o / suc m))
unfolding query_page quot
query_page-pos query o m at_o at_m small =
    rw
      (
        at_o,
        at_m,
        +ℤ_pos (o / suc m) 1,
        int64_pos (o / suc m + 1) (omega (arith, div-le_self o (suc m))),
      )
      (ground arith)

-- The offset that a request asks for, rounded down to a multiple of the limit, is what the repository
-- is asked for, with a limit from 1 to 100: for every query whose offset is below the largest int.
pub list_request-options :
    (query : String → String)
    → pos_part (query_offset query) < 2 ^ 63 - 1
    → (o : ℕ) × (l : ℕ) × (query_offset query ≡ pos o)
      × (query_limit query ≡ pos l)
      × (0 < l)
      × (l ≤ 100)
      × (list_options (list_request query) ≡ record {
        limit = pos l;
        offset = pos (o / l * l);
        status = query_filter query "status";
      })
      × (o / l * l ≤ o)
      × (o < o / l * l + l)
unfolding list_request list_options
list_request-options query small =
    let (o, at_o) = query_offset-pos query in
    let (m, at_m, bound) = query_limit-suc query in
    let small_o : o < 2 ^ 63 - 1 = omega (arith, ap pos_part at_o) in
    let page = query_page-pos query o m at_o at_m small_o in
    (
      o,
      suc m,
      at_o,
      at_m,
      omega arith,
      bound,
      rw
          (
            effective_page-id (list_request query) (o / suc m) page,
            effective_page_size-id (list_request query) m at_m bound,
            page_offset (o / suc m) m (omega (arith, div-mul-le_self o (suc m))),
          )
          refl,
      div-mul-le_self o (suc m),
      lt-div-mul-add {a = o} {b = suc m} (omega arith),
    )
