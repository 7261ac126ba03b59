-- ===== src/Service/Paging.antt =====
-- The page, the page size and the offset of a list request.
use native.Mathlib.Nat.{mul-le-mul}
use go_ordersvc.Prelude.{
  ℕ, zero, suc, ◌*◌, ◌^◌, ◌≤◌, ◌<◌, ◌≡◌, refl, arith, inl, inr, ltb, Bool-cases, if◌then◌else◌,
}
use go_ordersvc.Prelude.Int.{
  ℤ, pos, negsuc, ◌-ℤ◌, ◌*ℤ◌, pos_part, ltb_ℤ, int64, int64_pos, -ℤ_one, *ℤ_pos,
}
use go_ordersvc.Service.Interface.{ListOrdersRequest}
use go_ordersvc.Service.Steps.{effective_page, effective_page_size, list_options}

effective_page-suc :
    (req : ListOrdersRequest)
    → (n : ℕ) × (effective_page req ≡ pos (suc n)) × (n ≤ pos_part req.page)
unfolding effective_page
effective_page-suc req = split req.page
  where
    split :
        (page : ℤ)
        → (n : ℕ) × ((if ltb_ℤ page (pos 1) then pos 1 else page) ≡ pos (suc n))
          × (n ≤ pos_part page)
    split (negsuc k) = (0, ground arith, omega arith)
    split (pos zero) = (0, refl, omega arith)
    split (pos (suc n)) = (n, ground arith, omega arith)

effective_page_size-suc :
    (req : ListOrdersRequest) → (m : ℕ) × (effective_page_size req ≡ pos (suc m)) × (suc m ≤ 100)
unfolding effective_page_size
effective_page_size-suc req = split req.page_size
  where
    split :
        (size : ℤ)
        → (m : ℕ) × ((let page_size = if ltb_ℤ size (pos 1) then pos 20 else size in
              if ltb_ℤ (pos 100) page_size then pos 100 else page_size)
            ≡ pos (suc m))
          × (suc m ≤ 100)
    split (negsuc k) = (19, ground arith, omega arith)
    split (pos zero) = (19, ground arith, omega arith)
    split (pos (suc m)) = elim (Bool-cases (ltb 100 (suc m))) [
      | inl large ↦ (99, ground arith, omega arith)
      | inr small ↦ (m, ground arith, ground arith)
    ]

pub effective_page-id :
    (req : ListOrdersRequest) (n : ℕ) → req.page ≡ pos (suc n) → effective_page req ≡ pos (suc n)
unfolding effective_page
effective_page-id req n h = ground arith

pub effective_page_size-id :
    (req : ListOrdersRequest) (m : ℕ)
    → req.page_size ≡ pos (suc m)
    → suc m ≤ 100
    → effective_page_size req ≡ pos (suc m)
unfolding effective_page_size
effective_page_size-id req m h bound = ground arith

-- The offset of page n + 1 with m + 1 orders to a page, where it is an int.
pub page_offset :
    (n m : ℕ) → n * suc m < 2 ^ 63 → int64 ((pos (suc n) -ℤ pos 1) *ℤ pos (suc m)) ≡ pos (n * suc m)
page_offset n m h = rw (-ℤ_one n, *ℤ_pos n (suc m)) (int64_pos (n * suc m) h)

small_product : (n m k : ℕ) → n ≤ k → k < 2 ^ 56 → suc m ≤ 100 → n * suc m < 2 ^ 63
small_product n m k small h bound = omega (arith, mul-le-mul small bound)

-- Whatever page and page size a request names, below page 2 ^ 56: the query's limit is from 1 to 100,
-- and its offset skips exactly the pages before the effective page.
pub list_options-bounds :
    (req : ListOrdersRequest)
    → pos_part req.page < 2 ^ 56
    → (n : ℕ) × (m : ℕ) × (effective_page req ≡ pos (suc n))
      × (effective_page_size req ≡ pos (suc m))
      × (suc m ≤ 100)
      × (list_options req
          ≡ record { limit = pos (suc m); offset = pos (n * suc m); status = req.status })
unfolding list_options
list_options-bounds req h =
    let (n, page, small) = effective_page-suc req in
    let (m, size, bound) = effective_page_size-suc req in
    (
      n,
      m,
      page,
      size,
      bound,
      rw (page, size, page_offset n m (small_product n m (pos_part req.page) small h bound)) refl,
    )
