-- ===== src/Schemas/Pages.antt =====
-- The arithmetic of pages in app/schemas: how many there are, and which rows each has.
use real_time_ai_chat_backen.Base.{
  ℕ, zero, suc, ◌+◌, ◌-◌, ◌*◌, ◌/◌, ◌%◌, ◌≤◌, ◌<◌, ◌≡◌, refl, ◌∙◌, ap, List, [], ◌∷◌, ◌++◌, arith,
  length, take, drop,
}
use native.Mathlib.Nat.{zero-add, suc-add, zero-mul}
use real_time_ai_chat_backen.Schemas.{
  PaginationParams, max_of, offset, limit, ceil_div, create_list_response,
}

-- The quotient and the remainder, in the form that the proofs use.
div_split :
    (total size : ℕ)
    → 1 ≤ size
    → (total ≡ (total / size) * size + total % size) × (total % size < size)
div_split total size h = grind arith

below_quotient : (q r size n : ℕ) → r < size → 1 ≤ r → q * size + r ≤ n * size → q + 1 ≤ n
below_quotient q r size n h k e = grind arith

below_quotient_exact : (q size n : ℕ) → 1 ≤ size → q * size ≤ n * size → q ≤ n
below_quotient_exact q size n h e = grind arith

ceil_div-room : (total size : ℕ) → 1 ≤ size → total ≤ ceil_div total size * size
unfolding ceil_div
ceil_div-room total size h = grind (arith, div_split total size h)

ceil_div-least : (total size n : ℕ) → 1 ≤ size → total ≤ n * size → ceil_div total size ≤ n
unfolding ceil_div
ceil_div-least total size n h e = grind (
  arith,
  div_split total size h,
  below_quotient (total / size) (total % size) size n,
  below_quotient_exact (total / size) size n,
)

max_of-room : (c total size : ℕ) → total ≤ c * size → total ≤ max_of 1 c * size
max_of-room zero total size h = omega arith
max_of-room (suc c) total size h = ground arith

max_of-tight :
    (c total size : ℕ)
    → 1 ≤ size
    → ((n : ℕ) → 1 ≤ size → total ≤ n * size → c ≤ n)
    → (max_of 1 c - 1) * size < max_of 1 total
max_of-tight zero total size h least = grind arith
max_of-tight (suc c) total size h least = ground (arith, least c h)

-- With a page size of at least one, there is at least one page, the pages have room for all items,
-- and without the last page they would not have it, unless it is the only one.
pub create_list_response_pages :
    {A : Type 0} (items : List A) (total page page_size : ℕ)
    → 1 ≤ page_size
    → let r = create_list_response items total page page_size in
      (1 ≤ r.pages) × (total ≤ r.pages * page_size) × ((r.pages - 1) * page_size < max_of 1 total)
unfolding create_list_response
create_list_response_pages items total page page_size h = (
  ground arith,
  max_of-room (ceil_div total page_size) total page_size (ceil_div-room total page_size h),
  max_of-tight (ceil_div total page_size) total page_size h (ceil_div-least total page_size),
)

suc_pred : (n : ℕ) → suc n - 1 ≡ n
suc_pred n = omega arith

module _ {A : Type 0} where
  -- The rows that the two list queries return for a page of an ordered table.
  abbrev pub page_rows : PaginationParams → List A → List A
  page_rows p rows = take (limit p) (drop (offset p) rows)

  -- The pages 1 to n, one after the other.
  abbrev pub first_pages : ℕ → ℕ → List A → List A
  first_pages zero page_size rows = []
  first_pages (suc n) page_size rows =
      first_pages n page_size rows
      ++ page_rows (record { page = suc n; page_size = page_size }) rows

  take-add : (m n : ℕ) (rows : List A) → take m rows ++ take n (drop m rows) ≡ take (m + n) rows
  unfolding take drop
  take-add zero n rows = rw zero-add
  take-add (suc m) zero [] = rw suc-add
  take-add (suc m) (suc n) [] = rw suc-add
  take-add (suc m) n (x ∷ rows) = rw suc-add (ap (◌∷◌ x) (take-add m n rows))

  take-all : (n : ℕ) (rows : List A) → length rows ≤ n → take n rows ≡ rows
  unfolding take
  take-all zero [] h = refl
  take-all zero (x ∷ rows) h = absurd (omega arith)
  take-all (suc n) [] h = refl
  take-all (suc n) (x ∷ rows) h = ap (◌∷◌ x) (take-all n rows (omega arith))

  take_zero : (rows : List A) → [] ≡ take 0 rows
  unfolding take
  take_zero rows = refl

  first_pages-take :
      (n page_size : ℕ) (rows : List A) → first_pages n page_size rows ≡ take (n * page_size) rows
  unfolding offset limit
  first_pages-take zero page_size rows = rw zero-mul (take_zero rows)
  first_pages-take (suc n) page_size rows =
      rw (first_pages-take n page_size rows, suc_pred n)
        (take-add (n * page_size) page_size rows ∙ ap (λ k. take k rows) (omega arith))

  -- With a page size of at least one, the slices that the queries take for the pages that a
  -- response counts, put together in order, are all the rows in order.
  pub pages_cover :
      (rows items : List A) (page page_size : ℕ)
      → 1 ≤ page_size
      → first_pages (create_list_response items (length rows) page page_size).pages page_size rows
        ≡ rows
  pages_cover rows items page page_size h =
      first_pages-take _ page_size rows
      ∙ take-all _ rows (create_list_response_pages items (length rows) page page_size h).1
