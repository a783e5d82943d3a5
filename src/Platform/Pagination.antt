-- ===== src/Platform/Pagination.antt =====
-- internal/platform/pagination/pagination.go. A page and its size may be any integer, a number of
-- rows is a natural number.
use new_trs.Common.{
  ℕ, ◌+◌, ◌-◌, ◌*◌, ◌/◌, ◌≤◌, ◌<◌, ◌≡◌, ltb, if◌then◌else◌, Bool-cases, inl, inr, arith,
}
use native.Mathlib.Nat.{lt-div-mul-add}
use new_trs.Common.Int.{ℤ, pos, negsuc}

pub record Page : Type 0 where
  pub page : ℕ
  pub per_page : ℕ
  pub total : ℕ
  pub total_pages : ℕ
  pub previous : ℕ
  pub next : ℕ

-- `if n < 1 { n = 1 }`.
unfoldable pub at_least_one : ℤ → ℕ
at_least_one (pos n) = if ltb n 1 then 1 else n
at_least_one (negsuc n) = 1

unfoldable pub page_count : ℕ → ℕ → ℕ
page_count size total = let full = (total + size - 1) / size in if ltb full 1 then 1 else full

unfoldable pub page_at : ℕ → ℕ → ℕ → Page
page_at size total n =
    let count = page_count size total in
    let page = if ltb count n then count else n in
    record {
      page = page;
      per_page = size;
      total = total;
      total_pages = count;
      previous = if ltb 1 page then page - 1 else 0;
      next = if ltb page count then page + 1 else 0;
    }

unfoldable pub new : ℤ → ℤ → ℕ → Page
new page per_page total = page_at (at_least_one per_page) total (at_least_one page)

unfoldable pub offset : Page → ℕ
offset p = (p.page - 1) * p.per_page

at_least_one-positive : (n : ℤ) → 1 ≤ at_least_one n
unfolding at_least_one
at_least_one-positive (pos n) = ground arith
at_least_one-positive (negsuc n) = omega arith

page_count-covers :
    (size total : ℕ)
    → 1 ≤ size
    → (1 ≤ page_count size total) × (total ≤ page_count size total * size)
unfolding page_count
page_count-covers size total s =
    let whole : total + size - 1 < (total + size - 1) / size * size + size =
      lt-div-mul-add (omega arith) in
    elim (Bool-cases (ltb ((total + size - 1) / size) 1)) [
      | inl e ↦
          let none : (total + size - 1) / size ≡ 0 = ground arith in
          rw e (omega arith, omega (arith, rw none at whole))
      | inr e ↦ rw e (ground arith, omega arith)
    ]

-- For any page and size asked for, the page of a new Page is one of its pages, the pages hold all rows,
-- and the previous page, which is 0 for the first one, is one less than the page.
pub new-covers :
    (page per_page : ℤ) (total : ℕ)
    → (1 ≤ (new page per_page total).page)
      × ((new page per_page total).page ≤ (new page per_page total).total_pages)
      × (total ≤ (new page per_page total).total_pages * (new page per_page total).per_page)
      × ((new page per_page total).previous + 1 ≡ (new page per_page total).page)
unfolding new page_at
new-covers page per_page total =
    let size = at_least_one-positive per_page in
    let asked = at_least_one-positive page in
    let covers = page_count-covers (at_least_one per_page) total size in
    elim (Bool-cases (ltb (page_count (at_least_one per_page) total) (at_least_one page))) [
      | inl e ↦ rw e (covers.0, omega arith, covers.1, ground (arith, covers.0))
      | inr e ↦ rw e (asked, ground arith, covers.1, ground arith)
    ]
