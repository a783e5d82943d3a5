-- ===== src/Examples/Pages.antt =====
-- A page of rows, at concrete inputs.
use new_trs.Common.{◌+◌, ◌*◌, ◌≤◌, ◌≡◌, refl}
use new_trs.Common.Int.{pos}
use new_trs.Platform.Pagination.{new, page_at, page_count, at_least_one, offset, new-covers}

third_page : offset (new (pos 3) (pos 20) 45) ≡ 40
unfolding offset new page_at page_count at_least_one
third_page = refl

new-covers_example :
    (1 ≤ (new (pos 9) (pos 20) 45).page)
    × ((new (pos 9) (pos 20) 45).page ≤ (new (pos 9) (pos 20) 45).total_pages)
    × (45 ≤ (new (pos 9) (pos 20) 45).total_pages * (new (pos 9) (pos 20) 45).per_page)
    × ((new (pos 9) (pos 20) 45).previous + 1 ≡ (new (pos 9) (pos 20) 45).page)
new-covers_example = new-covers (pos 9) (pos 20) 45
