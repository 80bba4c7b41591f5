-- ===== src/Table/Hook/Paging.antt =====
-- The number of pages.
use isachore.Base.{ℕ, ◌*◌, ◌≤◌, arith}
use isachore.Table.Hook.{page_count}

-- The pages hold all the rows, and no fewer pages would: one page at least, even for no row.
pub page_count_lem :
    (total size k : ℕ)
    → 1 ≤ size
    → (1 ≤ page_count total size)
      × (total ≤ page_count total size * size)
      × (1 ≤ k → total ≤ k * size → page_count total size ≤ k)
unfolding page_count
page_count_lem total size k h = (omega arith, grind arith, λ a b. grind arith)
