-- ===== src/Stack4f/Tests.antt =====
-- A stack of numbers in the place of matrices.
use libcc.Base.{ℕ, ◌≡◌, refl, true}
use libcc.CcList.Store.{null}
use libcc.Stack4f.{Stack, new, push, pop, delete}

abbrev two : Stack ℕ
two = push true 20 8 (push true 10 7 new)

test_pop : (pop 0 two).0 ≡ 8
unfolding push pop new
test_pop = refl

test_delete : delete two ≡ 0
unfolding push delete new
test_delete = refl

-- Where the list cannot take the copy, the copy stays allocated.
test_leak : delete (push true null 9 two) ≡ 1
unfolding push delete new
test_leak = refl
