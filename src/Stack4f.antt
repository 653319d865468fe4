-- ===== src/Stack4f.antt =====
-- math/cc_stack4f.h and math/cc_stack4f.c: a stack of matrices, over a list of copies. `M` are the
-- matrices, which cc_mat4f_copy copies as they are.
pub mod Tests
use libcc.Base.{
  ℕ, ◌+◌, ◌-◌, ◌≡◌, refl, Bool, true, false, ◌==◌, if◌then◌else◌, List, [], ◌∷◌, not, arith,
}
use libcc.CcList.Store.{Ptr, null}

-- cc_stack4f_t: the cells of matrix_stack, each an iterator and its copy, and the number of copies
-- that are allocated.
pub record Stack (M : Type 0) : Type 0 where
  pub cells : List (Ptr × M)
  pub copies : ℕ

-- cc_stack4f_new, where nothing fails.
unfoldable pub new : {M : Type 0} → Stack M
new = record { cells = []; copies = 0 }

-- cc_stack4f_push: whether the copy can be had, and the iterator of cc_list_insert at the head.
unfoldable pub push : {M : Type 0} → (copy_ok : Bool) → (iter : Ptr) → M → Stack M → Stack M
push copy_ok iter m s =
    if not copy_ok
    then s
    else if iter == null
    then record { cells = s.cells; copies = s.copies + 1 }
    else record { cells = (iter, m) ∷ s.cells; copies = s.copies + 1 }

-- cc_stack4f_pop of a head, and on an empty stack, where `*m` stays.
unfoldable pub pop_cells : {M : Type 0} → M → Stack M → List (Ptr × M) → M × Stack M
pop_cells m s [] = (m, s)
pop_cells m s ((iter, c) ∷ cells) = (c, record { cells = cells; copies = s.copies - 1 })

unfoldable pub pop : {M : Type 0} → M → Stack M → M × Stack M
unfolding pop_cells
pop m s = pop_cells m s s.cells

-- The loop of cc_stack4f_delete.
unfoldable pub free_copies : {M : Type 0} → List (Ptr × M) → ℕ → ℕ
free_copies [] copies = copies
free_copies (c ∷ cells) copies = free_copies cells (copies - 1)

unfoldable pub delete : {M : Type 0} → Stack M → ℕ
unfolding free_copies
delete s = free_copies s.cells s.copies

-- What is pushed is popped, and the stack is as before.
pop-push :
    {M : Type 0}
    → (iter : Ptr) (m x : M) (s : Stack M) → (iter == null) ≡ false
    → pop x (push true iter m s) ≡ (m, s)
unfolding pop push pop_cells
pop-push iter m x s ne = let back : s.copies + 1 - 1 ≡ s.copies = omega arith in rw (ne, back)
