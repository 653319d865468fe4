-- ===== src/Math/Gauss.antt =====
-- math/cc_mat4f.c and math/cc_mat3f.c: the Gauss-Jordan elimination of cc_mat4f_inverse_copy and
-- cc_mat3f_inverse_copy, which are the same text but for the size. The arrays `aref` and `vref` are
-- functions of the row and the column.
pub mod Rows
pub mod Forward
pub mod Backward
pub mod Inverse
use libcc.Base.{ℕ, zero, suc, ◌+◌, ◌-◌, Bool, true, false, ◌==◌, leb, ◌&&◌, if◌then◌else◌, ◌≢◌}
use libcc.Math.{Scalars, ◌⊖◌, ◌⊗◌, ◌⊘◌, num}

abbrev pub Array : Type 0 → Type 0
Array F = ℕ → ℕ → F

-- The array that becomes the identity, and the one that becomes the inverse.
pub record Augmented (F : Type 0) : Type 0 where
  pub a : Array F
  pub v : Array F

module _ {F : Type 0} ⦃f : Scalars F⦄ where
  -- x[k] = A(j,k); A(j,k) = A(l,k); A(l,k) = x[k], for each column
  unfoldable pub swap_rows : (j l : ℕ) → Array F → Array F
  swap_rows j l m r c = if r == j then m l c else if r == l then m j c else m r c

  -- A(i,k) -= s*A(j,k), for each column from `first` on
  unfoldable pub sub_row : (s : F) (i j first : ℕ) → Array F → Array F
  sub_row s i j first m r c = if (r == i) && leb first c then m i c ⊖ s ⊗ m j c else m r c

  -- A(j,k) *= s, for each column from `first` on
  unfoldable pub mul_row : (s : F) (j first : ℕ) → Array F → Array F
  mul_row s j first m r c = if (r == j) && leb first c then m j c ⊗ s else m r c

  unfoldable pub set_entry : (i j : ℕ) (x : F) → Array F → Array F
  set_entry i j x m r c = if (r == i) && (c == j) then x else m r c

  -- The loop for the largest magnitude in column `j`, over `count` rows from row `i` on.
  unfoldable pub find_pivot : Array F → (j count i l : ℕ) → ℕ
  find_pivot a j zero i l = l
  find_pivot a j (suc count) i l =
      find_pivot a j count (i + 1) (if f.gt (f.fabs (a i j)) (f.fabs (a l j)) then i else l)

  unfoldable pub exchange : (j l : ℕ) → Augmented F → Augmented F
  exchange j l s = if l == j then s else record { a = swap_rows j l s.a; v = swap_rows j l s.v }

  -- A zero below the pivotal entry, in row `i`.
  unfoldable pub clear_row : (i j : ℕ) → Augmented F → Augmented F
  clear_row i j m =
      let s = m.a i j ⊘ m.a j j in
      record { a = set_entry i j (num 0) (sub_row s i j (j + 1) m.a); v = sub_row s i j 0 m.v }

  unfoldable pub clear_below : (j count i : ℕ) → Augmented F → Augmented F
  clear_below j zero i m = m
  clear_below j (suc count) i m = clear_below j count (i + 1) (clear_row i j m)

  -- The pivotal entry becomes one.
  unfoldable pub normalize_row : (j : ℕ) → Augmented F → Augmented F
  normalize_row j m =
      let s = num 1 ⊘ m.a j j in
      record { a = set_entry j j (num 1) (mul_row s j (j + 1) m.a); v = mul_row s j 0 m.v }

  -- One round of the first loop, for a matrix of `n` rows, first up to the exchange.
  unfoldable pub exchanged : (n j : ℕ) → Augmented F → Augmented F
  exchanged n j m = exchange j (find_pivot m.a j (n - (j + 1)) (j + 1) j) m

  unfoldable pub pivot_step : (n j : ℕ) → Augmented F → Augmented F
  pivot_step n j m = normalize_row j (clear_below j (n - (j + 1)) (j + 1) (exchanged n j m))

  unfoldable pub forward : (n count j : ℕ) → Augmented F → Augmented F
  forward n zero j m = m
  forward n (suc count) j m = forward n count (j + 1) (pivot_step n j m)

  -- A zero above the leading coefficient of column `j`, in row `i`.
  unfoldable pub clear_above_row : (i j : ℕ) → Augmented F → Augmented F
  clear_above_row i j m =
      let s = m.a i j in record { a = sub_row s i j j m.a; v = sub_row s i j 0 m.v }

  -- The rows under `i`, from the last on.
  unfoldable pub clear_above : (j i : ℕ) → Augmented F → Augmented F
  clear_above j zero m = m
  clear_above j (suc i) m = clear_above j i (clear_above_row i j m)

  -- The second loop, from column `j` down to column 1.
  unfoldable pub backward : (j : ℕ) → Augmented F → Augmented F
  backward zero m = m
  backward (suc j) m = backward j (clear_above (suc j) (suc j) m)

  abbrev pub identity_array : Array F
  identity_array r c = if r == c then num 1 else num 0

  unfoldable pub inverse_array : (n : ℕ) → Array F → Augmented F
  inverse_array n a = backward (n - 1) (forward n n 0 (record { a = a; v = identity_array }))

  -- No pivotal entry is zero.
  abbrev pub HasPivots : (n count j : ℕ) → Augmented F → Type 0
  HasPivots n zero j m = Unit
  HasPivots n (suc count) j m =
      ((exchanged n j m).a j j ≢ num 0) × HasPivots n count (j + 1) (pivot_step n j m)
