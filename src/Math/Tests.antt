-- ===== src/Math/Tests.antt =====
-- The matrices of math/cc_mat4f.c and math/cc_mat3f.c over scalars that compute: the theorems at work.
use libcc.Base.{
  List, [], ◌∷◌, ℕ, ◌+◌, ◌-◌, ◌*◌, ◌/◌, ◌≡◌, ◌≢◌, refl, Bool, true, false, not, ltb, leb, ◌==◌,
  ◌&&◌, arith, if◌then◌else◌,
}
use libcc.Int.{pos}
use libcc.Math.Quaternion.{quaternion}
use libcc.Math.Orientation.{Orientation, reset}
use libcc.Math.Orientation.First.{Sample, accelerates, points, turns, handle_all}
use libcc.Math.{Scalars, ◌⊗◌}
use libcc.Math.Sum.{IsSemiring, sum}
use libcc.Math.Vec.{vec4f}
use libcc.Math.Gauss.{
  exchanged, exchange, find_pivot, pivot_step, swap_rows, clear_below, clear_row, normalize_row,
  set_entry, sub_row, mul_row, inverse_array, forward, backward, clear_above, clear_above_row,
}
use libcc.Math.Gauss.Rows.{IsField}
use libcc.Math.Mat4f.{Mat4f, mat4f, identity, transpose, mulm, mulv, muls, muls_copy}
use libcc.Math.Mat4f.Product.{at, entry, mulm-mulv-sum, transpose-mulm, mulv-mulm}
use libcc.Math.Mat4f.Inverse.{inverse, mulm-inverse}

-- The natural numbers; what they have no value for is 0.
instance abbrev pub natural : Scalars ℕ
natural = record {
  num = λ n. n;
  add = λ a b. a + b;
  sub = λ a b. a - b;
  mul = λ a b. a * b;
  div = λ a b. a / b;
  neg = λ a. 0;
  fabs = λ a. a;
  sqrt = λ a. a;
  sin = λ a. a;
  cos = λ a. a;
  tan = λ a. a;
  acos = λ a. a;
  log = λ a. a;
  gt = λ a b. ltb b a;
  le = leb;
  eq = λ a b. a == b;
  pi = 3;
  epsilon = 1;
}

natural-IsSemiring : IsSemiring ℕ
natural-IsSemiring = record {
  add_assoc = λ a b c. omega arith;
  add_comm = λ a b. omega arith;
  zero-add = λ a. omega arith;
  mul_assoc = λ a b c. grind arith;
  mul_comm = λ a b. grind arith;
  one-mul = λ a. omega arith;
  zero-mul = λ a. omega arith;
  mul-add = λ a b c. grind arith;
}

abbrev xor : Bool → Bool → Bool
xor true b = not b
xor false b = b

-- The field of two elements.
instance abbrev parity : Scalars Bool
parity = record {
  num = λ n. if n == 0 then false else true;
  add = xor;
  sub = xor;
  mul = λ a b. a && b;
  div = λ a b. a && b;
  neg = λ a. a;
  fabs = λ a. a;
  sqrt = λ a. a;
  sin = λ a. a;
  cos = λ a. a;
  tan = λ a. a;
  acos = λ a. a;
  log = λ a. a;
  gt = λ a b. a && not b;
  le = λ a b. not a;
  eq = λ a b. not (xor a b);
  pi = true;
  epsilon = true;
}

parity-IsField : IsField Bool
parity-IsField = record {
  semiring = record {
    add_assoc = λ a b c. ground arith;
    add_comm = λ a b. ground arith;
    zero-add = λ a. refl;
    mul_assoc = λ a b c. ground arith;
    mul_comm = λ a b. ground arith;
    one-mul = λ a. refl;
    zero-mul = λ a. refl;
    mul-add = λ a b c. ground arith;
  };
  sub-self = λ a. ground arith;
  sub-zero = λ a. ground arith;
  sub-mul = λ a b c. ground arith;
  sub-add = λ a b c d. ground arith;
  div-mul = λ a b ne. ground (arith, ne);
}

abbrev small : Mat4f ℕ
small = mat4f 1 2 0 0 3 1 0 0 0 0 2 1 4 0 0 1

abbrev other : Mat4f ℕ
other = mat4f 0 1 0 2 1 0 0 0 0 3 1 0 0 0 1 1

mulm-mulv-sum_example :
    (at (mulm small other) 1 3 ≡ sum 3 (λ k. at small 1 k ⊗ at other k 3))
    × (entry (mulv small (vec4f 1 2 3 4)) 1 ≡ sum 3 (λ k. at small 1 k ⊗ entry (vec4f 1 2 3 4) k))
mulm-mulv-sum_example = mulm-mulv-sum small other (vec4f 1 2 3 4) 1 3 (omega arith) (omega arith)

transpose-mulm_example :
    (transpose (mulm small other) ≡ mulm (transpose other) (transpose small))
    × (transpose (transpose small) ≡ small)
    × (muls small 5 ≡ muls_copy small 5)
transpose-mulm_example = transpose-mulm natural-IsSemiring.mul_comm small other 5

mulv-mulm_example :
    (mulv (mulm small other) (vec4f 1 2 3 4) ≡ mulv small (mulv other (vec4f 1 2 3 4)))
    × (mulm (mulm small other) small ≡ mulm small (mulm other small))
    × (mulm small identity ≡ small)
    × (mulm identity small ≡ small)
mulv-mulm_example = mulv-mulm natural-IsSemiring small other small (vec4f 1 2 3 4)

-- The first two rows change places, and the third has a second entry.
abbrev shuffled : Mat4f Bool
shuffled =
    mat4f false true false false true false false false false false true false false false true true

true-ne-false : true ≢ false
true-ne-false = λ p. absurd (ground (arith, p))

shuffled-inverse : inverse shuffled ≡ shuffled
unfolding inverse inverse_array forward backward pivot_step exchanged exchange find_pivot swap_rows
    clear_below clear_row normalize_row set_entry sub_row mul_row clear_above clear_above_row
shuffled-inverse = refl

mulm-inverse_example : mulm (inverse shuffled) shuffled ≡ identity
unfolding pivot_step exchanged exchange find_pivot swap_rows clear_below clear_row normalize_row
    set_entry sub_row mul_row
mulm-inverse_example =
    mulm-inverse parity-IsField shuffled
      (true-ne-false, (true-ne-false, (true-ne-false, (true-ne-false, tt))))

abbrev at_rest : Orientation ℕ
at_rest = record {
  a_ts = 0;
  a_ax = 0;
  a_ay = 0;
  a_az = 9;
  a_rotation = pos 0;
  m_north = true;
  m_ts = 0;
  m_mx = 0;
  m_my = 1;
  m_mz = 0;
  m_gfx = 0;
  m_gfy = 1;
  m_gfz = 0;
  g_ts = 0;
  g_ax = 0;
  g_ay = 0;
  g_az = 0;
  q = quaternion 0 0 0 1;
}

-- Samples of all the sensors but one.
abbrev without_magnetometer : List (Sample ℕ)
without_magnetometer = turns 1 1 1 1 ∷ accelerates 5 1 2 3 (pos 0) ∷ turns 7 1 1 1 ∷ []

abbrev without_accelerometer : List (Sample ℕ)
without_accelerometer = turns 1 1 1 1 ∷ points 6 3 2 1 4 5 6 ∷ turns 7 1 1 1 ∷ []

abbrev leveled : Orientation ℕ
leveled = handle_all (reset at_rest) without_magnetometer

abbrev northed : Orientation ℕ
northed = handle_all (reset at_rest) without_accelerometer
