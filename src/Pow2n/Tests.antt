-- ===== src/Pow2n/Tests.antt =====
-- Powers of two at concrete numbers.
use libcc.Base.{◌+◌, ◌%◌, ◌^◌, ◌≡◌, refl, arith}
use libcc.Pow2n.{next_pow2n, next_pow2n64}
use libcc.Pow2n.Next.{next_pow2n-least}

test_next : next_pow2n 1000 ≡ 1024
unfolding next_pow2n
test_next = refl

-- The power is past the range.
test_next_wraps : next_pow2n (2 ^ 31 + 1) ≡ 0
unfolding next_pow2n
test_next_wraps = refl

next_pow2n-least_example : next_pow2n 1000 ≡ 2 ^ 10 % 2 ^ 32
next_pow2n-least_example = next_pow2n-least 10 1000 (omega arith) (omega arith) (omega arith)

test_next64 : next_pow2n64 5000000000 ≡ 2 ^ 33
unfolding next_pow2n64
test_next64 = refl
