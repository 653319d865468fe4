-- ===== src/Murmur/Tests.antt =====
-- Published values of the hash.
use libcc.Base.{◌≡◌, refl, [], ◌∷◌}
use libcc.Murmur.{mumurhash3}

test_empty : mumurhash3 1 [] ≡ 0x514e28b7
unfolding mumurhash3
test_empty = refl

test_word : mumurhash3 0 (b't' ∷ b'e' ∷ b's' ∷ b't' ∷ []) ≡ 0xba6bd213
unfolding mumurhash3
test_word = refl

test_tail : mumurhash3 0x9747b28c (b'a' ∷ b'b' ∷ b'c' ∷ []) ≡ 0xc84a62dd
unfolding mumurhash3
test_tail = refl
