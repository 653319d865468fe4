-- ===== src/Math.antt =====
-- The floating-point numbers of the modules under math. What the processor and libm compute is not part
-- of the repository: the operations are a parameter of the model, and a theorem that needs a law of them
-- names it. One type stands for float and double, so that conversions between them do nothing.
pub mod Sum
pub mod Vec
pub mod Gauss
pub mod Mat4f
pub mod Mat3f
pub mod Quaternion
pub mod Orientation
pub mod Geometry
pub mod Tests
use libcc.Base.{ℕ, Bool}

pub record Scalars (F : Type 0) : Type 0 where
  -- a literal that is a whole number
  pub num : ℕ → F
  pub add : F → F → F
  pub sub : F → F → F
  pub mul : F → F → F
  pub div : F → F → F
  pub neg : F → F
  pub fabs : F → F
  pub sqrt : F → F
  pub sin : F → F
  pub cos : F → F
  pub tan : F → F
  pub acos : F → F
  pub log : F → F
  -- a > b, a <= b and a == b
  pub gt : F → F → Bool
  pub le : F → F → Bool
  pub eq : F → F → Bool
  -- M_PI and FLT_EPSILON
  pub pi : F
  pub epsilon : F

module _ {F : Type 0} ⦃f : Scalars F⦄ where
  infixl 65 ◌⊕◌
  infixl 65 ◌⊖◌
  infixl 70 ◌⊗◌
  infixl 70 ◌⊘◌
  abbrev pub ◌⊕◌ : F → F → F
  a ⊕ b = f.add a b

  abbrev pub ◌⊖◌ : F → F → F
  a ⊖ b = f.sub a b

  abbrev pub ◌⊗◌ : F → F → F
  a ⊗ b = f.mul a b

  abbrev pub ◌⊘◌ : F → F → F
  a ⊘ b = f.div a b

  abbrev pub num : ℕ → F
  num n = f.num n
