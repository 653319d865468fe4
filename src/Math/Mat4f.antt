-- ===== src/Math/Mat4f.antt =====
-- math/cc_mat4f.h and math/cc_mat4f.c: matrices of four rows and columns, and their products. A function
-- that writes its result over its matrix and the one that writes a copy are one function here, except
-- where they multiply in another order.
pub mod Transforms
pub mod Product
pub mod Inverse
use libcc.Base.{ℕ, Bool, if◌then◌else◌}
use libcc.Math.{Scalars, ◌⊕◌, ◌⊖◌, ◌⊗◌, ◌⊘◌, num}
use libcc.Math.Vec.{Vec4f}

-- cc_mat4f_t
pub record Mat4f (F : Type 0) : Type 0 where
  pub m00 : F
  pub m10 : F
  pub m20 : F
  pub m30 : F
  pub m01 : F
  pub m11 : F
  pub m21 : F
  pub m31 : F
  pub m02 : F
  pub m12 : F
  pub m22 : F
  pub m32 : F
  pub m03 : F
  pub m13 : F
  pub m23 : F
  pub m33 : F

-- An initializer of a cc_mat4f_t: the fields in their order, column by column.
abbrev pub mat4f :
    {F : Type 0} → F → F → F → F → F → F → F → F → F → F → F → F → F → F → F → F → Mat4f F
mat4f m00 m10 m20 m30 m01 m11 m21 m31 m02 m12 m22 m32 m03 m13 m23 m33 = record {
  m00 = m00;
  m10 = m10;
  m20 = m20;
  m30 = m30;
  m01 = m01;
  m11 = m11;
  m21 = m21;
  m31 = m31;
  m02 = m02;
  m12 = m12;
  m22 = m22;
  m32 = m32;
  m03 = m03;
  m13 = m13;
  m23 = m23;
  m33 = m33;
}

module _ {F : Type 0} ⦃f : Scalars F⦄ where
  unfoldable pub identity : Mat4f F
  identity = record {
    m00 = (num 1);
    m01 = (num 0);
    m02 = (num 0);
    m03 = (num 0);
    m10 = (num 0);
    m11 = (num 1);
    m12 = (num 0);
    m13 = (num 0);
    m20 = (num 0);
    m21 = (num 0);
    m22 = (num 1);
    m23 = (num 0);
    m30 = (num 0);
    m31 = (num 0);
    m32 = (num 0);
    m33 = (num 1);
  }

  unfoldable pub transpose : Mat4f F → Mat4f F
  transpose self = record {
    m00 = self.m00;
    m01 = self.m10;
    m02 = self.m20;
    m03 = self.m30;
    m10 = self.m01;
    m11 = self.m11;
    m12 = self.m21;
    m13 = self.m31;
    m20 = self.m02;
    m21 = self.m12;
    m22 = self.m22;
    m23 = self.m32;
    m30 = self.m03;
    m31 = self.m13;
    m32 = self.m23;
    m33 = self.m33;
  }

  unfoldable pub mulm : Mat4f F → Mat4f F → Mat4f F
  mulm a m = record {
    m00 = a.m00 ⊗ m.m00 ⊕ a.m01 ⊗ m.m10 ⊕ a.m02 ⊗ m.m20 ⊕ a.m03 ⊗ m.m30;
    m01 = a.m00 ⊗ m.m01 ⊕ a.m01 ⊗ m.m11 ⊕ a.m02 ⊗ m.m21 ⊕ a.m03 ⊗ m.m31;
    m02 = a.m00 ⊗ m.m02 ⊕ a.m01 ⊗ m.m12 ⊕ a.m02 ⊗ m.m22 ⊕ a.m03 ⊗ m.m32;
    m03 = a.m00 ⊗ m.m03 ⊕ a.m01 ⊗ m.m13 ⊕ a.m02 ⊗ m.m23 ⊕ a.m03 ⊗ m.m33;
    m10 = a.m10 ⊗ m.m00 ⊕ a.m11 ⊗ m.m10 ⊕ a.m12 ⊗ m.m20 ⊕ a.m13 ⊗ m.m30;
    m11 = a.m10 ⊗ m.m01 ⊕ a.m11 ⊗ m.m11 ⊕ a.m12 ⊗ m.m21 ⊕ a.m13 ⊗ m.m31;
    m12 = a.m10 ⊗ m.m02 ⊕ a.m11 ⊗ m.m12 ⊕ a.m12 ⊗ m.m22 ⊕ a.m13 ⊗ m.m32;
    m13 = a.m10 ⊗ m.m03 ⊕ a.m11 ⊗ m.m13 ⊕ a.m12 ⊗ m.m23 ⊕ a.m13 ⊗ m.m33;
    m20 = a.m20 ⊗ m.m00 ⊕ a.m21 ⊗ m.m10 ⊕ a.m22 ⊗ m.m20 ⊕ a.m23 ⊗ m.m30;
    m21 = a.m20 ⊗ m.m01 ⊕ a.m21 ⊗ m.m11 ⊕ a.m22 ⊗ m.m21 ⊕ a.m23 ⊗ m.m31;
    m22 = a.m20 ⊗ m.m02 ⊕ a.m21 ⊗ m.m12 ⊕ a.m22 ⊗ m.m22 ⊕ a.m23 ⊗ m.m32;
    m23 = a.m20 ⊗ m.m03 ⊕ a.m21 ⊗ m.m13 ⊕ a.m22 ⊗ m.m23 ⊕ a.m23 ⊗ m.m33;
    m30 = a.m30 ⊗ m.m00 ⊕ a.m31 ⊗ m.m10 ⊕ a.m32 ⊗ m.m20 ⊕ a.m33 ⊗ m.m30;
    m31 = a.m30 ⊗ m.m01 ⊕ a.m31 ⊗ m.m11 ⊕ a.m32 ⊗ m.m21 ⊕ a.m33 ⊗ m.m31;
    m32 = a.m30 ⊗ m.m02 ⊕ a.m31 ⊗ m.m12 ⊕ a.m32 ⊗ m.m22 ⊕ a.m33 ⊗ m.m32;
    m33 = a.m30 ⊗ m.m03 ⊕ a.m31 ⊗ m.m13 ⊕ a.m32 ⊗ m.m23 ⊕ a.m33 ⊗ m.m33;
  }

  unfoldable pub mulv : Mat4f F → Vec4f F → Vec4f F
  mulv a v = record {
    x = a.m00 ⊗ v.x ⊕ a.m01 ⊗ v.y ⊕ a.m02 ⊗ v.z ⊕ a.m03 ⊗ v.w;
    y = a.m10 ⊗ v.x ⊕ a.m11 ⊗ v.y ⊕ a.m12 ⊗ v.z ⊕ a.m13 ⊗ v.w;
    z = a.m20 ⊗ v.x ⊕ a.m21 ⊗ v.y ⊕ a.m22 ⊗ v.z ⊕ a.m23 ⊗ v.w;
    w = a.m30 ⊗ v.x ⊕ a.m31 ⊗ v.y ⊕ a.m32 ⊗ v.z ⊕ a.m33 ⊗ v.w;
  }

  unfoldable pub muls : Mat4f F → F → Mat4f F
  muls self s = record {
    m00 = self.m00 ⊗ s;
    m01 = self.m01 ⊗ s;
    m02 = self.m02 ⊗ s;
    m03 = self.m03 ⊗ s;
    m10 = self.m10 ⊗ s;
    m11 = self.m11 ⊗ s;
    m12 = self.m12 ⊗ s;
    m13 = self.m13 ⊗ s;
    m20 = self.m20 ⊗ s;
    m21 = self.m21 ⊗ s;
    m22 = self.m22 ⊗ s;
    m23 = self.m23 ⊗ s;
    m30 = self.m30 ⊗ s;
    m31 = self.m31 ⊗ s;
    m32 = self.m32 ⊗ s;
    m33 = self.m33 ⊗ s;
  }

  unfoldable pub muls_copy : Mat4f F → F → Mat4f F
  muls_copy self s = record {
    m00 = s ⊗ self.m00;
    m01 = s ⊗ self.m01;
    m02 = s ⊗ self.m02;
    m03 = s ⊗ self.m03;
    m10 = s ⊗ self.m10;
    m11 = s ⊗ self.m11;
    m12 = s ⊗ self.m12;
    m13 = s ⊗ self.m13;
    m20 = s ⊗ self.m20;
    m21 = s ⊗ self.m21;
    m22 = s ⊗ self.m22;
    m23 = s ⊗ self.m23;
    m30 = s ⊗ self.m30;
    m31 = s ⊗ self.m31;
    m32 = s ⊗ self.m32;
    m33 = s ⊗ self.m33;
  }

  unfoldable pub addm : Mat4f F → Mat4f F → Mat4f F
  addm self m = record {
    m00 = self.m00 ⊕ m.m00;
    m01 = self.m01 ⊕ m.m01;
    m02 = self.m02 ⊕ m.m02;
    m03 = self.m03 ⊕ m.m03;
    m10 = self.m10 ⊕ m.m10;
    m11 = self.m11 ⊕ m.m11;
    m12 = self.m12 ⊕ m.m12;
    m13 = self.m13 ⊕ m.m13;
    m20 = self.m20 ⊕ m.m20;
    m21 = self.m21 ⊕ m.m21;
    m22 = self.m22 ⊕ m.m22;
    m23 = self.m23 ⊕ m.m23;
    m30 = self.m30 ⊕ m.m30;
    m31 = self.m31 ⊕ m.m31;
    m32 = self.m32 ⊕ m.m32;
    m33 = self.m33 ⊕ m.m33;
  }
