-- ===== src/Math/Vec.antt =====
-- math/cc_vec3f.c, math/cc_vec4f.c and math/cc_quaternion.h: vectors, without their allocation. A function
-- that writes its result over its first vector and the one that writes a copy are one function here,
-- except where they multiply in another order.
use libcc.Base.{Bool, ◌&&◌}
use libcc.Math.{Scalars, ◌⊕◌, ◌⊖◌, ◌⊗◌, ◌⊘◌, num}

-- cc_vec3f_t
pub record Vec3f (F : Type 0) : Type 0 where
  pub x : F
  pub y : F
  pub z : F

-- cc_vec4f_t
pub record Vec4f (F : Type 0) : Type 0 where
  pub x : F
  pub y : F
  pub z : F
  pub w : F

abbrev pub vec3f : {F : Type 0} → F → F → F → Vec3f F
vec3f x y z = record { x = x; y = y; z = z }

abbrev pub vec4f : {F : Type 0} → F → F → F → F → Vec4f F
vec4f x y z w = record { x = x; y = y; z = z; w = w }

module _ {F : Type 0} ⦃f : Scalars F⦄ where
  unfoldable pub vec3f_equals : Vec3f F → Vec3f F → Bool
  vec3f_equals self v = f.eq self.x v.x && f.eq self.y v.y && f.eq self.z v.z

  unfoldable pub vec3f_mag : Vec3f F → F
  vec3f_mag self = f.sqrt (self.x ⊗ self.x ⊕ self.y ⊗ self.y ⊕ self.z ⊗ self.z)

  unfoldable pub vec3f_addv : Vec3f F → Vec3f F → Vec3f F
  vec3f_addv self v = record { x = self.x ⊕ v.x; y = self.y ⊕ v.y; z = self.z ⊕ v.z }

  unfoldable pub vec3f_adds : Vec3f F → F → Vec3f F
  vec3f_adds self s = record { x = self.x ⊕ s; y = self.y ⊕ s; z = self.z ⊕ s }

  unfoldable pub vec3f_subv : Vec3f F → Vec3f F → Vec3f F
  vec3f_subv self v = record { x = self.x ⊖ v.x; y = self.y ⊖ v.y; z = self.z ⊖ v.z }

  unfoldable pub vec3f_mulv : Vec3f F → Vec3f F → Vec3f F
  vec3f_mulv self v = record { x = self.x ⊗ v.x; y = self.y ⊗ v.y; z = self.z ⊗ v.z }

  unfoldable pub vec3f_muls : Vec3f F → F → Vec3f F
  vec3f_muls self s = record { x = self.x ⊗ s; y = self.y ⊗ s; z = self.z ⊗ s }

  unfoldable pub vec3f_muls_copy : Vec3f F → F → Vec3f F
  vec3f_muls_copy self s = record { x = s ⊗ self.x; y = s ⊗ self.y; z = s ⊗ self.z }

  unfoldable pub vec3f_normalize : Vec3f F → Vec3f F
  vec3f_normalize self = vec3f_muls self (num 1 ⊘ (vec3f_mag self ⊕ f.epsilon))

  unfoldable pub vec3f_normalize_copy : Vec3f F → Vec3f F
  vec3f_normalize_copy self = vec3f_muls_copy self (num 1 ⊘ (vec3f_mag self ⊕ f.epsilon))

  unfoldable pub vec3f_dot : Vec3f F → Vec3f F → F
  vec3f_dot a b = a.x ⊗ b.x ⊕ a.y ⊗ b.y ⊕ a.z ⊗ b.z

  unfoldable pub vec3f_distance : Vec3f F → Vec3f F → F
  vec3f_distance a b = vec3f_mag (vec3f_subv a b)

  unfoldable pub vec3f_cross : Vec3f F → Vec3f F → Vec3f F
  vec3f_cross a b = record {
    x = (a.y ⊗ b.z) ⊖ (b.y ⊗ a.z);
    y = f.neg (a.x ⊗ b.z) ⊕ (b.x ⊗ a.z);
    z = (a.x ⊗ b.y) ⊖ (b.x ⊗ a.y);
  }

module _ {F : Type 0} ⦃f : Scalars F⦄ where
  unfoldable pub vec4f_equals : Vec4f F → Vec4f F → Bool
  vec4f_equals self v = f.eq self.x v.x && f.eq self.y v.y && f.eq self.z v.z && f.eq self.w v.w

  unfoldable pub vec4f_mag : Vec4f F → F
  vec4f_mag self = f.sqrt (self.x ⊗ self.x ⊕ self.y ⊗ self.y ⊕ self.z ⊗ self.z ⊕ self.w ⊗ self.w)

  unfoldable pub vec4f_addv : Vec4f F → Vec4f F → Vec4f F
  vec4f_addv self v = record {
    x = self.x ⊕ v.x;
    y = self.y ⊕ v.y;
    z = self.z ⊕ v.z;
    w = self.w ⊕ v.w;
  }

  unfoldable pub vec4f_adds : Vec4f F → F → Vec4f F
  vec4f_adds self s = record { x = self.x ⊕ s; y = self.y ⊕ s; z = self.z ⊕ s; w = self.w ⊕ s }

  unfoldable pub vec4f_subv : Vec4f F → Vec4f F → Vec4f F
  vec4f_subv self v = record {
    x = self.x ⊖ v.x;
    y = self.y ⊖ v.y;
    z = self.z ⊖ v.z;
    w = self.w ⊖ v.w;
  }

  unfoldable pub vec4f_mulv : Vec4f F → Vec4f F → Vec4f F
  vec4f_mulv self v = record {
    x = self.x ⊗ v.x;
    y = self.y ⊗ v.y;
    z = self.z ⊗ v.z;
    w = self.w ⊗ v.w;
  }

  unfoldable pub vec4f_muls : Vec4f F → F → Vec4f F
  vec4f_muls self s = record { x = self.x ⊗ s; y = self.y ⊗ s; z = self.z ⊗ s; w = self.w ⊗ s }

  unfoldable pub vec4f_muls_copy : Vec4f F → F → Vec4f F
  vec4f_muls_copy self s = record { x = s ⊗ self.x; y = s ⊗ self.y; z = s ⊗ self.z; w = s ⊗ self.w }

  unfoldable pub vec4f_normalize : Vec4f F → Vec4f F
  vec4f_normalize self = vec4f_muls self (num 1 ⊘ (vec4f_mag self ⊕ f.epsilon))

  unfoldable pub vec4f_normalize_copy : Vec4f F → Vec4f F
  vec4f_normalize_copy self = vec4f_muls_copy self (num 1 ⊘ (vec4f_mag self ⊕ f.epsilon))

  unfoldable pub vec4f_dot : Vec4f F → Vec4f F → F
  vec4f_dot a b = a.x ⊗ b.x ⊕ a.y ⊗ b.y ⊕ a.z ⊗ b.z ⊕ a.w ⊗ b.w

  unfoldable pub vec4f_lerp : Vec4f F → Vec4f F → F → Vec4f F
  vec4f_lerp a b s = record {
    x = a.x ⊕ s ⊗ (b.x ⊖ a.x);
    y = a.y ⊕ s ⊗ (b.y ⊖ a.y);
    z = a.z ⊕ s ⊗ (b.z ⊖ a.z);
    w = a.w ⊕ s ⊗ (b.w ⊖ a.w);
  }
