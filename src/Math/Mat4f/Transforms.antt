-- ===== src/Math/Mat4f/Transforms.antt =====
-- math/cc_mat4f.c: the matrices of the GL operations, which are loaded or multiplied with the matrix.
use libcc.Base.{Bool, false, ◌||◌, if◌then◌else◌}
use libcc.Math.{Scalars, ◌⊕◌, ◌⊖◌, ◌⊗◌, ◌⊘◌, num}
use libcc.Math.Vec.{
  Vec3f, Vec4f, vec4f, vec3f_subv, vec3f_normalize, vec3f_cross, vec4f_dot, vec4f_muls_copy,
  vec4f_subv, vec4f_normalize, vec4f_normalize_copy,
}
use libcc.Math.Mat4f.{Mat4f, mat4f, mulm}

module _ {F : Type 0} ⦃f : Scalars F⦄ where
  -- `if(load)` at the end of each of them
  abbrev pub load_or_mulm : Bool → Mat4f F → Mat4f F → Mat4f F
  load_or_mulm load self m = if load then m else mulm self m

  abbrev pub translation : F → F → F → Mat4f F
  translation x y z =
      mat4f (num 1) (num 0) (num 0) (num 0) (num 0) (num 1) (num 0) (num 0) (num 0) (num 0) (num 1)
        (num 0) x y z (num 1)

  unfoldable pub translate : Mat4f F → Bool → F → F → F → Mat4f F
  translate self load x y z = load_or_mulm load self (translation x y z)

  abbrev pub scaling : F → F → F → Mat4f F
  scaling x y z =
      mat4f x (num 0) (num 0) (num 0) (num 0) y (num 0) (num 0) (num 0) (num 0) z (num 0) (num 0)
        (num 0) (num 0) (num 1)

  unfoldable pub scale : Mat4f F → Bool → F → F → F → Mat4f F
  scale self load x y z = load_or_mulm load self (scaling x y z)

  -- The rotation by an angle, whose cosine and sine are `c` and `s`, around a normalized axis.
  abbrev pub rotation : (c s x y z : F) → Mat4f F
  rotation c s x y z =
      let p = num 1 ⊖ c in
      let xxp = x ⊗ x ⊗ p in
      let xyp = x ⊗ y ⊗ p in
      let xzp = x ⊗ z ⊗ p in
      let yyp = y ⊗ y ⊗ p in
      let yzp = y ⊗ z ⊗ p in
      let zzp = z ⊗ z ⊗ p in
      let xs = x ⊗ s in
      let ys = y ⊗ s in
      let zs = z ⊗ s in
      mat4f (xxp ⊕ c) (xyp ⊕ zs) (xzp ⊖ ys) (num 0) (xyp ⊖ zs) (yyp ⊕ c) (yzp ⊕ xs) (num 0)
        (xzp ⊕ ys) (yzp ⊖ xs) (zzp ⊕ c) (num 0) (num 0) (num 0) (num 0) (num 1)

  unfoldable pub rotate : Mat4f F → Bool → F → F → F → F → Mat4f F
  rotate self load a x y z =
      let n = x ⊗ x ⊕ y ⊗ y ⊕ z ⊗ z in
      let c = f.cos (f.pi ⊗ a ⊘ num 180) in
      let s = f.sin (f.pi ⊗ a ⊘ num 180) in
      if f.eq n (num 1)
      then load_or_mulm load self (rotation c s x y z)
      else (let n = num 1 ⊘ f.sqrt n in
          load_or_mulm load self (rotation c s (x ⊗ n) (y ⊗ n) (z ⊗ n)))

  unfoldable pub frustum : Mat4f F → Bool → (l r b t n f : F) → Mat4f F
  frustum self load l r b t n far =
      if f.le n (num 0) || f.le far (num 0) || f.eq l r || f.eq t b || f.eq n far
      then self
      else (let n2 = num 2 ⊗ n in
          let rml = r ⊖ l in
          let rpl = r ⊕ l in
          let tmb = t ⊖ b in
          let tpb = t ⊕ b in
          let fmn = far ⊖ n in
          let fpn = far ⊕ n in
          load_or_mulm load self (
            mat4f (n2 ⊘ rml) (num 0) (num 0) (num 0) (num 0) (n2 ⊘ tmb) (num 0) (num 0) (rpl ⊘ rml)
              (tpb ⊘ tmb) (f.neg fpn ⊘ fmn) (f.neg (num 1)) (num 0) (num 0) (f.neg n2 ⊗ far ⊘ fmn)
              (num 0)))

  unfoldable pub ortho : Mat4f F → Bool → (l r b t n f : F) → Mat4f F
  ortho self load l r b t n far =
      if f.eq l r || f.eq t b || f.eq n far
      then self
      else (let rml = r ⊖ l in
          let rpl = r ⊕ l in
          let bmt = b ⊖ t in
          let tpb = t ⊕ b in
          let fmn = far ⊖ n in
          load_or_mulm load self (
            mat4f (num 2 ⊘ rml) (num 0) (num 0) (num 0) (num 0) (num 2 ⊘ bmt) (num 0) (num 0)
              (num 0) (num 0) (f.neg (num 1) ⊘ fmn) (num 0) (f.neg rpl ⊘ rml) (f.neg tpb ⊘ bmt)
              (f.neg n ⊘ fmn) (num 1)))

  unfoldable pub perspective : Mat4f F → Bool → (fovy aspect znear zfar : F) → Mat4f F
  perspective self load fovy aspect znear zfar =
      let g = num 1 ⊘ f.tan (fovy ⊗ (f.pi ⊘ num 180) ⊘ num 2) in
      let m22 = zfar ⊘ (znear ⊖ zfar) in
      let m23 = (znear ⊗ zfar) ⊘ (znear ⊖ zfar) in
      load_or_mulm load self (
        mat4f (g ⊘ aspect) (num 0) (num 0) (num 0) (num 0) (f.neg g) (num 0) (num 0) (num 0) (num 0)
          m22 (f.neg (num 1)) (num 0) (num 0) m23 (num 0))

  -- the left and the right matrix
  unfoldable pub perspective_stereo :
      Mat4f F
      → Mat4f F
      → Bool
      → (fovy aspect znear zfar convergence eye_separation : F) → Mat4f F × Mat4f F
  unfolding frustum
  perspective_stereo pm_l pm_r load fovy aspect znear zfar convergence eye_separation =
      let tan_fovy2 = f.tan (fovy ⊗ (f.pi ⊘ num 180) ⊘ num 2) in
      let es2 = eye_separation ⊘ num 2 in
      let top = znear ⊗ tan_fovy2 in
      let bottom = f.neg top in
      let a = aspect ⊗ tan_fovy2 ⊗ convergence in
      let b = a ⊖ es2 in
      let c = a ⊕ es2 in
      let d = znear ⊘ convergence in
      (
        frustum pm_l load (f.neg b ⊗ d) (c ⊗ d) bottom top znear zfar,
        frustum pm_r load (f.neg c ⊗ d) (b ⊗ d) bottom top znear zfar,
      )

  unfoldable pub lookat : Mat4f F → Bool → (eye center up : Vec3f F) → Mat4f F
  lookat self load eye center up =
      let n = vec3f_normalize (vec3f_subv center eye) in
      let up = vec3f_normalize up in
      let u = vec3f_cross n up in
      let v = vec3f_normalize (vec3f_cross u n) in
      let u = vec3f_normalize u in
      load_or_mulm load self (
        translate
          (mat4f u.x v.x (f.neg n.x) (num 0) u.y v.y (f.neg n.y) (num 0) u.z v.z (f.neg n.z) (num 0)
            (num 0) (num 0) (num 0) (num 1))
          false (f.neg eye.x) (f.neg eye.y) (f.neg eye.z))

  -- cc_mat4f_projuv
  unfoldable pub projuv : Vec4f F → Vec4f F → Vec4f F
  projuv u v = vec4f_muls_copy u (vec4f_dot v u ⊘ vec4f_dot u u)

  -- The rows of the matrix that cc_mat4f_orthonormal makes.
  unfoldable pub orthonormal : Mat4f F → Mat4f F
  orthonormal self =
      let v0 = vec4f self.m00 self.m01 self.m02 self.m03 in
      let v1 = vec4f self.m10 self.m11 self.m12 self.m13 in
      let v2 = vec4f self.m20 self.m21 self.m22 self.m23 in
      let v3 = vec4f self.m30 self.m31 self.m32 self.m33 in
      let u0 = vec4f_normalize_copy v0 in
      let u1 = vec4f_normalize (vec4f_subv v1 (projuv u0 v1)) in
      let u2 = vec4f_subv v2 (projuv u1 v2) in
      let u2 = vec4f_normalize (vec4f_subv u2 (projuv u0 u2)) in
      let u3 = vec4f_subv v3 (projuv u2 v3) in
      let u3 = vec4f_subv u3 (projuv u1 u3) in
      let u3 = vec4f_normalize (vec4f_subv u3 (projuv u0 u3)) in
      mat4f u0.x u1.x u2.x u3.x u0.y u1.y u2.y u3.y u0.z u1.z u2.z u3.z u0.w u1.w u2.w u3.w
