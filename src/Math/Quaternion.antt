-- ===== src/Math/Quaternion.antt =====
-- math/cc_quaternion.h and math/cc_quaternion.c: quaternions, and the two functions of math/cc_mat4f.c
-- between them and matrices.
use libcc.Base.{◌≡◌, sym, ap, Bool, ◌&&◌, if◌then◌else◌}
use libcc.Math.{Scalars, ◌⊕◌, ◌⊖◌, ◌⊗◌, ◌⊘◌, num}
use libcc.Math.Vec.{
  Vec3f, vec3f, Vec4f, vec4f, vec3f_normalize, vec4f_muls, vec4f_muls_copy, vec4f_addv, vec4f_subv,
  vec4f_dot, vec4f_normalize, vec4f_normalize_copy,
}
use libcc.Math.Mat4f.{Mat4f, mat4f}
use libcc.Math.Mat4f.Transforms.{load_or_mulm}

-- cc_quaternion_t
pub record Quaternion (F : Type 0) : Type 0 where
  pub v : Vec3f F
  pub s : F

module _ {F : Type 0} where
  -- The casts between cc_quaternion_t* and cc_vec4f_t*.
  abbrev pub to_vec4f : Quaternion F → Vec4f F
  to_vec4f q = vec4f q.v.x q.v.y q.v.z q.s

  abbrev pub of_vec4f : Vec4f F → Quaternion F
  of_vec4f v = record { v = vec3f v.x v.y v.z; s = v.w }

  -- cc_quaternion_load
  abbrev pub quaternion : F → F → F → F → Quaternion F
  quaternion x y z s = record { v = vec3f x y z; s = s }

module _ {F : Type 0} ⦃f : Scalars F⦄ where
  unfoldable pub normalize : Quaternion F → Quaternion F
  normalize self = of_vec4f (vec4f_normalize (to_vec4f self))

  unfoldable pub normalize_copy : Quaternion F → Quaternion F
  normalize_copy self = of_vec4f (vec4f_normalize_copy (to_vec4f self))

  unfoldable pub loadaxis : (a x y z : F) → Quaternion F
  loadaxis a x y z =
      let v = vec3f_normalize (vec3f x y z) in
      let a2 = (a ⊘ num 2) ⊗ (f.pi ⊘ num 180) in
      let sin_a2 = f.sin a2 in quaternion (v.x ⊗ sin_a2) (v.y ⊗ sin_a2) (v.z ⊗ sin_a2) (f.cos a2)

  unfoldable pub loadeuler : (rx ry rz : F) → Quaternion F
  unfolding normalize
  loadeuler rx ry rz =
      let rx2 = (rx ⊘ num 2) ⊗ (f.pi ⊘ num 180) in
      let ry2 = (ry ⊘ num 2) ⊗ (f.pi ⊘ num 180) in
      let rz2 = (rz ⊘ num 2) ⊗ (f.pi ⊘ num 180) in
      let sx = f.sin rx2 in
      let sy = f.sin ry2 in
      let sz = f.sin rz2 in
      let cx = f.cos rx2 in
      let cy = f.cos ry2 in
      let cz = f.cos rz2 in
      normalize (
        quaternion (sx ⊗ cy ⊗ cz ⊖ cx ⊗ sy ⊗ sz) (cx ⊗ sy ⊗ cz ⊕ sx ⊗ cy ⊗ sz)
          (cx ⊗ cy ⊗ sz ⊖ sx ⊗ sy ⊗ cz) (cx ⊗ cy ⊗ cz ⊕ sx ⊗ sy ⊗ sz))

  unfoldable pub loadaxisangle : (ax ay az angle : F) → Quaternion F
  unfolding normalize
  loadaxisangle ax ay az angle =
      let sin_a = f.sin ((f.pi ⊘ num 180) ⊗ angle ⊘ num 2) in
      let cos_a = f.cos ((f.pi ⊘ num 180) ⊗ angle ⊘ num 2) in
      normalize (quaternion (ax ⊗ sin_a) (ay ⊗ sin_a) (az ⊗ sin_a) cos_a)

  unfoldable pub inverse : Quaternion F → Quaternion F
  inverse self = quaternion (f.neg self.v.x) (f.neg self.v.y) (f.neg self.v.z) self.s

  abbrev pub product : Quaternion F → Quaternion F → Quaternion F
  product a q =
      quaternion (a.s ⊗ q.v.x ⊕ a.v.x ⊗ q.s ⊕ a.v.y ⊗ q.v.z ⊖ a.v.z ⊗ q.v.y)
        (a.s ⊗ q.v.y ⊕ a.v.y ⊗ q.s ⊕ a.v.z ⊗ q.v.x ⊖ a.v.x ⊗ q.v.z)
        (a.s ⊗ q.v.z ⊕ a.v.z ⊗ q.s ⊕ a.v.x ⊗ q.v.y ⊖ a.v.y ⊗ q.v.x)
        (a.s ⊗ q.s ⊖ a.v.x ⊗ q.v.x ⊖ a.v.y ⊗ q.v.y ⊖ a.v.z ⊗ q.v.z)

  unfoldable pub rotateq : Quaternion F → Quaternion F → Quaternion F
  rotateq self q = normalize_copy (product self q)

  unfoldable pub rotateq_copy : Quaternion F → Quaternion F → Quaternion F
  rotateq_copy self q = normalize (product self q)

  -- cc_quaternion_slerp, from the normalized quaternions and their dot product on. The literals 0.9995f
  -- and -1.0f are the fraction and the negation.
  unfoldable pub slerp_from : (aa bb : Vec4f F) → (dot t : F) → Quaternion F
  slerp_from aa bb dot t =
      if f.gt dot (num 9995 ⊘ num 10000)
      then normalize (of_vec4f (vec4f_addv (vec4f_muls (vec4f_subv bb aa) t) aa))
      else (let theta_0 = f.acos dot in
          let theta = theta_0 ⊗ t in
          let s0 = f.cos theta ⊖ dot ⊗ f.sin theta ⊘ f.sin theta_0 in
          let s1 = f.sin theta ⊘ f.sin theta_0 in
          normalize (of_vec4f (vec4f_addv (vec4f_muls aa s0) (vec4f_muls bb s1))))

  unfoldable pub slerp : Quaternion F → Quaternion F → F → Quaternion F
  slerp a b t =
      let aa = to_vec4f (normalize_copy a) in
      let bb = to_vec4f (normalize_copy b) in
      let dot = vec4f_dot aa bb in
      if f.gt (num 0) dot
      then slerp_from aa (vec4f_muls bb (f.neg (num 1))) (f.neg dot) t
      else slerp_from aa bb dot t

  unfoldable pub compare : Quaternion F → Quaternion F → F
  compare a b =
      let ds = b.s ⊖ a.s in
      let dx = b.v.x ⊖ a.v.x in
      let dy = b.v.y ⊖ a.v.y in
      let dz = b.v.z ⊖ a.v.z in f.sqrt (ds ⊗ ds ⊕ dx ⊗ dx ⊕ dy ⊗ dy ⊕ dz ⊗ dz)

  -- cc_mat4f_quaternion; the literal 0.25f is the fraction.
  unfoldable pub of_mat4f : Mat4f F → Quaternion F
  of_mat4f a =
      let quarter = num 1 ⊘ num 4 in
      let tr = a.m00 ⊕ a.m11 ⊕ a.m22 in
      if f.gt tr (num 0)
      then (let s = f.sqrt (tr ⊕ num 1) ⊗ num 2 in
          quaternion ((a.m21 ⊖ a.m12) ⊘ s) ((a.m02 ⊖ a.m20) ⊘ s) ((a.m10 ⊖ a.m01) ⊘ s)
            (quarter ⊗ s))
      else if f.gt a.m00 a.m11 && f.gt a.m00 a.m22
      then (let s = f.sqrt (num 1 ⊕ a.m00 ⊖ a.m11 ⊖ a.m22) ⊗ num 2 in
          quaternion (quarter ⊗ s) ((a.m01 ⊕ a.m10) ⊘ s) ((a.m02 ⊕ a.m20) ⊘ s)
            ((a.m21 ⊖ a.m12) ⊘ s))
      else if f.gt a.m11 a.m22
      then (let s = f.sqrt (num 1 ⊕ a.m11 ⊖ a.m00 ⊖ a.m22) ⊗ num 2 in
          quaternion ((a.m01 ⊕ a.m10) ⊘ s) (quarter ⊗ s) ((a.m12 ⊕ a.m21) ⊘ s)
            ((a.m02 ⊖ a.m20) ⊘ s))
      else (let s = f.sqrt (num 1 ⊕ a.m22 ⊖ a.m00 ⊖ a.m11) ⊗ num 2 in
          quaternion ((a.m02 ⊕ a.m20) ⊘ s) ((a.m12 ⊕ a.m21) ⊘ s) (quarter ⊗ s)
            ((a.m10 ⊖ a.m01) ⊘ s))

  -- cc_mat4f_rotateq
  abbrev pub rotation_of : Quaternion F → Mat4f F
  rotation_of q =
      let x2 = q.v.x ⊗ q.v.x in
      let y2 = q.v.y ⊗ q.v.y in
      let z2 = q.v.z ⊗ q.v.z in
      let xy = q.v.x ⊗ q.v.y in
      let xz = q.v.x ⊗ q.v.z in
      let yz = q.v.y ⊗ q.v.z in
      let xw = q.v.x ⊗ q.s in
      let yw = q.v.y ⊗ q.s in
      let zw = q.v.z ⊗ q.s in
      mat4f (num 1 ⊖ num 2 ⊗ (y2 ⊕ z2)) (num 2 ⊗ (xy ⊕ zw)) (num 2 ⊗ (xz ⊖ yw)) (num 0)
        (num 2 ⊗ (xy ⊖ zw)) (num 1 ⊖ num 2 ⊗ (x2 ⊕ z2)) (num 2 ⊗ (yz ⊕ xw)) (num 0)
        (num 2 ⊗ (xz ⊕ yw)) (num 2 ⊗ (yz ⊖ xw)) (num 1 ⊖ num 2 ⊗ (x2 ⊕ y2)) (num 0) (num 0) (num 0)
        (num 0) (num 1)

  unfoldable pub mat4f_rotateq : Mat4f F → Bool → Quaternion F → Mat4f F
  mat4f_rotateq self load q = load_or_mulm load self (rotation_of q)

  muls-muls_copy :
      ((x y : F) → x ⊗ y ≡ y ⊗ x) → (v : Vec4f F) (s : F) → vec4f_muls v s ≡ vec4f_muls_copy v s
  unfolding vec4f_muls vec4f_muls_copy
  muls-muls_copy comm v s = λ i. vec4f (comm v.x s i) (comm v.y s i) (comm v.z s i) (comm v.w s i)

  -- Where the multiplication commutes, as that of floating-point numbers does, cc_quaternion_rotateq
  -- leaves in its quaternion what cc_quaternion_rotateq_copy writes to the copy.
  pub rotateq-rotateq_copy :
      ((x y : F) → x ⊗ y ≡ y ⊗ x) → (a q : Quaternion F) → rotateq a q ≡ rotateq_copy a q
  unfolding rotateq rotateq_copy normalize normalize_copy vec4f_normalize vec4f_normalize_copy
  rotateq-rotateq_copy comm a q = ap of_vec4f (sym (muls-muls_copy comm (to_vec4f (product a q)) _))
