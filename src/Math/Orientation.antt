-- ===== src/Math/Orientation.antt =====
-- math/cc_orientation.h and math/cc_orientation.c: the orientation of a device by its sensors.
pub mod First
use libcc.Base.{ℕ, Bool, true, false, ◌==◌, ◌&&◌, ◌||◌, not, if◌then◌else◌}
use libcc.Int.{ℤ, pos, negsuc}
use libcc.Math.{Scalars, ◌⊕◌, ◌⊖◌, ◌⊗◌, ◌⊘◌, num}
use libcc.Math.Vec.{Vec3f, vec3f, vec3f_normalize, vec3f_normalize_copy, vec3f_cross}
use libcc.Math.Mat4f.{Mat4f, mat4f, mulm}
use libcc.Math.Quaternion.{
  Quaternion, quaternion, loadaxisangle, rotateq, slerp, compare, of_mat4f, mat4f_rotateq,
  rotation_of,
}

-- cc_orientation_t; `m_north` is whether it is CC_ORIENTATION_TRUE.
pub record Orientation (F : Type 0) : Type 0 where
  pub a_ts : F
  pub a_ax : F
  pub a_ay : F
  pub a_az : F
  pub a_rotation : ℤ
  pub m_north : Bool
  pub m_ts : F
  pub m_mx : F
  pub m_my : F
  pub m_mz : F
  pub m_gfx : F
  pub m_gfy : F
  pub m_gfz : F
  pub g_ts : F
  pub g_ax : F
  pub g_ay : F
  pub g_az : F
  pub q : Quaternion F

abbrev pub is_same : ℤ → ℤ → Bool
is_same (pos a) (pos b) = a == b
is_same (negsuc a) (negsuc b) = a == b
is_same _ _ = false

module _ {F : Type 0} ⦃f : Scalars F⦄ where
  abbrev pub no_rotation : Quaternion F
  no_rotation = quaternion (num 0) (num 0) (num 0) (num 1)

  -- The literal 9.8f is the fraction.
  unfoldable pub reset : Orientation F → Orientation F
  reset self = record self {
    a_ts = num 0;
    a_ax = num 0;
    a_ay = num 0;
    a_az = num 98 ⊘ num 10;
    a_rotation = pos 0;
    m_ts = num 0;
    m_mx = num 0;
    m_my = num 1;
    m_mz = num 0;
    m_gfx = num 0;
    m_gfy = num 1;
    m_gfz = num 0;
    g_ts = num 0;
    g_ax = num 0;
    g_ay = num 0;
    g_az = num 0;
    q = no_rotation;
  }

  -- The matrix with these rows, and the one with these columns.
  abbrev pub of_rows : (x y z : Vec3f F) → Mat4f F
  of_rows x y z =
      mat4f x.x y.x z.x (num 0) x.y y.y z.y (num 0) x.z y.z z.z (num 0) (num 0) (num 0) (num 0)
        (num 1)

  abbrev pub of_columns : (x y z : Vec3f F) → Mat4f F
  of_columns x y z =
      mat4f x.x x.y x.z (num 0) y.x y.y y.z (num 0) z.x z.y z.z (num 0) (num 0) (num 0) (num 0)
        (num 1)

  -- cc_orientation_update up to the matrix `m`.
  unfoldable pub measured : Orientation F → Mat4f F
  measured self =
      let z = vec3f_normalize_copy (vec3f self.a_ax self.a_ay self.a_az) in
      let x = vec3f_normalize (vec3f_cross (vec3f self.m_mx self.m_my self.m_mz) z) in
      let y = vec3f_normalize (vec3f_cross z x) in
      if self.m_north
      then (let r = of_rows x y z in
          let z = vec3f (num 0) (num 0) (num 1) in
          let x = vec3f_normalize (vec3f_cross (vec3f self.m_gfx self.m_gfy self.m_gfz) z) in
          let y = vec3f_normalize (vec3f_cross z x) in mulm (of_columns x y z) r)
      else of_rows x y z

  -- The literals 0.001f and 0.004f are the fractions.
  unfoldable pub filtered : Orientation F → Quaternion F → Quaternion F
  filtered self q =
      let err = compare q self.q in
      let t = num 1 ⊘ num 1000 ⊕ err ⊗ err in
      slerp self.q q (if f.gt t (num 4 ⊘ num 1000) then num 4 ⊘ num 1000 else t)

  unfoldable pub update : Orientation F → Bool → Orientation F
  update self slerps =
      if f.eq self.a_ts (num 0) || f.eq self.m_ts (num 0)
      then self
      else (let q = of_mat4f (measured self) in
          record self { q = if slerps then filtered self q else q })

  abbrev pub accelerate : Orientation F → (ts ax ay az : F) → ℤ → Orientation F
  accelerate self ts ax ay az rotation =
      update (record self { a_ts = ts; a_ax = ax; a_ay = ay; a_az = az; a_rotation = rotation })
        (not (f.eq self.a_ts (num 0) && f.gt self.m_ts (num 0)))

  unfoldable pub accelerometer : Orientation F → (ts ax ay az : F) → ℤ → Orientation F
  unfolding update
  accelerometer self ts ax ay az rotation =
      if is_same rotation self.a_rotation
      then accelerate self ts ax ay az rotation
      else accelerate (reset self) ts ax ay az rotation

  unfoldable pub magnetometer : Orientation F → (ts mx my mz gfx gfy gfz : F) → Orientation F
  magnetometer self ts mx my mz gfx gfy gfz =
      update
        (record self {
          m_ts = ts;
          m_mx = mx;
          m_my = my;
          m_mz = mz;
          m_gfx = gfx;
          m_gfy = gfy;
          m_gfz = gfz;
        })
        (not (f.eq self.m_ts (num 0) && f.gt self.a_ts (num 0)))

  unfoldable pub gyroscope : Orientation F → (ts ax ay az : F) → Orientation F
  gyroscope self ts ax ay az =
      let dt = ts ⊖ self.g_ts in
      let mag = f.sqrt (ax ⊗ ax ⊕ ay ⊗ ay ⊕ az ⊗ az) in
      let angle = (num 180 ⊘ f.pi) ⊗ mag ⊗ dt in
      record self {
        g_ts = ts;
        g_ax = ax;
        g_ay = ay;
        g_az = az;
        q =
            if f.gt self.a_ts (num 0) && f.gt self.m_ts (num 0) && f.gt self.g_ts (num 0)
            then rotateq self.q (loadaxisangle ax ay az angle)
            else self.q;
      }

  -- cc_orientation_mat4f
  abbrev pub orientation_mat4f : Orientation F → Mat4f F
  orientation_mat4f self = rotation_of self.q

  unfoldable pub vpn : Orientation F → Vec3f F
  vpn self = let m = orientation_mat4f self in vec3f (f.neg m.m02) (f.neg m.m12) (f.neg m.m22)
