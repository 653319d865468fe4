-- ===== src/Math/Geometry.antt =====
-- math/cc_sphere.c, math/cc_plane.c, math/cc_fplane.c and math/cc_ray3f.c: spheres, planes, the six planes
-- of a view, and rays.
use libcc.Base.{
  ℕ, ◌≡◌, Bool, true, false, Bool-cases, inl, inr, ◌||◌, if◌then◌else◌, Option, none, some,
}
use libcc.Math.{Scalars, ◌⊕◌, ◌⊖◌, ◌⊗◌, ◌⊘◌, num}
use libcc.Math.Vec.{
  Vec3f, vec3f, vec3f_mag, vec3f_addv, vec3f_subv, vec3f_muls_copy, vec3f_dot, vec3f_normalize,
}

-- cc_sphere_t, cc_plane_t and cc_ray3f_t
pub record Sphere (F : Type 0) : Type 0 where
  pub c : Vec3f F
  pub r : F

pub record Plane (F : Type 0) : Type 0 where
  pub n : Vec3f F
  pub d : F

pub record Ray3f (F : Type 0) : Type 0 where
  pub p : Vec3f F
  pub v : Vec3f F

-- cc_fplane_t
pub record Fplane (F : Type 0) : Type 0 where
  pub near : Plane F
  pub farx : Plane F
  pub left : Plane F
  pub right : Plane F
  pub top : Plane F
  pub bottom : Plane F

module _ {F : Type 0} ⦃f : Scalars F⦄ where
  unfoldable pub plane_distance : Plane F → Vec3f F → F
  plane_distance self p = vec3f_dot self.n (vec3f_subv p (vec3f_muls_copy self.n self.d))

  unfoldable pub plane_clipsphere : Plane F → Sphere F → Bool
  unfolding plane_distance
  plane_clipsphere self s = f.gt (num 0) (s.r ⊕ plane_distance self s.c)

  unfoldable pub fplane_clipsphere : Fplane F → Sphere F → Bool
  unfolding plane_clipsphere
  fplane_clipsphere self s =
      plane_clipsphere self.near s
      || plane_clipsphere self.farx s
      || plane_clipsphere self.left s
      || plane_clipsphere self.right s
      || plane_clipsphere self.top s
      || plane_clipsphere self.bottom s

  abbrev pub is_behind : Plane F → Vec3f F → Bool
  is_behind plane pt = f.gt (num 0) (plane_distance plane pt)

  unfoldable pub fplane_clippoint : Fplane F → Vec3f F → Bool
  unfolding plane_distance
  fplane_clippoint self pt =
      is_behind self.near pt
      || is_behind self.farx pt
      || is_behind self.left pt
      || is_behind self.right pt
      || is_behind self.top pt
      || is_behind self.bottom pt

  -- cc_ray3f_load
  unfoldable pub ray3f : (px py pz vx vy vz : F) → Ray3f F
  ray3f px py pz vx vy vz = record { p = vec3f px py pz; v = vec3f_normalize (vec3f vx vy vz) }

  unfoldable pub hitsphere : Ray3f F → Sphere F → Bool
  hitsphere self s =
      let v = vec3f_subv s.c self.p in
      let t = vec3f_dot self.v v in
      if f.le (vec3f_mag v) s.r
      then true
      else if f.gt (num 0) t
      then false
      else f.gt s.r (vec3f_mag (vec3f_subv s.c (vec3f_addv (vec3f_muls_copy self.v t) self.p)))

  -- cc_ray3f_intersect from the nearest intersection on: the result, and the two distances, which are
  -- left as they are where it is 0.
  abbrev pub forward : (t1 t2 : F) → ℕ × Option (F × F)
  forward t1 t2 =
      if f.gt (num 0) t1
      then (if f.gt (num 0) t2 then (0, none) else (1, some (num 0, t2)))
      else (2, some (t1, t2))

  abbrev pub crossings : (discriminant t1 t2 : F) → ℕ × Option (F × F)
  crossings discriminant t1 t2 =
      if f.gt (num 0) discriminant
      then (0, none)
      else if f.gt t1 t2
      then forward t2 t1
      else forward t1 t2

  unfoldable pub intersect : Ray3f F → Sphere F → ℕ × Option (F × F)
  intersect ray sphere =
      let pc = vec3f (ray.p.x ⊖ sphere.c.x) (ray.p.y ⊖ sphere.c.y) (ray.p.z ⊖ sphere.c.z) in
      let a = ray.v.x ⊗ ray.v.x ⊕ ray.v.y ⊗ ray.v.y ⊕ ray.v.z ⊗ ray.v.z in
      let b = num 2 ⊗ (pc.x ⊗ ray.v.x ⊕ pc.y ⊗ ray.v.y ⊕ pc.z ⊗ ray.v.z) in
      let c = pc.x ⊗ pc.x ⊕ pc.y ⊗ pc.y ⊕ pc.z ⊗ pc.z ⊖ sphere.r ⊗ sphere.r in
      let discriminant = b ⊗ b ⊖ num 4 ⊗ a ⊗ c in
      crossings discriminant ((f.neg b ⊖ f.sqrt discriminant) ⊘ (num 2 ⊗ a))
        ((f.neg b ⊕ f.sqrt discriminant) ⊘ (num 2 ⊗ a))

  unfoldable pub getpoint : Ray3f F → F → Vec3f F
  getpoint self s =
      vec3f (self.p.x ⊕ s ⊗ self.v.x) (self.p.y ⊕ s ⊗ self.v.y) (self.p.z ⊕ s ⊗ self.v.z)

  -- How cc_ray3f_intersect ends: without an intersection, or with two distances in order, the first not
  -- negative.
  pub data Crossed : ℕ × Option (F × F) → Type 0 where
    misses : Crossed (0, none)
    inside : {far : F} → f.gt (num 0) far ≡ false → Crossed (1, some (num 0, far))
    outside :
        {near far : F}
        → f.gt (num 0) near ≡ false
        → f.gt near far ≡ false
        → Crossed (2, some (near, far))

  forward-Crossed : (t1 t2 : F) → f.gt t1 t2 ≡ false → Crossed (forward t1 t2)
  forward-Crossed t1 t2 e = elim (Bool-cases (f.gt (num 0) t1)) [
    | inl before ↦ elim (Bool-cases (f.gt (num 0) t2)) [
      | inl before' ↦ rw (before, before') misses
      | inr ahead' ↦ rw (before, ahead') (inside ahead')
    ]
    | inr ahead ↦ rw ahead (outside ahead e)
  ]

  crossings-Crossed :
      ((a b : F) → f.gt a b ≡ true → f.gt b a ≡ false)
      → (discriminant t1 t2 : F) → Crossed (crossings discriminant t1 t2)
  crossings-Crossed asym discriminant t1 t2 = elim (Bool-cases (f.gt (num 0) discriminant)) [
    | inl none_there ↦ rw none_there misses
    | inr there ↦ elim (Bool-cases (f.gt t1 t2)) [
      | inl swapped ↦ rw (there, swapped) (forward-Crossed t2 t1 (asym t1 t2 swapped))
      | inr ordered ↦ rw (there, ordered) (forward-Crossed t1 t2 ordered)
    ]
  ]

  -- Where of two numbers at most one is greater than the other, as with floating-point numbers,
  -- cc_ray3f_intersect returns 0, or 1 and the distances 0 and one that is not negative, or 2 and two
  -- distances of which the first is neither negative nor greater than the second.
  pub intersect-Crossed :
      ((a b : F) → f.gt a b ≡ true → f.gt b a ≡ false)
      → (ray : Ray3f F) (sphere : Sphere F) → Crossed (intersect ray sphere)
  unfolding intersect
  intersect-Crossed asym ray sphere = crossings-Crossed asym _ _ _
