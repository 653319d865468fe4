-- ===== src/Math/Orientation/First.antt =====
-- math/cc_orientation.c: the samples of the sensors after a reset.
use libcc.Base.{◌≡◌, true, false, List, [], ◌∷◌}
use libcc.Int.{ℤ, pos}
use libcc.Math.{Scalars, num}
use libcc.Math.Orientation.{Orientation, no_rotation, accelerometer, magnetometer, gyroscope}

-- A sample of a sensor, with what its handler gets.
pub data Sample (F : Type 0) : Type 0 where
  accelerates : (ts ax ay az : F) (rotation : ℤ) → Sample F
  points : (ts mx my mz gfx gfy gfz : F) → Sample F
  turns : (ts ax ay az : F) → Sample F

module _ {F : Type 0} ⦃f : Scalars F⦄ where
  abbrev pub handle : Orientation F → Sample F → Orientation F
  handle self (accelerates ts ax ay az rotation) = accelerometer self ts ax ay az rotation
  handle self (points ts mx my mz gfx gfy gfz) = magnetometer self ts mx my mz gfx gfy gfz
  handle self (turns ts ax ay az) = gyroscope self ts ax ay az

  -- The samples one after the other.
  abbrev pub handle_all : Orientation F → List (Sample F) → Orientation F
  handle_all self [] = self
  handle_all self (s ∷ ss) = handle_all (handle self s) ss

  abbrev pub WithoutMagnetometer : List (Sample F) → Type 0
  WithoutMagnetometer [] = Unit {0}
  WithoutMagnetometer (points _ _ _ _ _ _ _ ∷ ss) = ⊥
  WithoutMagnetometer (_ ∷ ss) = WithoutMagnetometer ss

  abbrev pub WithoutAccelerometer : List (Sample F) → Type 0
  WithoutAccelerometer [] = Unit {0}
  WithoutAccelerometer (accelerates _ _ _ _ _ ∷ ss) = ⊥
  WithoutAccelerometer (_ ∷ ss) = WithoutAccelerometer ss

  -- A time that is greater than the 0 of a sensor without a sample.
  pub record IsTime (ts : F) : Type 0 where
    pub eq_zero : f.eq ts (num 0) ≡ false
    pub gt_zero : f.gt ts (num 0) ≡ true

  module _ (zero_eq : f.eq (num 0) (num 0) ≡ true) (zero_gt : f.gt (num 0) (num 0) ≡ false) where
    -- The magnetometer, or the accelerometer, has had no sample, and there is no rotation.
    abbrev NoMagnetometer : Orientation F → Type 0
    NoMagnetometer self = (self.m_ts ≡ num 0) × (self.q ≡ no_rotation)

    abbrev NoAccelerometer : Orientation F → Type 0
    NoAccelerometer self = (self.a_ts ≡ num 0) × (self.q ≡ no_rotation) × (self.a_rotation ≡ pos 0)

    -- The orientation with the fields of a sample.
    abbrev pub pointed : Orientation F → (ts x y z gfx gfy gfz : F) → Orientation F
    pointed self ts x y z gfx gfy gfz = record self {
      m_ts = ts;
      m_mx = x;
      m_my = y;
      m_mz = z;
      m_gfx = gfx;
      m_gfy = gfy;
      m_gfz = gfz;
    }

    abbrev pub accelerated : Orientation F → (ts x y z : F) → Orientation F
    accelerated self ts x y z = record self { a_ts = ts; a_ax = x; a_ay = y; a_az = z }
