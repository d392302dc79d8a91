-- ===== src/Processor/Sizes.antt =====
-- The sizes of scaled images.
use native.Mathlib.Nat.{div-le_of_le-mul}
use avatars.Prelude.{
  ℕ, ◌*◌, ◌/◌, ◌≤◌, ◌<◌, ◌≡◌, ◌⊎◌, inl, inr, false, arith, leb, leb→le, le→leb, Bool-cases,
}
use avatars.Processor.{Codec, scaled_size, resize_image}

-- a * m / b is at most m where a ≤ b.
div_le : (a b m : ℕ) → a ≤ b → a * m / b ≤ m
div_le a b m h = div-le_of_le-mul b (grind arith)

-- a * m / b is at most a where m ≤ b.
div_le_left : (a b m : ℕ) → m ≤ b → a * m / b ≤ a
div_le_left a b m h = div-le_of_le-mul b (grind arith)

scaled_size_bounds :
    (max_size width height : ℕ)
    → 0 < max_size
    → let s = scaled_size max_size width height in
      (1 ≤ s.0) × (s.0 ≤ max_size) × (1 ≤ s.1) × (s.1 ≤ max_size)
unfolding scaled_size
scaled_size_bounds max_size width height m =
    ground (arith, div_le height width max_size, div_le width height max_size)

-- When a side is longer than `max_size`, scaling makes no side longer.
scaled_size_le :
    (max_size width height : ℕ)
    → 0 < width
    → 0 < height
    → (leb width max_size ≡ false) ⊎ (leb height max_size ≡ false)
    → let s = scaled_size max_size width height in (s.0 ≤ width) × (s.1 ≤ height)
unfolding scaled_size
scaled_size_le max_size width height w h long =
    ground (arith, div_le_left height width max_size, div_le_left width height max_size)

-- What golang.org/x/image says of its scaler: the image has the size of its rectangle.
pub record ScalesExactly (c : Codec) : Type 0 where
  pub width : (w h : ℕ) (img : c.Image) → c.width (c.scale w h img) ≡ w
  pub height : (w h : ℕ) (img : c.Image) → c.height (c.scale w h img) ≡ h

-- An image with sides fits a square.
pub record Fits (c : Codec) (side : ℕ) (img : c.Image) : Type 0 where
  pub wide : 1 ≤ c.width img
  pub narrow : c.width img ≤ side
  pub high : 1 ≤ c.height img
  pub low : c.height img ≤ side

-- The branches of resizeImage: what fits stays, and the rest is scaled.
module _ (c : Codec) (max_size : ℕ) (img : c.Image) where
  abbrev IsSmall : Type 0
  IsSmall = (c.width img ≤ max_size) × (c.height img ≤ max_size)

  abbrev new_size : ℕ × ℕ
  new_size = scaled_size max_size (c.width img) (c.height img)

  resize_image-cases :
      (IsSmall × (resize_image c max_size img ≡ img))
      ⊎ (((leb (c.width img) max_size ≡ false) ⊎ (leb (c.height img) max_size ≡ false))
          × (resize_image c max_size img ≡ c.scale new_size.0 new_size.1 img))
  unfolding resize_image
  resize_image-cases = elim (Bool-cases (leb (c.width img) max_size)) [
    | inr wide ↦ inr (inl wide, rw wide)
    | inl narrow ↦ elim (Bool-cases (leb (c.height img) max_size)) [
      | inr high ↦ inr (inr high, rw (narrow, high))
      | inl low ↦ inl ((leb→le _ _ narrow, leb→le _ _ low), rw (narrow, low))
    ]
  ]

module _ (c : Codec) (exact : ScalesExactly c) (max_size : ℕ) (img : c.Image) (m : 0 < max_size)
    (w : 1 ≤ c.width img) (h : 1 ≤ c.height img) where
  -- Where the scaler gives images of the size that it is asked for, an image with sides is resized
  -- to one with sides that fits the square of `max_size`, and no side of it is longer than before.
  pub resize_image-Fits :
      Fits c max_size (resize_image c max_size img)
      × (c.width (resize_image c max_size img) ≤ c.width img)
      × (c.height (resize_image c max_size img) ≤ c.height img)
  resize_image-Fits = elim (resize_image-cases c max_size img) [
    | inl (small, same) ↦ rw same (ground arith)
    | inr (long, scaled) ↦ rw scaled (
        ground (
          arith,
          exact.width (new_size c max_size img).0 (new_size c max_size img).1 img,
          exact.height (new_size c max_size img).0 (new_size c max_size img).1 img,
          scaled_size_bounds max_size (c.width img) (c.height img) m,
          scaled_size_le max_size (c.width img) (c.height img) w h long,
        ))
  ]

-- An image that fits is not touched.
resize_image_same :
    (c : Codec) (max_size : ℕ) (img : c.Image)
    → Fits c max_size img
    → resize_image c max_size img ≡ img
unfolding resize_image
resize_image_same c max_size img f = rw (le→leb _ _ f.narrow, le→leb _ _ f.low)

-- Where the scaler gives images of the size that it is asked for, resizing an image with sides
-- twice is resizing it once.
pub resize_image_idem :
    (c : Codec)
    → ScalesExactly c
    → (max_size : ℕ) (img : c.Image) → 0 < max_size
    → 1 ≤ c.width img
    → 1 ≤ c.height img
    → resize_image c max_size (resize_image c max_size img) ≡ resize_image c max_size img
resize_image_idem c exact max_size img m w h =
    resize_image_same c max_size (resize_image c max_size img)
      (resize_image-Fits c exact max_size img m w h).0
