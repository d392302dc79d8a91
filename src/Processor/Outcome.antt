-- ===== src/Processor/Outcome.antt =====
-- What Process returns.
use avatars.Prelude.{
  String, ◌≤◌, ◌≡◌, inl, inr, refl, Bool-cases, arith, length, eqb, ◌==◌, eq_iff, Result, ok, err,
}
use avatars.Handler.{Bytes}
use avatars.Handler.Files.{IsImageType}
use avatars.Processor.{
  is_jpeg, is_png, labelled, sniffed, known_format, Codec, ProcessedImage, max_dimension,
  max_original_size, thumb_size, decode_image, check_size, encode_png, resize_image, process,
  process_decoded, ◌>>=◌,
}
use avatars.Processor.Sizes.{ScalesExactly, resize_image-Fits}

-- What it takes for `p` to be the processed form of `content`.
pub record IsProcessed (c : Codec) (content : Bytes) (p : ProcessedImage) : Type 0 where
  pub decoded : c.Image
  pub is_decoded : decode_image c content ≡ ok (p.content_type, decoded)
  pub wide : 1 ≤ c.width decoded
  pub narrow : c.width decoded ≤ max_dimension
  pub high : 1 ≤ c.height decoded
  pub low : c.height decoded ≤ max_dimension
  pub original : encode_png c (resize_image c max_original_size decoded) ≡ ok p.original_png
  pub thumbnail : encode_png c (resize_image c thumb_size decoded) ≡ ok p.thumbnail_png
  pub same_width : p.width ≡ c.width (resize_image c max_original_size decoded)
  pub same_height : p.height ≡ c.height (resize_image c max_original_size decoded)
  pub size : p.size_bytes ≡ length p.original_png

-- A chain that succeeds has a first step that does, and the rest succeeds on its value.
ran_through {ℓ κ} :
    {B : Type ℓ} {A : Type κ} (first : Result A) (next : A → Result B) {last : B}
    → (first >>= next) ≡ ok last
    → (middle : A) × (first ≡ ok middle) × (next middle ≡ ok last)
ran_through (err failure) next done = cc
ran_through (ok middle) next done = (middle, refl, done)

module _ (c : Codec) where
  check_size_inv :
      (img img' : c.Image)
      → check_size c img ≡ ok img'
      → (img ≡ img')
        × (1 ≤ c.width img)
        × (c.width img ≤ max_dimension)
        × (1 ≤ c.height img)
        × (c.height img ≤ max_dimension)
  unfolding check_size
  check_size_inv img img' h = ground arith

  process_decoded_inv :
      (content : Bytes) (content_type : String) (img : c.Image) (p : ProcessedImage)
      → decode_image c content ≡ ok (content_type, img)
      → process_decoded c content_type img ≡ ok p
      → IsProcessed c content p
  unfolding process_decoded
  process_decoded_inv content content_type img p d h =
      let (checked, size_ok, h1) = ran_through (check_size c img) _ h in
      let (same, wide, narrow, high, low) = check_size_inv img checked size_ok in
      let (original, original_ok, h2) =
        ran_through (encode_png c (resize_image c max_original_size checked)) _ h1 in
      let (thumb, thumb_ok, h3) =
        ran_through (encode_png c (resize_image c thumb_size checked)) _ h2 in
      record {
        decoded = checked;
        is_decoded = ground arith;
        wide = ground arith;
        narrow = ground arith;
        high = ground arith;
        low = ground arith;
        original = ground arith;
        thumbnail = ground arith;
        same_width = ground arith;
        same_height = ground arith;
        size = ground arith;
      }

  -- A result of Process is the processed form of its input: the decoded image has sides of 1 to 4096,
  -- the two PNGs are the encodings of it resized to 512 and to 128, and the sizes are those of the
  -- first.
  pub process-IsProcessed :
      (content : Bytes) (p : ProcessedImage) → process c content ≡ ok p → IsProcessed c content p
  unfolding process
  process-IsProcessed content p h = elim (Bool-cases (eqb (length content) 0)) [
    | inl empty ↦ absurd (cc (rw empty at h))
    | inr some ↦
        let ((content_type, img), d, q) = ran_through (decode_image c content) _ (rw some at h) in
        process_decoded_inv content content_type img p d q
  ]

  labelled-ok :
      (label : String) (r : Result c.Image) (t : String) (img : c.Image)
      → labelled c label r ≡ ok (t, img)
      → t ≡ label
  unfolding labelled
  labelled-ok label (ok img') t img h = cc
  labelled-ok label (err e) t img h = cc

  sniffed-IsImageType :
      (r : Result (String × c.Image)) (t : String) (img : c.Image)
      → sniffed c r ≡ ok (t, img)
      → IsImageType t
  unfolding sniffed known_format
  sniffed-IsImageType (err e) t img h = cc
  sniffed-IsImageType (ok (format, img')) t img h = elim (Bool-cases (format == "jpeg")) [
    | inl e ↦ let f = (eq_iff _ _).0 e in inl (cc (rw f at h))
    | inr e ↦ elim (Bool-cases (format == "png")) [
      | inl f ↦ let g = (eq_iff _ _).0 f in inr (inl (cc (rw g at h)))
      | inr f ↦ elim (Bool-cases (format == "webp")) [
        | inl k ↦ let g = (eq_iff _ _).0 k in inr (inr (cc (rw g at h)))
        | inr k ↦ absurd (cc (rw (e, f, k) at h))
      ]
    ]
  ]

  decode_image-IsImageType :
      (content : Bytes) (t : String) (img : c.Image)
      → decode_image c content ≡ ok (t, img)
      → IsImageType t
  unfolding decode_image
  decode_image-IsImageType content t img h = elim (Bool-cases (is_jpeg content)) [
    | inl jpeg ↦ inl (labelled-ok "image/jpeg" (c.decode_jpeg content) t img (rw jpeg at h))
    | inr no_jpeg ↦ elim (Bool-cases (is_png content)) [
      | inl png ↦
          inr (inl (labelled-ok "image/png" (c.decode_png content) t img (rw (no_jpeg, png) at h)))
      | inr no_png ↦ sniffed-IsImageType (c.decode content) t img (rw (no_jpeg, no_png) at h)
    ]
  ]

-- Where the scaler gives images of the size that it is asked for, a result of Process has a width and
-- a height of 1 to 512, and the content type of a JPEG, PNG or WebP image.
pub process_bounds :
    (c : Codec) (content : Bytes) (p : ProcessedImage)
    → ScalesExactly c
    → process c content ≡ ok p
    → (1 ≤ p.width)
      × (p.width ≤ max_original_size)
      × (1 ≤ p.height)
      × (p.height ≤ max_original_size)
      × IsImageType p.content_type
process_bounds c content p exact h =
    let q = process-IsProcessed c content p h in
    let (f, _, _) =
      resize_image-Fits c exact max_original_size q.decoded (omega arith) q.wide q.high in
    (
      rw (q.same_width) f.wide,
      rw (q.same_width) f.narrow,
      rw (q.same_height) f.high,
      rw (q.same_height) f.low,
      decode_image-IsImageType c content p.content_type q.decoded q.is_decoded,
    )
