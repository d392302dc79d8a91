-- ===== src/Processor.antt =====
-- internal/processor/image.go: decoding, scaling and encoding an upload. The decoders, the scaler and
-- the encoder are those of image/jpeg, image/png, image and golang.org/x/image: the parameter `Codec`.
pub mod Sizes
pub mod Outcome
use avatars.Prelude.{
  ℕ, ◌+◌, ◌*◌, ◌/◌, String, Bool, true, false, ◌&&◌, ◌||◌, ◌==◌, List, none, some, ltb, leb, eqb,
  length, get_elem?, Failure, other, wrap, Result, ok, err, if◌then◌else◌,
}
use Prim.Native.String as Str
use avatars.Handler.{Bytes}

pub record Codec : Type 1 where
  pub Image : Type 0
  -- Bounds().Dx() and Bounds().Dy()
  pub width : Image → ℕ
  pub height : Image → ℕ
  pub decode_jpeg : Bytes → Result Image
  pub decode_png : Bytes → Result Image
  -- image.Decode: the format's name and the image
  pub decode : Bytes → Result (String × Image)
  -- CatmullRom.Scale into image.NewRGBA(image.Rect(0, 0, w, h))
  pub scale : ℕ → ℕ → Image → Image
  pub png_encode : Image → Result Bytes

abbrev pub max_original_size : ℕ
max_original_size = 512

abbrev pub thumb_size : ℕ
thumb_size = 128

abbrev pub max_dimension : ℕ
max_dimension = 4096

pub record ProcessedImage : Type 0 where
  pub original_png : Bytes
  pub thumbnail_png : Bytes
  pub width : ℕ
  pub height : ℕ
  pub content_type : String
  pub size_bytes : ℕ

at_least_one : ℕ → ℕ
at_least_one n = if ltb n 1 then 1 else n

-- The width and height that resizeImage scales to.
unfoldable pub scaled_size : ℕ → ℕ → ℕ → ℕ × ℕ
unfolding at_least_one
scaled_size max_size width height =
    if leb height width
    then (max_size, at_least_one (height * max_size / width))
    else (at_least_one (width * max_size / height), max_size)

-- data[i] == b; the callers have tested the length
byte_is : Bytes → ℕ → ℕ → Bool
byte_is content i b = elim (get_elem? content i) [ none ↦ false | some x ↦ eqb x b ]

unfoldable pub is_jpeg : Bytes → Bool
unfolding byte_is
is_jpeg content =
    leb 3 (length content)
    && (byte_is content 0 0xff && (byte_is content 1 0xd8 && byte_is content 2 0xff))

unfoldable pub is_png : Bytes → Bool
unfolding byte_is
is_png content =
    leb 8 (length content)
    && (byte_is content 0 0x89
        && (byte_is content 1 0x50 && (byte_is content 2 0x4e && byte_is content 3 0x47)))

-- `if err != nil { return nil, err }`, and what follows it
infixl 1 ◌>>=◌
abbrev pub ◌>>=◌ {ℓ κ} : {B : Type ℓ} {A : Type κ} (m : Result A) (next : A → Result B) → Result B
err failure >>= next = err failure
ok value >>= next = next value

module _ (c : Codec) where
  open c use {Image, decode_jpeg, decode_png, decode, scale, png_encode}

  labelled : String → Result Image → Result (String × Image)
  labelled content_type (ok img) = ok (content_type, img)
  labelled content_type (err e) = err e

  known_format : String → Image → Result (String × Image)
  known_format format img =
      if format == "jpeg" || format == "png" || format == "webp"
      then ok (Str.◌++◌ "image/" format, img)
      else err (other (Str.◌++◌ "unsupported image format: " format))

  sniffed : Result (String × Image) → Result (String × Image)
  sniffed (err _) = err (other "unsupported or invalid image format")
  sniffed (ok (format, img)) = known_format format img

  unfoldable pub decode_image : Bytes → Result (String × Image)
  unfolding is_jpeg is_png labelled known_format sniffed
  decode_image content =
      if is_jpeg content
      then labelled "image/jpeg" (decode_jpeg content)
      else if is_png content
      then labelled "image/png" (decode_png content)
      else sniffed (decode content)

  unfoldable pub resize_image : ℕ → Image → Image
  unfolding scaled_size
  resize_image max_size src =
      let w = c.width src in
      let h = c.height src in
      if leb w max_size && leb h max_size
      then src
      else (let (new_w, new_h) = scaled_size max_size w h in scale new_w new_h src)

  encoded : Result Bytes → Result Bytes
  encoded (ok content) = ok content
  encoded (err e) = err (wrap "encode png" e)

  unfoldable pub encode_png : Image → Result Bytes
  unfolding encoded
  encode_png img = encoded (png_encode img)

  -- The tests of the decoded image's bounds.
  unfoldable pub check_size : Image → Result Image
  check_size img =
      if ltb max_dimension (c.width img) || ltb max_dimension (c.height img)
      then err (other "image dimensions exceed maximum 4096")
      else if ltb (c.width img) 1 || ltb (c.height img) 1
      then err (other "invalid image dimensions")
      else ok img

  -- What Process does with a decoded image.
  unfoldable pub process_decoded : String → Image → Result ProcessedImage
  process_decoded content_type decoded = do
    img ← check_size decoded
    let original = resize_image max_original_size img
    original_png ← encode_png original
    thumbnail_png ← encode_png (resize_image thumb_size img)
    ok (record {
      original_png = original_png;
      thumbnail_png = thumbnail_png;
      width = c.width original;
      height = c.height original;
      content_type = content_type;
      size_bytes = length original_png;
    })

  -- Process; its reader is over bytes in memory, so reading it does not fail.
  unfoldable pub process : Bytes → Result ProcessedImage
  unfolding process_decoded
  process content =
      if eqb (length content) 0
      then err (other "empty image")
      else (decode_image content >>= λ (content_type, img). process_decoded content_type img)
