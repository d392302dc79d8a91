-- ===== src/Tests/Images.antt =====
-- Examples for the processing of images.
use avatars.Prelude.{ℕ, [], ◌∷◌, ◌≤◌, ◌≡◌, refl, ok}
use avatars.Handler.Files.{IsImageType}
use avatars.Processor.{
  ProcessedImage, max_original_size, resize_image, process, decode_image, check_size, encode_png,
  scaled_size,
}
use avatars.Processor.Sizes.{ScalesExactly}
use avatars.Processor.Outcome.{process_bounds}
use avatars.Tests.Env.{codec, jpeg_file}

pub exact : ScalesExactly codec
exact = record { width = λ w h img. refl; height = λ w h img. refl }

abbrev wide_image : ℕ × ℕ
wide_image = (1024, 600)

abbrev processed : ProcessedImage
processed = record {
  original_png = 512 ∷ 300 ∷ [];
  thumbnail_png = 128 ∷ 75 ∷ [];
  width = 512;
  height = 300;
  content_type = "image/jpeg";
  size_bytes = 2;
}

is_processed : process codec jpeg_file ≡ ok processed
unfolding process decode_image check_size encode_png resize_image scaled_size
is_processed = refl

process_bounds_example :
    (1 ≤ processed.width)
    × (processed.width ≤ max_original_size)
    × (1 ≤ processed.height)
    × (processed.height ≤ max_original_size)
    × IsImageType processed.content_type
process_bounds_example = process_bounds codec jpeg_file processed exact is_processed
