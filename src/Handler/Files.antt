-- ===== src/Handler/Files.antt =====
-- internal/handler/handler.go: what the handlers read off a file's name and its first bytes.
use avatars.Prelude.{
  ℕ, String, ◌≡◌, ◌⊎◌, Bool, true, false, ◌&&◌, ◌||◌, ◌==◌, none, some, arith, eqb, leb, length,
  get_elem?, ext, to_lower, if◌then◌else◌,
}
use avatars.Handler.{Bytes}

unfoldable pub allowed_extension : String → Bool
allowed_extension filename =
    let e = to_lower (ext filename) in e == ".jpg" || e == ".jpeg" || e == ".png" || e == ".webp"

-- data[i] == b; the callers have tested the length
byte_is : Bytes → ℕ → ℕ → Bool
byte_is content i b = elim (get_elem? content i) [ none ↦ false | some x ↦ eqb x b ]

unfoldable pub detect_content_type : Bytes → String → String
unfolding byte_is
detect_content_type content filename =
    if leb 3 (length content) && (byte_is content 0 0xff && byte_is content 1 0xd8)
    then "image/jpeg"
    else if leb 8 (length content) && (byte_is content 0 0x89 && byte_is content 1 0x50)
    then "image/png"
    else (let e = to_lower (ext filename) in
        if e == ".jpg" || e == ".jpeg"
        then "image/jpeg"
        else if e == ".png"
        then "image/png"
        else if e == ".webp"
        then "image/webp"
        else "application/octet-stream")

-- The content types of the images that the program takes.
abbrev pub IsImageType : String → Type 0
IsImageType t = (t ≡ "image/jpeg") ⊎ (t ≡ "image/png") ⊎ (t ≡ "image/webp")

-- For a file name with an allowed extension, whatever the bytes, the detected content type is that of
-- a JPEG, PNG or WebP image.
pub detect_content_type-IsImageType :
    (content : Bytes) (filename : String)
    → allowed_extension filename ≡ true
    → IsImageType (detect_content_type content filename)
unfolding allowed_extension detect_content_type
detect_content_type-IsImageType content filename h = ground arith
