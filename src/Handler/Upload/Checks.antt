-- ===== src/Handler/Upload/Checks.antt =====
-- Which requests UploadAvatar accepts.
use avatars.Prelude.{
  ℕ, zero, suc, ◌+◌, ◌^◌, ◌≤◌, ◌<◌, ◌≡◌, ◌≢◌, ◌↔◌, ◌⊎◌, to_lower, ext, false, refl, ap, String,
  true, [], ◌∷◌, arith, eq_iff, length, take, trim_space, is_space, IsAll, trim_space-eq-nil_iff,
  lt→ltb,
}
use avatars.Handler.{Bytes}
use avatars.Handler.Files.{allowed_extension}
use avatars.Handler.Upload.{
  UploadRequest, Form, accepted, file, malformed, no_file, unreadable, not_multipart, is_too_large,
  upload_checks, file_checks, form_checks, body_limit, file_limit,
}

-- .jpg, .jpeg, .png or .webp, in any case
abbrev pub IsImageName : String → Type 0
IsImageName filename =
    let e = to_lower (ext filename) in (e ≡ ".jpg") ⊎ (e ≡ ".jpeg") ⊎ (e ≡ ".png") ⊎ (e ≡ ".webp")

allowed_extension-IsImageName :
    (filename : String) → (allowed_extension filename ≡ true) ↔ IsImageName filename
unfolding allowed_extension
allowed_extension-IsImageName filename =
    let e = to_lower (ext filename) in
    ground (arith, eq_iff e ".jpg", eq_iff e ".jpeg", eq_iff e ".png", eq_iff e ".webp")

-- What the README asks of an upload, and what is kept of it.
pub record IsAcceptable (max_upload : ℕ) (r : UploadRequest) (user_id filename : String)
    (content : Bytes) : Type 0 where
  pub named : ¬ IsAll is_space r.user_id
  pub trimmed : user_id ≡ trim_space r.user_id
  pub fits : r.body_read ≤ max_upload + 1024
  pub form : r.form ≡ file filename content
  pub full : 1 ≤ length content
  pub small : length content ≤ max_upload
  pub image : IsImageName filename

take_short : (n : ℕ) (xs : Bytes) → length xs ≤ n → take (suc n) xs ≡ xs
take_short n [] h = refl
take_short zero (x ∷ xs) h = absurd (omega arith)
take_short (suc n) (x ∷ xs) h = ap (λ ys. x ∷ ys) (take_short n xs (omega arith))

take_all : (n : ℕ) (xs : Bytes) → length (take (suc n) xs) ≤ n → take (suc n) xs ≡ xs
take_all n [] h = refl
take_all zero (x ∷ xs) h = absurd (omega arith)
take_all (suc n) (x ∷ xs) h = ap (λ ys. x ∷ ys) (take_all n xs (omega arith))

module _ (max_upload : ℕ) (in_range : max_upload + 1024 < 2 ^ 63) where
  limits : (body_limit max_upload ≡ max_upload + 1024) × (file_limit max_upload ≡ suc max_upload)
  unfolding body_limit file_limit
  limits = (
    ground (arith, lt→ltb (max_upload + 1024) (2 ^ 63) in_range),
    ground (arith, lt→ltb (max_upload + 1) (2 ^ 63) (omega arith)),
  )

  file_checks_iff :
      (user filename : String) (content : Bytes) (u f : String) (d : Bytes)
      → (file_checks max_upload user filename content ≡ accepted u f d) ↔ (
          (u ≡ user)
          × (f ≡ filename)
          × (d ≡ content)
          × (1 ≤ length content)
          × (length content ≤ max_upload)
          × (allowed_extension filename ≡ true))
  unfolding file_checks
  file_checks_iff user filename content u f d =
      ground (arith, limits.1, take_short max_upload content, take_all max_upload content)

  form_checks_iff :
      (user : String) (form : Form) (u f : String) (d : Bytes)
      → (form_checks max_upload user form ≡ accepted u f d) ↔ (
          (u ≡ user)
          × (form ≡ file f d)
          × (1 ≤ length d)
          × (length d ≤ max_upload)
          × (allowed_extension f ≡ true))
  unfolding form_checks
  form_checks_iff user not_multipart u f d = ground arith
  form_checks_iff user malformed u f d = ground arith
  form_checks_iff user no_file u f d = ground arith
  form_checks_iff user unreadable u f d = ground arith
  form_checks_iff user (file filename content) u f d =
      ground (arith, file_checks_iff user filename content u f d)

  -- No form but a multipart one gets past both tests.
  split_form :
      (user : String) (form : Form) (read : ℕ) (u f : String) (d : Bytes)
      → ((is_too_large form (max_upload + 1024) read ≡ false)
          × (form_checks max_upload user form ≡ accepted u f d))
        ↔ ((read ≤ max_upload + 1024) × (form_checks max_upload user form ≡ accepted u f d))
  unfolding is_too_large form_checks
  split_form user not_multipart read u f d = ground arith
  split_form user malformed read u f d = ground arith
  split_form user no_file read u f d = ground arith
  split_form user unreadable read u f d = ground arith
  split_form user (file filename content) read u f d = ground arith

  split :
      (r : UploadRequest) (u f : String) (d : Bytes)
      → (upload_checks max_upload r ≡ accepted u f d) ↔ (
          (trim_space r.user_id ≢ "")
          × (r.body_read ≤ max_upload + 1024)
          × (form_checks max_upload (trim_space r.user_id) r.form ≡ accepted u f d))
  unfolding upload_checks
  split r u f d = ground (
    arith,
    limits.0,
    eq_iff (trim_space r.user_id) "",
    split_form (trim_space r.user_id) r.form r.body_read u f d,
  )

  -- While the limit is far from the largest int64, a request is accepted exactly when its user id is
  -- not blank, no more than the limit and 1024 bytes of its body are read, and its form has a file
  -- of 1 to the limit's bytes whose name ends in .jpg, .jpeg, .png or .webp, in any case; then the trimmed user id and the
  -- whole file are kept.
  pub upload_checks-accepted_iff :
      (r : UploadRequest) (u f : String) (d : Bytes)
      → (upload_checks max_upload r ≡ accepted u f d) ↔ IsAcceptable max_upload r u f d
  upload_checks-accepted_iff r u f d = (
    λ e.
        let (nonblank, fits, g) = (split r u f d).0 e in
        let (trimmed, form, full, small, image) =
          (form_checks_iff (trim_space r.user_id) r.form u f d).0 g in
        record {
          named = λ blank. nonblank ((trim_space-eq-nil_iff r.user_id).1 blank);
          trimmed = trimmed;
          fits = fits;
          form = form;
          full = full;
          small = small;
          image = (allowed_extension-IsImageName f).0 image;
        },
    λ a. (split r u f d).1 (
      λ empty. a.named ((trim_space-eq-nil_iff r.user_id).0 empty),
      a.fits,
      (form_checks_iff (trim_space r.user_id) r.form u f d).1
          (a.trimmed, a.form, a.full, a.small, (allowed_extension-IsImageName f).1 a.image),
    ),
  )
