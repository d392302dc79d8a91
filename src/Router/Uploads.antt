-- ===== src/Router/Uploads.antt =====
-- Which requests the routes of internal/handler/router.go lead to UploadAvatar.
use Prim.Native.String as Str
use avatars.Prelude.{
  String, Bool, true, false, List, [], ◌∷◌, ◌==◌, ◌≡◌, refl, sym, arith, if◌then◌else◌, eq_iff,
}
use text.Mathlib.TextPositions.{starts_with-append}
use text.Mathlib.TextLemmas.{append-nil, append_assoc}
use avatars.RateLimit.{is_avatar_upload_path}
use avatars.RateLimit.Middleware.{is_limited}
use avatars.Router.{to, upload, find_handler, segment_values, url_path}
use avatars.Router.Matching.{Place, at_avatar, at_health, at_ping, elsewhere, place}
use avatars.Router.Table.{find_handler-table, table}

joined :
    (u : String)
    → Str.◌++◌ "/"
        (Str.◌++◌ "api" (Str.◌++◌ "/" (Str.◌++◌ "avatars" (Str.◌++◌ "/" (Str.◌++◌ u "")))))
      ≡ Str.◌++◌ "/api/avatars/" u
joined u =
    rw
      (
        append-nil u,
        ← append_assoc "avatars" "/" u,
        ← append_assoc "/" "avatars/" u,
        ← append_assoc "api" "/avatars/" u,
        ← append_assoc "/" "api/avatars/" u,
      )
      refl

-- Of two values, one that is not "/" is the second.
kept_value :
    (b : Bool) (x u : String)
    → (if b then "/" else x) ≡ u
    → ((if b then "/" else x) == "/") ≡ false
    → x ≡ u
kept_value false x u value taken = value
kept_value true x u value taken = ground arith

-- The path behind an avatar's place, where a segment is the text of its value unless it is the empty one at the end.
pub url_path-at_avatar :
    (decode : String → String) (path : List String) (user_id : String)
    → place (segment_values decode path) ≡ at_avatar user_id
    → url_path decode path ≡ Str.◌++◌ "/api/avatars/" user_id
unfolding segment_values url_path
url_path-at_avatar decode [] u e = ground arith
url_path-at_avatar decode (a ∷ []) u e = ground arith
url_path-at_avatar decode (a ∷ b ∷ []) u e = ground arith
url_path-at_avatar decode (a ∷ b ∷ v ∷ []) u e =
    let value : (if v == "" then "/" else decode v) ≡ u = ground arith in
    let a_lit : decode a ≡ "api" = ground (arith, eq_iff "api" (decode a)) in
    let b_lit : decode b ≡ "avatars" = ground (arith, eq_iff "avatars" (decode b)) in
    let taken : ((if v == "" then "/" else decode v) == "/") ≡ false = ground arith in
    rw (a_lit, b_lit, kept_value (v == "") (decode v) u value taken) (joined u)
url_path-at_avatar decode (a ∷ b ∷ v ∷ w ∷ []) u e = ground arith
url_path-at_avatar decode (a ∷ b ∷ v ∷ w ∷ x ∷ rest) u e = ground arith

table-upload :
    (method : String) (here : Place) (values : List String)
    → table method here ≡ to upload values
    → (("POST" == method) ≡ true) × ((u : String) × (here ≡ at_avatar u))
table-upload method at_health values e = ground arith
table-upload method at_ping values e = ground arith
table-upload method elsewhere values e = ground arith
table-upload method (at_avatar u) values e = (ground arith, (u, refl))

-- What is routed to UploadAvatar is what the middleware limits.
pub find_handler-upload :
    (decode : String → String) (method : String) (path : List String) (values : List String)
    → find_handler decode method path ≡ to upload values
    → is_limited (record { method = method; path = url_path decode path }) ≡ true
unfolding is_limited is_avatar_upload_path
find_handler-upload decode method path values e =
    let found : table method (place (segment_values decode path)) ≡ to upload values =
      ground (arith, find_handler-table decode method path) in
    let (post, (u, here)) = table-upload method (place (segment_values decode path)) values found in
    let method_lit : method ≡ "POST" = sym ((eq_iff "POST" method).0 post) in
    rw (method_lit, url_path-at_avatar decode path u here) (starts_with-append "/api/avatars/" u)
