-- ===== src/Router/Table.antt =====
-- The routes of internal/handler/router.go as a table: what each method gets at each place.
use avatars.Prelude.{
  String, Bool, true, false, ◌||◌, none, some, List, [], ◌∷◌, ◌==◌, if◌then◌else◌, ◌≡◌, refl, arith,
  eq_iff, Bool-cases, inl, inr, ◌≢◌,
}
use avatars.Router.{
  upload, delete, patterns, Match, match_method, has_methods, is_clean, segment_values, Found, to,
  moved, method_not_allowed, no_route, find_handler,
}
use avatars.Router.Matching.{
  Place, at_health, at_ping, elsewhere, at_avatar, place, page, match_path_nil, match-gets,
  match-avatar_pattern,
}

-- GET and HEAD get a page everywhere.
abbrev pub is_read : String → Bool
is_read method = "GET" == method || "HEAD" == method

abbrev write_route : String → Place → Found
write_route method at_health = method_not_allowed
write_route method at_ping = method_not_allowed
write_route method elsewhere = method_not_allowed
write_route method (at_avatar user_id) =
    if "POST" == method
    then to upload (user_id ∷ [])
    else if "DELETE" == method
    then to delete (user_id ∷ [])
    else method_not_allowed

abbrev pub table : String → Place → Found
table method here =
    if is_read method then to (page here).0 (page here).1 else write_route method here

-- The patterns of a method.
match_method-read :
    (method : String) (path : List String)
    → is_read method ≡ true
    → path ≢ []
    → match_method patterns method path ≡ some (page (place path))
unfolding match_method patterns
match_method-read method [] h nonempty = absurd (nonempty refl)
match_method-read method (seg ∷ path) h nonempty = elim (Bool-cases ("GET" == method)) [
  | inl e ↦ rw (← (eq_iff "GET" method).0 e) (ground (arith, match-gets seg path))
  | inr get_not ↦
      let head : method ≡ "HEAD" = ground (arith, eq_iff "HEAD" method) in
      rw head (ground (arith, match-gets seg path, match_path_nil (seg ∷ path)))
]

-- What a write finds, if anything.
abbrev written : String → Place → Match
written method here = elim (write_route method here) [
  | to route values ↦ some (route, values)
  | moved ↦ none
  | method_not_allowed ↦ none
  | no_route ↦ none
]

match_method-write :
    (method : String) (path : List String)
    → is_read method ≡ false
    → match_method patterns method path ≡ written method (place path)
unfolding match_method patterns
match_method-write method path h = elim (Bool-cases ("POST" == method)) [
  | inl e ↦
      rw (← (eq_iff "POST" method).0 e) (ground (arith, match-avatar_pattern "POST" upload path))
  | inr post_not ↦ elim (Bool-cases ("DELETE" == method)) [
    | inl e ↦
        rw (← (eq_iff "DELETE" method).0 e)
          (ground (arith, match-avatar_pattern "DELETE" delete path))
    | inr delete_not ↦
        ground (arith, match_path_nil path, eq_iff method "HEAD", eq_iff "HEAD" method)
  ]
]

-- GET is allowed everywhere.
has_methods-patterns : (path : List String) → has_methods patterns path ≡ true
unfolding has_methods patterns
has_methods-patterns [] = ground (arith, match-gets "/" [])
has_methods-patterns (seg ∷ path) = ground (arith, match-gets seg path)

segment_values-nonempty :
    (decode : String → String) (seg : String) (path : List String)
    → segment_values decode (seg ∷ path) ≢ []
unfolding segment_values
segment_values-nonempty decode seg [] = λ e. ground arith
segment_values-nonempty decode seg (next ∷ path) = λ e. ground arith

-- A path that ServeMux does not clean, which it never does for CONNECT.
abbrev pub is_kept : String → List String → Bool
is_kept method path = method == "CONNECT" || is_clean path

found_lem :
    (decode : String → String) (method : String) (path : List String)
    → is_kept method path ≡ true
    → find_handler decode method path ≡ table method (place (segment_values decode path))
unfolding find_handler segment_values is_clean
found_lem decode method [] kept =
    rw ((eq_iff method "CONNECT").0 (ground arith))
      (ground (arith, match_method-write "CONNECT" [] refl, has_methods-patterns []))
found_lem decode method (seg ∷ path) kept =
    let values = segment_values decode (seg ∷ path) in
    let nonempty = segment_values-nonempty decode seg path in
    elim (Bool-cases (is_read method)) [
      | inl e ↦ ground (arith, match_method-read method values e nonempty)
      | inr e ↦ ground (arith, match_method-write method values e, has_methods-patterns values)
    ]

-- For every method and path, the handler that NewMux's ServeMux finds is that of the table, where a path that is
-- not clean is answered with a redirection, unless the method is CONNECT.
pub find_handler-table :
    (decode : String → String) (method : String) (path : List String)
    → find_handler decode method path
      ≡ (if is_kept method path then table method (place (segment_values decode path)) else moved)
unfolding find_handler
find_handler-table decode method path = elim (Bool-cases (is_kept method path)) [
  | inl e ↦ ground (arith, found_lem decode method path e)
  | inr e ↦ ground arith
]
