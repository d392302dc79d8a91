-- ===== src/Router.antt =====
-- The routes of internal/handler/router.go, as net/http's ServeMux finds them, and the page of
-- internal/web/web.go. A path is the list of its escaped segments, one behind each slash: "/" is one
-- empty segment, "/ping" is "ping", and "/a/" is "a" and an empty one. `decode` is url.PathUnescape
-- at a segment. The target "*", which ServeMux refuses by itself, is left out.
pub mod Matching
pub mod Table
pub mod Uploads
pub mod Labels
pub mod Serving
pub mod Runs
pub mod Limits
use Prim.Native.String as Str
use avatars.Prelude.{
  String, Bool, true, false, not, ◌&&◌, ◌||◌, Option, none, some, List, [], ◌∷◌, ◌++◌, ◌==◌,
  if◌then◌else◌, ◌≡◌, refl,
}

-- A segment of a pattern. A pattern that ends in a slash ends in `multi`, which takes what is left of
-- the path, one segment at least.
pub data Segment : Type 0 where
  literal : String → Segment
  wildcard multi : Segment

pub data Route : Type 0 where
  index health ping upload get delete : Route

pub record Pattern : Type 0 where
  pub method : String
  pub segments : List Segment
  pub route : Route

abbrev avatar_path : List Segment
avatar_path = literal "api" ∷ literal "avatars" ∷ wildcard ∷ []

-- What NewMux registers.
unfoldable pub patterns : List Pattern
patterns =
    record { method = "GET"; segments = multi ∷ []; route = index }
    ∷ record { method = "GET"; segments = literal "health" ∷ []; route = health }
    ∷ record { method = "GET"; segments = literal "ping" ∷ []; route = ping }
    ∷ record { method = "POST"; segments = avatar_path; route = upload }
    ∷ record { method = "GET"; segments = avatar_path; route = get }
    ∷ record { method = "DELETE"; segments = avatar_path; route = delete }
    ∷ []

-- A node of the routing tree is what is left of the patterns below it. These are its children: that
-- of a literal, that of a wildcard, and the handlers that it holds at the end of a path and at a
-- pattern's last slash.
below_literal : String → List Pattern → List Pattern
below_literal seg [] = []
below_literal seg (p ∷ ps) =
    let later = below_literal seg ps in
    elim p.segments [
      | [] ↦ later
      | wildcard ∷ _ ↦ later
      | multi ∷ _ ↦ later
      | literal text ∷ more ↦ if text == seg then record p { segments = more } ∷ later else later
    ]

below_wildcard : List Pattern → List Pattern
below_wildcard [] = []
below_wildcard (p ∷ ps) =
    let later = below_wildcard ps in
    elim p.segments [
      | [] ↦ later
      | literal _ ∷ _ ↦ later
      | multi ∷ _ ↦ later
      | wildcard ∷ more ↦ record p { segments = more } ∷ later
    ]

at_end : List Pattern → Option Route
at_end [] = none
at_end (p ∷ ps) = let later = at_end ps in elim p.segments [ [] ↦ some p.route | _ ∷ _ ↦ later ]

at_slash : List Pattern → Option Route
at_slash [] = none
at_slash (p ∷ ps) =
    let later = at_slash ps in
    elim p.segments [
      | [] ↦ later
      | literal _ ∷ _ ↦ later
      | wildcard ∷ _ ↦ later
      | multi ∷ _ ↦ some p.route
    ]

-- A route and what its wildcards took.
abbrev pub Match : Type 0
Match = Option (Route × List String)

abbrev or_else : Match → Match → Match
or_else (some found) _ = some found
or_else none other = other

abbrev taking : String → Match → Match
taking seg none = none
taking seg (some (route, values)) = some (route, seg ∷ values)

abbrev without_values : Option Route → Match
without_values none = none
without_values (some route) = some (route, [])

-- routingNode.matchPath: a literal before a wildcard, and a wildcard before a last slash. The empty
-- last segment of a path is the text "/", which no wildcard takes.
unfoldable pub match_path : List Pattern → List String → Match
unfolding below_literal below_wildcard at_end at_slash
match_path ps [] = without_values (at_end ps)
match_path ps (seg ∷ path) =
    let by_literal = match_path (below_literal seg ps) path in
    let by_wildcard = match_path (below_wildcard ps) path in
    or_else by_literal
      (or_else (if seg == "/" then none else taking seg by_wildcard) (without_values (at_slash ps)))

with_method : String → List Pattern → List Pattern
with_method method [] = []
with_method method (p ∷ ps) =
    let later = with_method method ps in if p.method == method then p ∷ later else later

-- routingNode.matchMethodAndPath; no pattern is without a method.
unfoldable pub match_method : List Pattern → String → List String → Match
unfolding with_method
match_method ps method path =
    or_else (match_path (with_method method ps) path)
      (if method == "HEAD" then match_path (with_method "GET" ps) path else none)

-- Whether a path has an allowed method: that of one of the patterns `qs`.
any_method : List Pattern → List Pattern → List String → Bool
any_method ps [] path = false
any_method ps (q ∷ qs) path = elim (match_path (with_method q.method ps) path) [
  | some _ ↦ true
  | none ↦ any_method ps qs path
]

ends_in_slash : List String → Bool
ends_in_slash [] = false
ends_in_slash (seg ∷ []) = seg == "/"
ends_in_slash (_ ∷ seg ∷ path) = ends_in_slash (seg ∷ path)

-- ServeMux.matchingMethods: the path is also tried with a slash at its end.
unfoldable pub has_methods : List Pattern → List String → Bool
unfolding with_method any_method ends_in_slash
has_methods ps path =
    any_method ps ps path || not (ends_in_slash path) && any_method ps ps (path ++ "/" ∷ [])

-- Whether cleanPath leaves a path as it is.
unfoldable pub is_clean : List String → Bool
is_clean [] = false
is_clean (seg ∷ []) = not (seg == ".") && not (seg == "..")
is_clean (seg ∷ next ∷ path) =
    let later = is_clean (next ∷ path) in
    not (seg == "") && not (seg == ".") && not (seg == "..") && later

-- What the tree compares: decoded segments, and "/" for the empty one at the end.
unfoldable pub segment_values : (String → String) → List String → List String
segment_values decode [] = []
segment_values decode (seg ∷ []) = (if seg == "" then "/" else decode seg) ∷ []
segment_values decode (seg ∷ next ∷ path) = decode seg ∷ segment_values decode (next ∷ path)

-- r.URL.Path
unfoldable pub url_path : (String → String) → List String → String
url_path decode [] = ""
url_path decode (seg ∷ path) = Str.◌++◌ "/" (Str.◌++◌ (decode seg) (url_path decode path))

pub data Found : Type 0 where
  to : Route → List String → Found
  moved method_not_allowed no_route : Found

found : List Pattern → String → List String → Found
found ps method path = elim (match_method ps method path) [
  | some (route, values) ↦ to route values
  | none ↦ if has_methods ps path then method_not_allowed else no_route
]

-- ServeMux.findHandler. No pattern but "GET /" ends in a slash, so that a path that lacks its last
-- slash is never redirected.
unfoldable pub find_handler : (String → String) → String → List String → Found
unfolding found
find_handler decode method path =
    if not (method == "CONNECT") && not (is_clean path)
    then moved
    else found patterns method (segment_values decode path)

tests :
    (find_handler (λ s. s) "GET" ("ping" ∷ []) ≡ to ping [])
    × (find_handler (λ s. s) "POST" ("api" ∷ "avatars" ∷ "ann" ∷ []) ≡ to upload ("ann" ∷ []))
    × (find_handler (λ s. s) "HEAD" ("api" ∷ "avatars" ∷ "" ∷ []) ≡ to index [])
    × (find_handler (λ s. s) "PUT" ("ping" ∷ []) ≡ method_not_allowed)
    × (find_handler (λ s. s) "GET" ("a" ∷ "" ∷ "b" ∷ []) ≡ moved)
unfolding find_handler patterns match_method match_path has_methods is_clean segment_values
tests = (refl, refl, refl, refl, refl)
