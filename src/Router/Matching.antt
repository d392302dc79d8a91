-- ===== src/Router/Matching.antt =====
-- What the patterns of internal/handler/router.go match, method by method.
use avatars.Prelude.{
  String, not, ◌&&◌, none, some, List, [], ◌∷◌, ◌==◌, if◌then◌else◌, ◌≡◌, refl, arith, eq_iff,
  Bool-cases, inl, inr,
}
use avatars.Router.{
  Segment, literal, wildcard, multi, Route, index, health, ping, get, Pattern, Match, match_path,
}

pub data Place : Type 0 where
  at_health at_ping elsewhere : Place
  at_avatar : String → Place

-- A place is told by its decoded segments. A user id is any segment that does not decode to "/".
abbrev pub place : List String → Place
place [] = elsewhere
place (seg ∷ []) =
    if "health" == seg then at_health else if "ping" == seg then at_ping else elsewhere
place (_ ∷ _ ∷ []) = elsewhere
place (a ∷ b ∷ user_id ∷ []) =
    if "api" == a && "avatars" == b && not (user_id == "/") then at_avatar user_id else elsewhere
place (_ ∷ _ ∷ _ ∷ _ ∷ _) = elsewhere

abbrev pub page : Place → Route × List String
page at_health = (health, [])
page at_ping = (ping, [])
page elsewhere = (index, [])
page (at_avatar user_id) = (get, user_id ∷ [])

pub match_path_nil : (path : List String) → match_path [] path ≡ none
unfolding match_path
match_path_nil [] = refl
match_path_nil (seg ∷ path) = ground (arith, match_path_nil path)

abbrev pub avatar_pattern : String → Route → Pattern
avatar_pattern method route = record {
  method = method;
  segments = literal "api" ∷ literal "avatars" ∷ wildcard ∷ [];
  route = route;
}

abbrev pub gets : List Pattern
gets =
    record { method = "GET"; segments = multi ∷ []; route = index }
    ∷ record { method = "GET"; segments = literal "health" ∷ []; route = health }
    ∷ record { method = "GET"; segments = literal "ping" ∷ []; route = ping }
    ∷ avatar_pattern "GET" get
    ∷ []

-- What is left of a pattern.
abbrev left : String → List Segment → Route → List Pattern
left method more route = record { method = method; segments = more; route = route } ∷ []

abbrev match_rest : String → List String → Match
match_rest method path = match_path (left method (literal "avatars" ∷ wildcard ∷ []) get) path

match-left_nil :
    (method : String) (route : Route) (seg : String) (path : List String)
    → match_path (left method [] route) (seg ∷ path) ≡ none
unfolding match_path
match-left_nil method route seg path = ground (arith, match_path_nil path)

match-left_wildcard :
    (method : String) (route : Route) (seg : String) (path : List String)
    → match_path (left method (wildcard ∷ []) route) (seg ∷ path)
      ≡ (if seg == "/" then none else elim path [ [] ↦ some (route, seg ∷ []) | _ ∷ _ ↦ none ])
unfolding match_path
match-left_wildcard method route seg [] = ground arith
match-left_wildcard method route seg (next ∷ path) =
    ground (arith, match_path_nil path, match-left_nil method route next path)

match-left_avatars :
    (method : String) (route : Route) (b : String) (path : List String)
    → match_path (left method (literal "avatars" ∷ wildcard ∷ []) route) (b ∷ path)
      ≡ (if "avatars" == b then match_path (left method (wildcard ∷ []) route) path else none)
unfolding match_path
match-left_avatars method route b path = ground (arith, match_path_nil path)

match-left_api :
    (method : String) (route : Route) (a : String) (path : List String)
    → match_path (avatar_pattern method route ∷ []) (a ∷ path) ≡ (
        if "api" == a
        then match_path (left method (literal "avatars" ∷ wildcard ∷ []) route) path
        else none)
unfolding match_path
match-left_api method route a path = ground (arith, match_path_nil path)

-- The only pattern of POST and of DELETE matches at an avatar's place.
pub match-avatar_pattern :
    (method : String) (route : Route) (path : List String)
    → match_path (avatar_pattern method route ∷ []) path
      ≡ elim (place path) [ at_avatar user_id ↦ some (route, user_id ∷ []) | _ ↦ none ]
unfolding match_path
match-avatar_pattern method route [] = refl
match-avatar_pattern method route (a ∷ []) = ground (arith, match-left_api method route a [])
match-avatar_pattern method route (a ∷ b ∷ []) =
    ground (arith, match-left_api method route a (b ∷ []), match-left_avatars method route b [])
match-avatar_pattern method route (a ∷ b ∷ v ∷ []) = ground (
  arith,
  match-left_api method route a (b ∷ v ∷ []),
  match-left_avatars method route b (v ∷ []),
  match-left_wildcard method route v [],
)
match-avatar_pattern method route (a ∷ b ∷ v ∷ w ∷ path) = ground (
  arith,
  match-left_api method route a (b ∷ v ∷ w ∷ path),
  match-left_avatars method route b (v ∷ w ∷ path),
  match-left_wildcard method route v (w ∷ path),
)

-- The patterns of GET: one of the literals, or else the index.
abbrev at_literal : String → List String → Match
at_literal a path =
    if "health" == a
    then match_path (left "GET" [] health) path
    else if "ping" == a
    then match_path (left "GET" [] ping) path
    else if "api" == a
    then match_path (left "GET" (literal "avatars" ∷ wildcard ∷ []) get) path
    else none

abbrev or_index : Match → Match
or_index none = some (index, [])
or_index (some found) = some found

match-gets_step :
    (a : String) (path : List String) → match_path gets (a ∷ path) ≡ or_index (at_literal a path)
unfolding match_path
match-gets_step a path = elim (Bool-cases ("health" == a)) [
  | inl e ↦ rw (← (eq_iff "health" a).0 e) (ground (arith, match_path_nil path))
  | inr health_not ↦ elim (Bool-cases ("ping" == a)) [
    | inl e ↦ rw (← (eq_iff "ping" a).0 e) (ground (arith, match_path_nil path))
    | inr ping_not ↦ ground (arith, match_path_nil path)
  ]
]

match_path-left_nil :
    (method : String) (route : Route) → match_path (left method [] route) [] ≡ some (route, [])
unfolding match_path
match_path-left_nil method route = refl

match-left_avatars_nil :
    (method : String) (route : Route)
    → match_path (left method (literal "avatars" ∷ wildcard ∷ []) route) [] ≡ none
unfolding match_path
match-left_avatars_nil method route = refl

pub match-gets :
    (seg : String) (path : List String)
    → match_path gets (seg ∷ path) ≡ some (page (place (seg ∷ path)))
match-gets a [] = ground (
  arith,
  match-gets_step a [],
  match_path-left_nil "GET" health,
  match_path-left_nil "GET" ping,
  match-left_avatars_nil "GET" get,
)
match-gets a (b ∷ []) = ground (
  arith,
  match-gets_step a (b ∷ []),
  match-left_nil "GET" health b [],
  match-left_nil "GET" ping b [],
  match-left_avatars "GET" get b [],
  match-avatar_pattern "GET" get (a ∷ b ∷ []),
  match-left_api "GET" get a (b ∷ []),
)
match-gets a (b ∷ v ∷ []) = elim (Bool-cases ("api" == a)) [
  | inl e ↦ rw (← (eq_iff "api" a).0 e) (
      ground (
        arith,
        match-gets_step "api" (b ∷ v ∷ []),
        match-left_avatars "GET" get b (v ∷ []),
        match-left_wildcard "GET" get v [],
      ))
  | inr api_not ↦ ground (
    arith,
    match-gets_step a (b ∷ v ∷ []),
    match-left_nil "GET" health b (v ∷ []),
    match-left_nil "GET" ping b (v ∷ []),
  )
]
match-gets a (b ∷ v ∷ w ∷ path) = ground (
  arith,
  match-gets_step a (b ∷ v ∷ w ∷ path),
  match-left_nil "GET" health b (v ∷ w ∷ path),
  match-left_nil "GET" ping b (v ∷ w ∷ path),
  match-left_avatars "GET" get b (v ∷ w ∷ path),
  match-left_wildcard "GET" get v (w ∷ path),
)
