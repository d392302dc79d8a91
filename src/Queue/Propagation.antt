-- ===== src/Queue/Propagation.antt =====
-- internal/queue/propagation.go: the trace context in the headers of a message. The propagator of
-- OpenTelemetry reads and writes a carrier by the three methods here.
use avatars.Prelude.{
  String, ◌≡◌, refl, ◌==◌, Option, none, some, List, [], ◌∷◌, arith, Assoc, lookup, insert,
  lookup-insert, if◌then◌else◌,
}
use avatars.Handler.{Bytes}
use avatars.Queue.Retry.{Table, Value, str, bytes}

-- `text` is Go's conversion of bytes to a string.
value_text : (Bytes → String) → Option Value → String
value_text text (some (str s)) = s
value_text text (some (bytes b)) = text b
value_text text _ = ""

unfoldable pub get : (Bytes → String) → Table → String → String
unfolding value_text
get text none key = ""
get text (some headers) key = value_text text (lookup key headers)

unfoldable pub set : Table → String → String → Table
set none key value = some ((key, str value) ∷ [])
set (some headers) key value = some (insert key (str value) headers)

names : Assoc Value → List String
names [] = []
names ((key, _) ∷ headers) = key ∷ names headers

-- The order of the keys is that of the association list; Go's is any.
unfoldable pub keys : Table → List String
unfolding names
keys none = []
keys (some headers) = names headers

-- What Inject does: it sets fields of the carrier. InjectTraceContext makes a nil table an empty one.
unfoldable pub set_all : List (String × String) → Table → Table
set_all [] headers = headers
set_all ((key, value) ∷ fields) headers = set_all fields (set headers key value)

or_empty : Table → Table
or_empty none = some []
or_empty (some headers) = some headers

unfoldable pub inject_trace_context : List (String × String) → Table → Table
unfolding or_empty set_all
inject_trace_context fields headers = set_all fields (or_empty headers)

unfoldable pub last_value : String → String → List (String × String) → String
last_value key old [] = old
last_value key old ((k, v) ∷ fields) = last_value key (if k == key then v else old) fields

get-set :
    (text : Bytes → String) (headers : Table) (k key value : String)
    → get text (set headers k value) key ≡ (if k == key then value else get text headers key)
unfolding get set lookup
get-set text none k key value = ground arith
get-set text (some headers) k key value = ground (arith, lookup-insert k key (str value) headers)

get-set_all :
    (text : Bytes → String) (fields : List (String × String)) (headers : Table) (key : String)
    → get text (set_all fields headers) key ≡ last_value key (get text headers key) fields
unfolding set_all last_value
get-set_all text [] headers key = refl
get-set_all text ((k, v) ∷ fields) headers key =
    rw (get-set_all text fields (set headers k v) key, get-set text headers k key v) refl

-- What the consumer reads of a message's headers after InjectTraceContext: for each key the last
-- value that the propagator set, and else what the headers held before.
pub get-inject_trace_context :
    (text : Bytes → String) (fields : List (String × String)) (headers : Table) (key : String)
    → get text (inject_trace_context fields headers) key
      ≡ last_value key (get text headers key) fields
unfolding inject_trace_context
get-inject_trace_context text fields none key =
    unfold get lookup in get-set_all text fields (some []) key
get-inject_trace_context text fields (some headers) key = get-set_all text fields (some headers) key

-- ExtractTraceContext: the propagator's Extract on a carrier, which it reads by Get, into a context.
unfoldable pub extract_trace_context :
    {C : Type 0} → ((String → String) → C → C) → (Bytes → String) → Table → C → C
extract_trace_context extract text headers ctx = extract (get text headers) ctx
