-- ===== src/Handler/Pings.antt =====
-- Ping of internal/handler/handler.go, again and again, through the breaker of
-- internal/resilience/breaker.go.
use avatars.Prelude.{
  ℕ, ◌≡◌, refl, none, some, List, [], ◌∷◌, ℤ, pos, ◌*◌, ◌^◌, arith, Error, if◌then◌else◌,
}
use avatars.Http.{Response, plain, error_response, write_json}
use avatars.Storage.{Storage}
use avatars.Breaker as Breaker
use avatars.Breaker.{new_breaker, is_open, finish}
use avatars.Breaker.Laws.{History, finish_all, refuses, last_trip, is_open-finish_all}
use avatars.Handler.{Handler, ObjectStore, Publisher, Metrics, new_handler}
use avatars.Handler.Avatars.{ping, is_open_error}

-- The readings of the clock at the two ends of a ping.
abbrev pub Times : Type 0
Times = ℕ × ℕ

-- What the database's answer comes to.
abbrev pub reported : Error → Response
reported none = record { status = 200; body = plain "ok" }
reported (some e) =
    if is_open_error e
    then write_json 503 (error_response "database circuit open")
    else write_json 500 (error_response "database unavailable")

abbrev pub half_minute : ℕ
half_minute = 30 * 10 ^ 9

module _ {W : Type 0} where
  -- The answers to pings that come one after the other.
  unfoldable pub ping_all : List Times → Handler W → W → List Response × W
  ping_all [] h w = ([], w)
  ping_all ((entered, left) ∷ later) h w =
      let (resp, h1, w1) = ping h entered left w in
      let (resps, w2) = ping_all later h1 w1 in (resp ∷ resps, w2)

  -- The same by the history of the pings that reached the database, the latest first: within 30 seconds
  -- of a fifth failure in a row the database is left alone.
  unfoldable pub answers : Storage W → List Times → History → W → List Response × W
  answers store [] before w = ([], w)
  answers store ((entered, left) ∷ later) before w =
      let refused = answers store later before w in
      let (e, w1) = store.ping w in
      let asked = answers store later ((e, left) ∷ before) w1 in
      if refuses entered half_minute (last_trip 5 before)
      then (write_json 503 (error_response "database circuit open") ∷ refused.0, refused.1)
      else (reported e ∷ asked.0, asked.1)

abbrev first_breaker : Breaker.Breaker
first_breaker = new_breaker (pos 5) (pos (30 * 10 ^ 9))

refused :
    (now : ℕ) (before : History)
    → is_open now (finish_all before first_breaker) ≡ refuses now half_minute (last_trip 5 before)
refused now before = unfold new_breaker in is_open-finish_all before (pos 5) (pos (30 * 10 ^ 9)) now

module _ {W : Type 0} where
  ping_all-from :
      (times : List Times) (before : History) (h : Handler W) (w : W)
      → ping_all times (record h { db_breaker = finish_all before first_breaker }) w
        ≡ answers h.store times before w
  unfolding ping_all answers ping Breaker.call finish_all
  ping_all-from [] before h w = refl
  ping_all-from ((entered, left) ∷ later) before h w = ground (
    arith,
    refused entered before,
    ping_all-from later before h w,
    ping_all-from later (((h.store.ping w).0, left) ∷ before) h (h.store.ping w).1,
  )

-- From the handler of NewHandler, pings that come one after the other are answered as their history
-- says: 503 without a call of the database from a fifth failure in a row until 30 seconds later, and
-- else 200 or, by the database's error, 500 (503 for an open circuit of its own).
pub ping_all-new_handler :
    {W : Type 0} (store : Storage W) (objects : ObjectStore W) (publisher : Publisher W)
    (metrics : Metrics W) (max_upload : ℤ) (times : List Times) (w : W)
    → ping_all times (new_handler store objects publisher metrics max_upload) w
      ≡ answers store times [] w
ping_all-new_handler store objects publisher metrics max_upload times w =
    unfold new_handler finish_all in
    ping_all-from times [] (new_handler store objects publisher metrics max_upload) w
