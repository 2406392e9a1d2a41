-- ===== src/Connection/Laws.antt =====
-- The laws of a session (connection.cpp): the window of the rate limit, and the end of a session.
use studio_bondage_club.Prelude.{
  ℕ, zero, suc, ◌-◌, ◌≡◌, ◌≤◌, Option, List, [], ◌∷◌, Str, arith, leb, length, length-append,
  length-replicate, drop, replicate, if◌then◌else◌,
}
use studio_bondage_club.Json.{JsonLib}
use studio_bondage_club.Connection
use studio_bondage_club.Connection.{
  do_disconnect, dispatch_event, window, resized, ingest, disconnect, enqueue_eio, check_pong,
  send_ping,
}

length-drop : (n : ℕ) (ts : List ℕ) → length (drop n ts) ≡ length ts - n
length-drop zero ts = omega arith
length-drop (suc n) [] = omega arith
length-drop (suc n) (t ∷ ts) = ground (arith, length-drop n ts)

module _ (J : JsonLib) (dump : J.Json → Str) (parse_json : Str → Option J.Json) where
  length-resized :
      (limit : ℕ) (bucket : List ℕ) → length (resized J dump parse_json limit bucket) ≡ limit
  unfolding resized
  length-resized limit bucket = omega (
    arith,
    length-append {A = ℕ} (replicate (limit - length bucket) 0)
        (drop (length bucket - limit) bucket),
    length-replicate {A = ℕ} (limit - length bucket) 0,
    length-drop (length bucket - limit) bucket,
  )

  length-slide :
      (now : ℕ) (ts : List ℕ)
      → 1 ≤ length ts
      → length (Connection.slide J dump parse_json now ts).1 ≡ length ts
  unfolding Connection.slide
  length-slide now [] h = absurd (omega arith)
  length-slide now (t ∷ ts) h = ground (arith, length-append ts (now ∷ []))

  -- After every event the window has as many entries as the limit, at least one, whatever the limit
  -- was before.
  pub length-window :
      (limit now : ℕ) (bucket : List ℕ)
      → length (window J dump parse_json limit now bucket).1 ≡ (if leb 1 limit then limit else 1)
  unfolding window
  length-window limit now bucket = ground (
    arith,
    length-slide now (resized J dump parse_json (if leb 1 limit then limit else 1) bucket),
    length-resized (if leb 1 limit then limit else 1) bucket,
  )
