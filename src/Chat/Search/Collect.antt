-- ===== src/Chat/Search/Collect.antt =====
-- The rooms that `chat_room_search` (chatroom_manager.cpp) answers with.
use studio_bondage_club.Prelude.{
  ℕ, zero, suc, ◌+◌, ◌≤◌, ◌≡◌, refl, Bool, not, List, [], ◌∷◌, pos, arith, reject, take, Bool-cases,
  inl, inr,
}
use studio_bondage_club.Json.{JsonLib}
use studio_bondage_club.Chat.Search.{collect}
use studio_bondage_club.Chat.State.{ChatRoom}

module _ (J : JsonLib) (listed : ChatRoom J → Bool) where
  abbrev pub kept : List (ChatRoom J) → List (ChatRoom J)
  kept rooms = reject (λ r. not (listed r)) rooms

  -- With `k + 1` rooms still wanted.
  collect-wanted :
      (l n k : ℕ) (rooms : List (ChatRoom J))
      → l ≡ n + suc k
      → collect J listed (pos l) n rooms ≡ take (suc k) (kept rooms)
  unfolding collect
  collect-wanted l n k [] e = refl
  collect-wanted l n zero (r ∷ rooms) e = elim (Bool-cases (listed r)) [
    | inl here ↦ rw here (ground arith)
    | inr there ↦ rw there (collect-wanted l n zero rooms e)
  ]
  collect-wanted l n (suc k) (r ∷ rooms) e = elim (Bool-cases (listed r)) [
    | inl here ↦ rw here (ground (arith, collect-wanted l (suc n) k rooms (omega arith)))
    | inr there ↦ rw there (collect-wanted l n (suc k) rooms e)
  ]

  -- With a limit of at least one, a search answers with the first rooms that pass its tests, in the
  -- order of its walk, as many as there are up to the limit.
  pub collect-take :
      (limit : ℕ) (rooms : List (ChatRoom J))
      → 1 ≤ limit
      → collect J listed (pos limit) 0 rooms ≡ take limit (kept rooms)
  collect-take zero rooms h = absurd (omega arith)
  collect-take (suc k) rooms h = collect-wanted (suc k) 0 k rooms (omega arith)
