-- ===== src/Hub/Accounting.antt =====
-- The connections counted per address (server.cpp): every accepted session is counted once, under its
-- address, and no address passes its limit.
use studio_bondage_club.Prelude.{
  ℕ, zero, suc, ◌+◌, ◌-◌, ◌≤◌, ◌≡◌, refl, sym, ap, ◌∙◌, Bool, true, false, ◌||◌, Option, none, some,
  List, [], ◌∷◌, Str, arith, leb, length, length-append, get_elem?, reject, if◌then◌else◌, str_eq,
  str_eq_iff, is_empty, Bool-cases, inl, inr,
}
use studio_bondage_club.Hub
use studio_bondage_club.Hub.{
  Hub, Limits, update, assign_sid, address_of, erase_sid, on_connection, release_ip_connection,
  remove,
}

-- The accepted sessions from an address.
unfoldable pub counted : Str → List (Str × Str) → ℕ
counted a [] = 0
counted a (e ∷ es) = (if str_eq e.1 a then 1 else 0) + counted a es

-- The timestamps kept for an address are as many as its accepted sessions.
abbrev pub IsBalanced : Hub → Type 0
IsBalanced hub =
    (a : Str) → is_empty a ≡ false → length (hub.ip_connections a) ≡ counted a hub.ip_by_sid

abbrev pub IsWithin : Limits → Hub → Type 0
IsWithin lim hub = (a : Str) → length (hub.ip_connections a) ≤ lim.connections

-- What holds of the hub after a call that returns.
abbrev pub Returns : (Hub → Type 0) → Option (Bool × Hub) → Type 0
Returns P none = Unit {0}
Returns P (some (b, hub)) = P hub

counted-assign_sid :
    (a sid b : Str) (es : List (Str × Str))
    → address_of sid es ≡ none
    → counted a (assign_sid sid b es) ≡ counted a es + (if str_eq b a then 1 else 0)
unfolding counted assign_sid address_of
counted-assign_sid a sid b [] h = ground arith
counted-assign_sid a sid b (e ∷ es) h = ground (arith, counted-assign_sid a sid b es)

counted-erase_sid :
    (a sid b : Str) (es : List (Str × Str))
    → address_of sid es ≡ some b
    → counted a es ≡ (if str_eq b a then 1 else 0) + counted a (erase_sid sid es)
unfolding counted erase_sid address_of
counted-erase_sid a sid b [] h = cc
counted-erase_sid a sid b (e ∷ es) h = ground (arith, counted-erase_sid a sid b es)

erase_sid-none :
    (sid : Str) (es : List (Str × Str)) → address_of sid es ≡ none → erase_sid sid es ≡ es
unfolding erase_sid address_of
erase_sid-none sid [] h = refl
erase_sid-none sid (e ∷ es) h = ground (arith, erase_sid-none sid es)

empty_or_other : (b a : Str) → is_empty b ≡ true → is_empty a ≡ false → str_eq b a ≡ false
unfolding str_eq
empty_or_other [] [] h k = cc
empty_or_other [] (x ∷ xs) h k = refl
empty_or_other (y ∷ ys) a h k = cc

str_eq-flip : (a b : Str) → str_eq a b ≡ str_eq b a
unfolding str_eq
str_eq-flip [] [] = refl
str_eq-flip (x ∷ xs) (y ∷ ys) = ground (arith, str_eq-flip xs ys)
str_eq-flip [] (y ∷ ys) = refl
str_eq-flip (x ∷ xs) [] = refl

length-without_first : (ts : List ℕ) → length (Hub.without_first ts) ≡ length ts - 1
unfolding Hub.without_first
length-without_first [] = refl
length-without_first (t ∷ ts) = ground arith

remember-IsBalanced :
    (lim : Limits) (sid a : Str) (now : ℕ) (hub : Hub) (over : Option Bool)
    → address_of sid hub.ip_by_sid ≡ none
    → IsBalanced hub
    → Returns IsBalanced (Hub.remember sid a (Hub.admit lim a now hub over))
unfolding Hub.remember Hub.admit
remember-IsBalanced lim sid a now hub none new v = tt
remember-IsBalanced lim sid a now hub (some over) new v =
    elim (Bool-cases (leb lim.connections (length (hub.ip_connections a)) || over)) [
      | inl refused ↦ rw refused v
      | inr accepted ↦ rw accepted (λ b h. ground (
        arith,
        v b h,
        counted-assign_sid b sid a hub.ip_by_sid new,
        length-append (hub.ip_connections a) (now ∷ []),
        str_eq-flip b a,
        str_eq_iff b a,
      ))
    ]

-- A connection from a session that has no address yet, accepted or refused, keeps the timestamps of
-- every address but the empty one as many as its accepted sessions, if they were so before.
pub on_connection-IsBalanced :
    (lim : Limits) (sid address : Str) (now : ℕ) (hub : Hub)
    → address_of sid hub.ip_by_sid ≡ none
    → IsBalanced hub
    → Returns IsBalanced (on_connection lim sid address now hub)
unfolding on_connection Hub.register_ip_connection
on_connection-IsBalanced lim sid address now hub new v =
    remember-IsBalanced lim sid address now hub _ new v

released-IsBalanced :
    (sid : Str) (hub : Hub) (o : Option Str)
    → address_of sid hub.ip_by_sid ≡ o
    → IsBalanced hub
    → IsBalanced (
        Hub.release_of o (record hub {
          by_sid = reject (str_eq sid) hub.by_sid;
          ip_by_sid = erase_sid sid hub.ip_by_sid;
        }))
unfolding Hub.release_of release_ip_connection
released-IsBalanced sid hub none e v a h =
    v a h ∙ ap (counted a) (sym (erase_sid-none sid hub.ip_by_sid e))
released-IsBalanced sid hub (some b) e v a h = elim (Bool-cases (is_empty b)) [
  | inl no_address ↦ rw no_address (
      ground
        (arith, v a h, counted-erase_sid a sid b hub.ip_by_sid e, empty_or_other b a no_address h))
  | inr address ↦ rw address (
      ground (
        arith,
        v a h,
        counted-erase_sid a sid b hub.ip_by_sid e,
        str_eq-flip b a,
        str_eq_iff b a,
        length-without_first (hub.ip_connections b),
      ))
]

-- The removal of a session, whether or not it was accepted, keeps the timestamps of every address but
-- the empty one as many as its accepted sessions, if they were so before.
pub remove-IsBalanced : (sid : Str) (hub : Hub) → IsBalanced hub → IsBalanced (remove sid hub)
unfolding remove
remove-IsBalanced sid hub v a h =
    released-IsBalanced sid hub (address_of sid hub.ip_by_sid) refl v a h

remember-IsWithin :
    (lim : Limits) (sid a : Str) (now : ℕ) (hub : Hub) (over : Option Bool)
    → IsWithin lim hub
    → Returns (IsWithin lim) (Hub.remember sid a (Hub.admit lim a now hub over))
unfolding Hub.remember Hub.admit
remember-IsWithin lim sid a now hub none v = tt
remember-IsWithin lim sid a now hub (some over) v =
    elim (Bool-cases (leb lim.connections (length (hub.ip_connections a)) || over)) [
      | inl refused ↦ rw refused v
      | inr accepted ↦
          rw accepted
            (λ b. ground (arith, accepted, v b, length-append (hub.ip_connections a) (now ∷ [])))
    ]

-- A connection takes no address over the limit, if none was over it before.
pub on_connection-IsWithin :
    (lim : Limits) (sid address : Str) (now : ℕ) (hub : Hub)
    → IsWithin lim hub
    → Returns (IsWithin lim) (on_connection lim sid address now hub)
unfolding on_connection Hub.register_ip_connection
on_connection-IsWithin lim sid address now hub v = remember-IsWithin lim sid address now hub _ v

get_elem?-some : (v : List ℕ) (i : ℕ) → suc i ≤ length v → (t : ℕ) × (get_elem? v i ≡ some t)
get_elem?-some [] i h = absurd (omega arith)
get_elem?-some (t ∷ ts) zero h = (t, refl)
get_elem?-some (t ∷ ts) (suc i) h = get_elem?-some ts i (omega arith)

over_rate-some :
    (rate now : ℕ) (v : List ℕ) → 1 ≤ rate → (b : Bool) × (Hub.over_rate rate now v ≡ some b)
unfolding Hub.over_rate
over_rate-some rate now v h = elim (Bool-cases (leb rate (length v))) [
  | inl many ↦
      let found = get_elem?-some v (length v - rate) (ground (arith, many)) in
      (leb now (found.0 + 1000), rw (many, found.1) refl)
  | inr few ↦ (false, rw few refl)
]

remember-some :
    (sid a : Str) (p : Bool × Hub) → (r : Bool × Hub) × (Hub.remember sid a (some p) ≡ some r)
unfolding Hub.remember
remember-some sid a (false, hub) = ((false, hub), refl)
remember-some sid a (true, hub) = (_, refl)

remember-some_if :
    (sid a : Str) (b : Bool) (p q : Bool × Hub)
    → (r : Bool × Hub) × (Hub.remember sid a (if b then some p else some q) ≡ some r)
remember-some_if sid a true p q = remember-some sid a p
remember-some_if sid a false p q = remember-some sid a q

admitted-some :
    (lim : Limits) (sid a : Str) (now : ℕ) (hub : Hub) (over : Bool)
    → (r : Bool × Hub) × (Hub.remember sid a (Hub.admit lim a now hub (some over)) ≡ some r)
unfolding Hub.admit
admitted-some lim sid a now hub over =
    remember-some_if sid a (leb lim.connections (length (hub.ip_connections a)) || over)
      (false, hub) _

-- With a rate limit of at least one, a connection is accepted or refused: the code reads no timestamp
-- beyond the end.
pub on_connection-returns :
    (lim : Limits) (sid address : Str) (now : ℕ) (hub : Hub)
    → 1 ≤ lim.rate
    → (r : Bool × Hub) × (on_connection lim sid address now hub ≡ some r)
unfolding on_connection Hub.register_ip_connection
on_connection-returns lim sid address now hub h =
    let over = over_rate-some lim.rate now (hub.ip_connections address) h in
    let r = admitted-some lim sid address now hub over.0 in
    (r.0, ap (λ o. Hub.remember sid address (Hub.admit lim address now hub o)) over.1 ∙ r.1)
