-- ===== src/Chat/Roles/Allow.antt =====
-- Who may change the items of whom: the decision of `get_allow_item` (chatroom_manager.cpp) against
-- a table of its permission levels.
use studio_bondage_club.Prelude.{◌≡◌, ◌⊎◌, Bool, true, false, some, ℤ, pos, ◌≤ℤ◌, arith, eq_ℤ_iff}
use studio_bondage_club.Chat.Roles.{Relation, allowed}

-- The sources that a target with a given permission level lets act on it. `stronger` says that the
-- source's dominance, with 25 added, reaches the target's.
pub data Permits (r : Relation) (stronger : Bool) : Type 0 where
  everyone : r.permission ≤ℤ pos 0 → Permits r stronger
  oneself : r.itself ≡ true → Permits r stronger
  owner : r.owned_by_source ≡ true → Permits r stronger
  unless_blacklisted : r.permission ≡ pos 1 → r.blacklisted ≡ false → Permits r stronger
  by_dominance : r.permission ≡ pos 2 → r.blacklisted ≡ false → stronger ≡ true → Permits r stronger
  trusted :
      r.permission ≡ pos 2
      → r.blacklisted ≡ false
      → (r.whitelisted ≡ true) ⊎ (r.is_lover ≡ true)
      → Permits r stronger
  listed : r.permission ≡ pos 3 → (r.whitelisted ≡ true) ⊎ (r.is_lover ≡ true) → Permits r stronger
  lover : r.permission ≡ pos 4 → r.is_lover ≡ true → Permits r stronger

-- Whoever a case of the table of permission levels permits is let through.
pub Permits-allowed :
    (r : Relation) (stronger : Bool) → Permits r stronger → allowed r (some stronger) ≡ some true
unfolding allowed
Permits-allowed r s (everyone h) = ground arith
Permits-allowed r s (oneself h) = ground arith
Permits-allowed r s (owner h) = ground arith
Permits-allowed r s (unless_blacklisted p h) = ground arith
Permits-allowed r s (by_dominance p h k) = ground arith
Permits-allowed r s (trusted p h k) = ground arith
Permits-allowed r s (listed p h) = ground arith
Permits-allowed r s (lover p h) = ground arith

-- A source that is not blacklisted and is let in at one permission level is let in at every lower
-- level, all else the same.
pub allowed-antitone :
    (r : Relation) (stronger : Bool) (p : ℤ)
    → r.blacklisted ≡ false
    → p ≤ℤ r.permission
    → allowed r (some stronger) ≡ some true
    → allowed (record r { permission = p }) (some stronger) ≡ some true
unfolding allowed
allowed-antitone r s p b h e = ground arith

-- Whoever is let through is permitted by a case of the table of permission levels.
pub allowed-Permits :
    (r : Relation) (stronger : Bool) → allowed r (some stronger) ≡ some true → Permits r stronger
unfolding allowed
allowed-Permits r s e = grind (
  arith, everyone, oneself, owner, unless_blacklisted, by_dominance, trusted, listed, lover,
  eq_ℤ_iff,
)
