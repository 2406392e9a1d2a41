-- ===== src/Accounts/Login/Process/Order.antt =====
-- Whom one run of the login queue (`run_login_queue`, account_manager.cpp) serves, and in which order.
use studio_bondage_club.Prelude.{
  ℕ, zero, suc, ◌≤◌, ◌≡◌, refl, ap, Bool, true, false, Option, none, some, List, [], ◌∷◌, length,
  if◌then◌else◌, M, arith,
}
use studio_bondage_club.Json.{JsonLib}
use studio_bondage_club.Accounts.Desk.{Desk, Waiting, next_login, more_logins}
use studio_bondage_club.Accounts.Login.Process
use studio_bondage_club.Accounts.Login.Process.{Run, run_login_queue}
use studio_bondage_club.Chat.State.{Game}

module _ (J : JsonLib) where
  -- Logins one after another, up to the first that throws: whose turn it was, who is left, whether one
  -- has thrown, and the state.
  pub record InOrder : Type 0 where
    pub turns : List Waiting
    pub left : List Waiting
    pub threw : Bool
    pub game : Game J

  module _ (login : Waiting → M (Game J) (Unit {0})) where
    abbrev in_order_after :
        Waiting → List Waiting → (Game J → InOrder) → Option (Unit {0}) × Game J → InOrder
    in_order_after w ws rest (none, g) = record {
      turns = w ∷ [];
      left = ws;
      threw = true;
      game = g;
    }
    in_order_after w ws rest (some _, g) = record (rest g) { turns = w ∷ (rest g).turns }

    unfoldable pub in_order : List Waiting → Game J → InOrder
    in_order [] g = record { turns = []; left = []; threw = false; game = g }
    in_order (w ∷ ws) g = in_order_after w ws (in_order ws) (login w g)

    -- The loop's end: the flag is reset unless a login has thrown.
    abbrev pub ended : Desk J → InOrder → Run J
    ended d o = record {
      turns = o.turns;
      threw = o.threw;
      desk = record d { queue = o.left; running = if o.threw then d.running else false };
      game = o.game;
    }

    unless_thrown-in_order :
        (loop : Desk J → Game J → Run J) (d : Desk J) (w : Waiting) (ws : List Waiting)
        (r : Option (Unit {0}) × Game J)
        → ((g : Game J)
            → Process.go_on J login loop (more_logins J (record d { queue = ws })) g
              ≡ ended d (in_order ws g))
        → Process.after_turn J login w
            (Process.unless_thrown J login loop (record d { queue = ws }) r)
          ≡ ended d (in_order_after w ws (in_order ws) r)
    unfolding Process.unless_thrown
    unless_thrown-in_order loop d w ws (none, g) h = refl
    unless_thrown-in_order loop d w ws (some u, g) h =
        ap (λ (r : Run J). record r { turns = w ∷ r.turns }) (h g)

    -- One run of the loop, while nobody arrives, takes the clients one after another in the order of
    -- their arrival. If no login throws, all have their turn, none is left and the flag is reset; if one
    -- throws, the clients behind it are left in the queue and the flag stays as it is. One round more
    -- than there are clients behind the first is enough.
    pub run_login_queue-in_order :
        (n : ℕ) (d : Desk J) (w : Waiting) (ws : List Waiting) (g : Game J)
        → length ws ≤ n
        → run_login_queue J login (suc n) (record d { queue = w ∷ ws }) g
          ≡ ended d (in_order (w ∷ ws) g)
    unfolding run_login_queue next_login more_logins in_order Process.go_on Process.serve
    run_login_queue-in_order n d w [] g h =
        unless_thrown-in_order (run_login_queue J login n) d w [] (login w g) (λ g'. refl)
    run_login_queue-in_order zero d w (v ∷ ws) g h = absurd (omega (arith, h))
    run_login_queue-in_order (suc n) d w (v ∷ ws) g h =
        unless_thrown-in_order (run_login_queue J login (suc n)) d w (v ∷ ws) (login w g)
          λ g'. run_login_queue-in_order n d v ws g' (omega (arith, h))
