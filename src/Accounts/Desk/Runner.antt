-- ===== src/Accounts/Desk/Runner.antt =====
-- The coroutines that serve the login queue (`enqueue_login` and `run_login_queue`,
-- account_manager.cpp), interleaved at their waits: how many of them are alive. A login that throws
-- ends the coroutine it runs in, which is detached, and so nobody learns of it.
use studio_bondage_club.Prelude.{
  ℕ, suc, ◌+◌, ◌≡◌, refl, sym, ap, ◌∙◌, Bool, true, false, Option, none, some, List, [], ◌∷◌, ◌++◌,
  if◌then◌else◌, is_nil, arith,
}
use mathlib.Core.List.{append_assoc, append-nil}
use studio_bondage_club.Json.{JsonLib}
use studio_bondage_club.Accounts.Desk.{Desk, Waiting, join_queue, next_login, more_logins}

module _ (J : JsonLib) where
  -- The runners about to take a client from the queue, those busy with a client, and those that a
  -- login has ended by an exception.
  pub record Pool : Type 0 where
    pub desk : Desk J
    pub taking : ℕ
    pub working : ℕ
    pub failed : ℕ

  abbrev taken : Option Waiting × Desk J → Pool → Pool
  taken (none, d) p = record p { desk = d }
  taken (some w, d) p = record p { desk = d; working = suc p.working }

  abbrev finished : Bool × Desk J → Pool → Pool
  finished (false, d) p = record p { desk = d }
  finished (true, d) p = record p { desk = d; taking = suc p.taking }

  -- A client arrives, and starts a runner if none is running.
  unfoldable pub arrive : Waiting → Pool → Pool
  arrive w p = record p {
    desk = join_queue J w p.desk;
    taking = if p.desk.running then p.taking else suc p.taking;
  }

  -- One of the runners goes on; `n` are left that are about to take a client, or that are busy.
  unfoldable pub take_next : ℕ → Pool → Pool
  take_next n p = taken (next_login J p.desk) (record p { taking = n })

  unfoldable pub finish : ℕ → Pool → Pool
  finish n p = finished (more_logins J p.desk) (record p { working = n })

  -- The login of a busy runner throws, out of the coroutine.
  unfoldable pub fail : ℕ → Pool → Pool
  fail n p = record p { working = n; failed = suc p.failed }

  -- Every order of arrivals and of the runners' steps.
  pub data Serves (p : Pool) : Pool → Type 0 where
    start : Serves p p
    arrives : {q : Pool} → Serves p q → (w : Waiting) → Serves p (arrive w q)
    takes : {q : Pool} → Serves p q → (n : ℕ) → q.taking ≡ suc n → Serves p (take_next n q)
    finishes : {q : Pool} → Serves p q → (n : ℕ) → q.working ≡ suc n → Serves p (finish n q)
    fails : {q : Pool} → Serves p q → (n : ℕ) → q.working ≡ suc n → Serves p (fail n q)

  -- Exactly if the flag is set there is a runner, alive or ended by an exception, and then there is
  -- one; the flag is set while a client waits.
  pub record IsSingle (p : Pool) : Type 0 where
    pub alive : p.taking + p.working + p.failed ≡ (if p.desk.running then 1 else 0)
    pub served : is_nil p.desk.queue ≡ false → p.desk.running ≡ true

  arrive-IsSingle : (w : Waiting) (p : Pool) → IsSingle p → IsSingle (arrive w p)
  unfolding arrive join_queue
  arrive-IsSingle w p s = record { alive = ground (arith, s.alive); served = λ h. refl }

  take_next-IsSingle : (n : ℕ) (p : Pool) → p.taking ≡ suc n → IsSingle p → IsSingle (take_next n p)
  unfolding take_next next_login
  take_next-IsSingle n p e s = record {
    alive = ground (arith, e, s.alive, s.served);
    served = ground (arith, e, s.alive, s.served);
  }

  finish-IsSingle : (n : ℕ) (p : Pool) → p.working ≡ suc n → IsSingle p → IsSingle (finish n p)
  unfolding finish more_logins
  finish-IsSingle n p e s = record {
    alive = ground (arith, e, s.alive, s.served);
    served = ground (arith, e, s.alive, s.served);
  }

  fail-IsSingle : (n : ℕ) (p : Pool) → p.working ≡ suc n → IsSingle p → IsSingle (fail n p)
  unfolding fail
  fail-IsSingle n p e s = record { alive = omega (arith, e, s.alive); served = s.served }

  -- Whatever the order in which clients arrive and the queue's coroutines go on or are ended by a login
  -- that throws: from a state in which the coroutines that are alive or ended by an exception are one if
  -- the flag is set and none if not, and the flag is set while a client waits, this stays so. No second
  -- coroutine is ever started, and a client waits without one only if a login has thrown.
  pub Serves-IsSingle : (p q : Pool) → Serves p q → IsSingle p → IsSingle q
  Serves-IsSingle p _ start s = s
  Serves-IsSingle p _ (arrives {q} before w) s = arrive-IsSingle w q (Serves-IsSingle p q before s)
  Serves-IsSingle p _ (takes {q} before n e) s =
      take_next-IsSingle n q e (Serves-IsSingle p q before s)
  Serves-IsSingle p _ (finishes {q} before n e) s =
      finish-IsSingle n q e (Serves-IsSingle p q before s)
  Serves-IsSingle p _ (fails {q} before n e) s = fail-IsSingle n q e (Serves-IsSingle p q before s)

  -- No runner is alive after one has failed, and the clients that wait stay, in front of those that
  -- have come since.
  pub record IsStuck (waiting : List Waiting) (q : Pool) : Type 0 where
    pub later : List Waiting
    pub queue : q.desk.queue ≡ waiting ++ later
    pub idle : q.taking + q.working ≡ 0
    pub set : q.desk.running ≡ true

  arrive-IsStuck :
      (ws : List Waiting) (w : Waiting) (q : Pool) → IsStuck ws q → IsStuck ws (arrive w q)
  unfolding arrive join_queue
  arrive-IsStuck ws w q s = record {
    later = s.later ++ w ∷ [];
    queue = ap (λ l. l ++ w ∷ []) s.queue ∙ append_assoc ws s.later (w ∷ []);
    idle = ground (arith, s.idle, s.set);
    set = refl;
  }

  first-IsStuck : (p : Pool) → IsSingle p → p.failed ≡ 1 → IsStuck p.desk.queue p
  first-IsStuck p s f = record {
    later = [];
    queue = sym (append-nil p.desk.queue);
    idle = ground (arith, s.alive, f);
    set = ground (arith, s.alive, f);
  }

  -- Once a login has thrown, no client is served any more: whatever happens later, no coroutine is
  -- alive, the flag stays set, and whoever waited still waits, in front of all that came later.
  pub Serves-IsStuck :
      (p q : Pool) → Serves p q → IsSingle p → p.failed ≡ 1 → IsStuck p.desk.queue q
  Serves-IsStuck p _ start s f = first-IsStuck p s f
  Serves-IsStuck p _ (arrives {q} before w) s f =
      arrive-IsStuck p.desk.queue w q (Serves-IsStuck p q before s f)
  Serves-IsStuck p _ (takes {q} before n e) s f =
      absurd (omega (arith, e, (Serves-IsStuck p q before s f).idle))
  Serves-IsStuck p _ (finishes {q} before n e) s f =
      absurd (omega (arith, e, (Serves-IsStuck p q before s f).idle))
  Serves-IsStuck p _ (fails {q} before n e) s f =
      absurd (omega (arith, e, (Serves-IsStuck p q before s f).idle))
