-- ===== src/Clients/Locks.antt =====
-- Who holds a table's lock, and what a close that misses it leaves behind.
use esp.Base.{
  ℕ, ◌+◌, ◌≤◌, ◌<◌, ◌≡◌, ◌≢◌, ◌⊎◌, ◌↔◌, Bool, true, false, Option, none, some, List, [], ◌∷◌,
  if◌then◌else◌, arith, All, inl, refl,
}
use esp.Clients.{
  Registry, LockCall, take, give, ssh_create, ssh_on_close, fan_create, fan_on_close, ssh_broadcast,
  fan_broadcast, recipients,
}
use esp.Clients.Spec.{Members, Call, creates, closes, member_step, member_run, Table, run, sent}
use esp.Clients.Counts.{count}
use esp.Clients.Refinement.{IsReady, view, sent-run}

pub lock_run : Bool → List LockCall → Option Bool
lock_run held [] = some held
lock_run held (take got ∷ cs) = if held then none else lock_run got cs
lock_run held (give ∷ cs) = if held then lock_run false cs else none

-- How often a section asks for the lock.
pub takes : List LockCall → ℕ
takes [] = 0
takes (take got ∷ cs) = takes cs + 1
takes (give ∷ cs) = takes cs

-- It asks at most once, and gives back just what it took.
abbrev pub Balanced : List LockCall → Type 0
Balanced cs = (takes cs ≤ 1) × (lock_run false cs ≡ some false)

-- Opening, closing and the broadcast of terminal output ask for the lock at most once and give back
-- just what they took, on every branch, and the broadcast of the fan's speed asks at most once. This last one gives
-- back just what it took exactly when it got the lock: when it did not, it gives a lock that it
-- does not hold.
pub sections-Balanced :
    (r : Registry) (got : Bool) (h : ℕ)
    → Balanced (ssh_create r got h).1
      × Balanced (fan_create r got h).1
      × Balanced (ssh_on_close r got h).1
      × Balanced (fan_on_close r got h).1
      × Balanced (ssh_broadcast r got).1
      × (takes (fan_broadcast r got).1 ≤ 1)
      × ((lock_run false (fan_broadcast r got).1 ≡ some false)
          ↔ ((r.has_mutex ≡ true) × (got ≡ true)))
unfolding ssh_create fan_create ssh_on_close fan_on_close ssh_broadcast fan_broadcast lock_run takes
sections-Balanced r got h = ground arith

-- A call that does not take the client out of its table.
abbrev pub Leaves : ℕ → Call → Type 0
Leaves a (creates h got) = Unit
Leaves a (closes h got) = (got ≡ false) ⊎ (h ≢ a)

member_step-Leaves :
    (m : Members) (a : ℕ) (c : Call) → Leaves a c → m.times a ≤ (member_step m c).times a
unfolding member_step
member_step-Leaves m a (creates h got) l = ground arith
member_step-Leaves m a (closes h got) l = ground arith

member_run-Leaves :
    (m : Members) (a : ℕ) (cs : List Call)
    → All (Leaves a) cs
    → m.times a ≤ (member_run m cs).times a
unfolding member_run
member_run-Leaves m a [] l = omega arith
member_run-Leaves m a (c ∷ cs) l =
    omega (arith, member_step-Leaves m a c l.0, member_run-Leaves (member_step m c) a cs l.1)

-- A client that closes while the lock is busy stays in its table: every later broadcast under the
-- lock still sends to it, until some call closes it under the lock.
pub stale_after_close :
    (t : Table) (r : Registry) (h : ℕ) (cs : List Call)
    → IsReady r
    → 0 < count h (recipients r.slots)
    → All (Leaves h) cs
    → 0 < count h (sent t (run t r (closes h false ∷ cs)) true)
unfolding view
stale_after_close t r h cs v stands l = omega (
  arith,
  (sent-run t r (closes h false ∷ cs) h v).0,
  member_run-Leaves (view r) h (closes h false ∷ cs) (inl refl, l),
)
