-- ===== src/Clients/Spec.antt =====
-- What a table of clients promises, with the order of its slots forgotten: how often each client
-- stands in it, and how many there are.
use esp.Base.{ℕ, ◌+◌, ◌-◌, Bool, List, [], ◌∷◌, ltb, ◌==◌, if◌then◌else◌}
use esp.Clients.{
  max_clients, Registry, ssh_create, ssh_on_close, fan_create, fan_on_close, ssh_broadcast,
  fan_broadcast,
}

pub record Members : Type 0 where
  pub times : ℕ → ℕ
  pub size : ℕ

-- A call by the server: a connection opens or closes, and the take got the mutex or not.
pub data Call : Type 0 where
  creates : ℕ → Bool → Call
  closes : ℕ → Bool → Call

-- A client enters while there is room; a closed one is gone. Without the lock nothing changes.
unfoldable pub member_step : Members → Call → Members
member_step m (creates h got) =
    if got
    then if ltb m.size max_clients
      then record { times = λ a. if a == h then m.times a + 1 else m.times a; size = m.size + 1 }
      else m
    else m
member_step m (closes h got) =
    if got
    then record { times = λ a. if a == h then 0 else m.times a; size = m.size - m.times h }
    else m

unfoldable pub member_run : Members → List Call → Members
member_run m [] = m
member_run m (c ∷ cs) = member_run (member_step m c) cs

-- The two tables have the same operations, each by its own class.
pub data Table : Type 0 where
  ssh_table fan_table : Table

-- The code's step and run.
unfoldable pub step : Table → Registry → Call → Registry
step ssh_table r (creates h got) = (ssh_create r got h).0
step ssh_table r (closes h got) = (ssh_on_close r got h).0
step fan_table r (creates h got) = (fan_create r got h).0
step fan_table r (closes h got) = (fan_on_close r got h).0

unfoldable pub run : Table → Registry → List Call → Registry
run t r [] = r
run t r (c ∷ cs) = run t (step t r c) cs

-- The clients that a broadcast by `read` or by `loop` sends to.
unfoldable pub sent : Table → Registry → Bool → List ℕ
sent ssh_table r got = (ssh_broadcast r got).0
sent fan_table r got = (fan_broadcast r got).0

-- How many of the calls open this client.
unfoldable pub creations : ℕ → List Call → ℕ
creations a [] = 0
creations a (creates h got ∷ cs) = (if a == h then 1 else 0) + creations a cs
creations a (closes h got ∷ cs) = creations a cs
