-- ===== src/Control/Servers.antt =====
-- The list of servers, of which at most the current one holds anything.
use esp.Base.{ℕ, zero, suc, ◌≡◌, ◌<◌, some, List, [], ◌∷◌, get_elem?, set, length, All, arith}
use esp.Ssh.Conn.{Conn}
use esp.Ssh.Conn.Ownership.{IsIdle}

-- Every server but the one at the index is idle.
abbrev pub OthersIdle : List Conn → ℕ → Type 0
OthersIdle [] i = Unit
OthersIdle (c ∷ cs) zero = All IsIdle cs
OthersIdle (c ∷ cs) (suc i) = IsIdle c × OthersIdle cs i

pub OthersIdle-set :
    (cs : List Conn) (i : ℕ) (c : Conn) → OthersIdle cs i → OthersIdle (set cs i c) i
OthersIdle-set [] i c o = tt
OthersIdle-set (d ∷ cs) zero c o = o
OthersIdle-set (d ∷ cs) (suc i) c o = (o.0, OthersIdle-set cs i c o.1)

pub OthersIdle-All : (cs : List Conn) (i : ℕ) → All IsIdle cs → OthersIdle cs i
OthersIdle-All [] i a = tt
OthersIdle-All (c ∷ cs) zero a = a.1
OthersIdle-All (c ∷ cs) (suc i) a = (a.0, OthersIdle-All cs i a.1)

-- With an idle server in place of the current one, all are idle.
pub All-set :
    (cs : List Conn) (i : ℕ) (c : Conn) → OthersIdle cs i → IsIdle c → All IsIdle (set cs i c)
All-set [] i c o d = tt
All-set (e ∷ cs) zero c o d = (d, o)
All-set (e ∷ cs) (suc i) c o d = (o.0, All-set cs i c o.1 d)

pub IsIdle-get :
    (cs : List Conn) (i : ℕ) (c : Conn) → All IsIdle cs → get_elem? cs i ≡ some c → IsIdle c
IsIdle-get [] i c a e = cc
IsIdle-get (d ∷ cs) zero c a e = ground (arith, a.0)
IsIdle-get (d ∷ cs) (suc i) c a e = IsIdle-get cs i c a.1 e

pub lt_of_get : (cs : List Conn) (i : ℕ) (c : Conn) → get_elem? cs i ≡ some c → i < length cs
lt_of_get [] i c e = cc
lt_of_get (d ∷ cs) zero c e = omega arith
lt_of_get (d ∷ cs) (suc i) c e = omega (arith, lt_of_get cs i c e)
