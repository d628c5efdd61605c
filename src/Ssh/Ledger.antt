-- ===== src/Ssh/Ledger.antt =====
-- What a log creates and gives back.
use esp.Base.{ℕ, ◌+◌, ◌≡◌, [], ◌∷◌, arith}
use esp.Ssh.{
  M, Outcome, done, undefined, out_of_fuel, continue, libssh_begin, ssh_finalize, ssh_new, ssh_free,
  ssh_channel_new, ssh_channel_free, ssh_scp_new_write, ssh_scp_new_read, ssh_scp_free, Event,
  called, created, Log,
}

pub record Ledger : Type 0 where
  pub sessions_made : ℕ
  pub sessions_freed : ℕ
  pub channels_made : ℕ
  pub channels_freed : ℕ
  pub begun : ℕ
  pub finalized : ℕ
  pub scps_made : ℕ
  pub scps_freed : ℕ

abbrev pub enter : Event → Ledger → Ledger
enter (created ssh_new) l = record l { sessions_made = l.sessions_made + 1 }
enter (created (ssh_channel_new s)) l = record l { channels_made = l.channels_made + 1 }
enter (called (ssh_free s)) l = record l { sessions_freed = l.sessions_freed + 1 }
enter (called (ssh_channel_free c)) l = record l { channels_freed = l.channels_freed + 1 }
enter (called libssh_begin) l = record l { begun = l.begun + 1 }
enter (called ssh_finalize) l = record l { finalized = l.finalized + 1 }
enter (created (ssh_scp_new_write s path)) l = record l { scps_made = l.scps_made + 1 }
enter (created (ssh_scp_new_read s path)) l = record l { scps_made = l.scps_made + 1 }
enter (called (ssh_scp_free c)) l = record l { scps_freed = l.scps_freed + 1 }
enter _ l = l

abbrev pub ledger : Log → Ledger
ledger [] = record {
  sessions_made = 0;
  sessions_freed = 0;
  channels_made = 0;
  channels_freed = 0;
  begun = 0;
  finalized = 0;
  scps_made = 0;
  scps_freed = 0;
}
ledger (e ∷ log) = enter e (ledger log)

-- From the first log to the second so many more sessions, channels and starts of the library
-- are open.
pub record Opens (sessions channels starts : ℕ) (before after : Log) : Type 0 where
  pub sessions_opened :
      (ledger after).sessions_made + (ledger before).sessions_freed
      ≡ (ledger before).sessions_made + (ledger after).sessions_freed + sessions
  pub channels_opened :
      (ledger after).channels_made + (ledger before).channels_freed
      ≡ (ledger before).channels_made + (ledger after).channels_freed + channels
  pub starts_opened :
      (ledger after).begun + (ledger before).finalized
      ≡ (ledger before).begun + (ledger after).finalized + starts

pub Opens-trans :
    {a b c d e f : ℕ} {x y z : Log}
    → Opens a b c x y
    → Opens d e f y z
    → Opens (a + d) (b + e) (c + f) x z
Opens-trans p q = omega arith

-- What a computation that ends opens, by its result.
abbrev pub Keeps : {A : Type 0} → (A → ℕ) → Log → Outcome A → Type 0
Keeps opened before (done a after) = Opens (opened a) 0 0 before after
Keeps opened before undefined = Unit
Keeps opened before out_of_fuel = Unit

-- The rule for a step and what follows it.
pub Keeps-continue :
    {A B : Type 0} (mid : A → ℕ) (opened : B → ℕ) (before : Log) (m : Outcome A) (f : A → M B)
    → Keeps mid before m
    → ((a : A) (log : Log) → Opens (mid a) 0 0 before log → Keeps opened before (f a log))
    → Keeps opened before (continue m f)
Keeps-continue mid opened before (done a log) f k h = h a log k
Keeps-continue mid opened before undefined f k h = tt
Keeps-continue mid opened before out_of_fuel f k h = tt

-- A step that opens nothing may stand in front.
pub Keeps-after :
    {A : Type 0} (opened : A → ℕ) (before log : Log) (m : Outcome A)
    → Opens 0 0 0 before log
    → Keeps opened log m
    → Keeps opened before m
Keeps-after opened before log (done a after) o k = omega arith
Keeps-after opened before log undefined o k = tt
Keeps-after opened before log out_of_fuel o k = tt

-- A step that opens so many sessions stands in front of one that opens none.
pub Keeps-shift :
    {A : Type 0} (n : ℕ) (before log : Log) (m : Outcome A)
    → Opens n 0 0 before log
    → Keeps (λ a. 0) log m
    → Keeps (λ a. n) before m
Keeps-shift n before log (done a after) o k = omega arith
Keeps-shift n before log undefined o k = tt
Keeps-shift n before log out_of_fuel o k = tt
