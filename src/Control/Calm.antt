-- ===== src/Control/Calm.antt =====
-- The calls of the control loop that open nothing, and what a failing command leaves.
use esp.Base.{◌+◌, ℕ, ◌≡◌, ◌≢◌, ◌⊎◌, refl, Bool, inl, inr, arith}
use esp.Base.Bytes.{Text}
use esp.Base.Int.{ℤ}
use esp.Strings.{StringApi}
use esp.Clients.{Registry}
use esp.Ssh.{Libssh, Log, Outcome, done, undefined, out_of_fuel}
use esp.Ssh.Ledger.{Opens}
use esp.Ssh.Returns.{Ensures}
use esp.Ssh.Conn.{Pointer, uninitialised, null, at, Conn, brutal_exception, write, keep_alive, load}
use esp.Ssh.Conn.Ownership.{Owns, IsIdle}
use esp.Ssh.Transfer.{read, exec_cmd}
use esp.Ssh.Transfer.Channels.{ReadFails, GivesBack, exec_cmd-GivesBack}
use esp.Ssh.Scp.{scp_write, scp_read}
use esp.Ssh.Scp.Handles.{Leaves, scp_write-Leaves}
use esp.Ssh.Scp.Receiving.{Returned, scp_read-Returned}

-- Nothing was opened or given back.
abbrev pub Calm : {A : Type 0} → Log → A → Log → Type 0
Calm before a after = Opens 0 0 0 before after

pub Pointer-cases : (p : Pointer) → (p ≡ uninitialised) ⊎ (p ≢ uninitialised)
Pointer-cases uninitialised = inl refl
Pointer-cases null = inr (λ e. cc)
Pointer-cases (at s) = inr (λ e. cc)

module _ (E : Libssh) where
  pub brutal_exception-IsIdle :
      (k : ℕ) (c : Conn) (log : Log)
      → Owns k c log
      → Ensures (λ closed log'. IsIdle closed × Owns k closed log') (brutal_exception E c log)
  unfolding brutal_exception
  brutal_exception-IsIdle k c log o = ground arith

  pub write-Calm :
      (c : Conn) (command : Text) (log : Log) → Ensures (Calm log) (write E c command log)
  unfolding write
  write-Calm c command log = ground arith

  pub keep_alive-Calm : (c : Conn) (log : Log) → Ensures (Calm log) (keep_alive E c log)
  unfolding keep_alive
  keep_alive-Calm c log = ground arith

  pub read-Calm :
      (clients : Registry) (got : Bool) (c : Conn) (log : Log)
      → Ensures (Calm log) (read E clients got c log)
  unfolding read
  read-Calm clients got c log = ground arith

  pub scp_write-Calm :
      (S : StringApi) (fuel : ℕ) (c : Conn) (path : Text) (log : Log)
      → Ensures (Calm log) (scp_write E S fuel c path log)
  scp_write-Calm S fuel c path log = elim (Pointer-cases c.session) [
    | inl e ↦ unset c e
    | inr e ↦ of_Leaves (scp_write E S fuel c path log) (scp_write-Leaves E S fuel c path log e)
  ]
    where
      of_Leaves : (m : Outcome ℤ) → Leaves 0 log m → Ensures (Calm log) m
      of_Leaves (done rc after) l = l.others
      of_Leaves undefined l = tt
      of_Leaves out_of_fuel l = tt

      unset :
          (c : Conn)
          → c.session ≡ uninitialised
          → Ensures (Calm log) (scp_write E S fuel c path log)
      unset c e = unfold scp_write in rw (e, load) tt

  pub scp_read-Calm :
      (fuel : ℕ) (c : Conn) (path : Text) (log : Log)
      → Ensures (Calm log) (scp_read E fuel c path log)
  scp_read-Calm fuel c path log =
      of_Returned (scp_read E fuel c path log) (scp_read-Returned E fuel c path log)
    where
      of_Returned : (m : Outcome ℤ) → Returned log m → Ensures (Calm log) m
      of_Returned (done rc after) (inl o) = o.others
      of_Returned (done rc after) (inr (o, e)) = o.others
      of_Returned undefined r = tt
      of_Returned out_of_fuel r = tt

-- Channels are leaked only with a library that answers some read of a channel by SSH_ERROR.
abbrev pub Excused : Libssh → ℕ → Type 0
Excused E leaked = (leaked ≡ 0) ⊎ ReadFails E

module _ (S : StringApi) (E : Libssh) (fuel : ℕ) where
  -- A command on the current server leaks at most its channel, and only if a read can fail.
  pub exec_cmd-Owns :
      (c : Conn) (k : ℕ) (command : Text) (log : Log)
      → Owns k c log
      → Excused E k
      → Ensures
          (λ r after. (j : ℕ) × Owns j c after × Excused E j)
          (exec_cmd E S fuel c command log)
  exec_cmd-Owns c k command log w x = elim (Pointer-cases c.session) [
    | inl e ↦ unset c e
    | inr e ↦
        of_GivesBack (exec_cmd E S fuel c command log) (exec_cmd-GivesBack E S fuel c command log e)
  ]
    where
      of_GivesBack :
          (m : Outcome Text)
          → GivesBack E log m
          → Ensures (λ r after. (j : ℕ) × Owns j c after × Excused E j) m
      of_GivesBack (done r after) (inl o) = (k, omega arith, x)
      of_GivesBack (done r after) (inr (o, e, failed)) = (k + 1, omega arith, inr failed)
      of_GivesBack undefined g = tt
      of_GivesBack out_of_fuel g = tt

      unset :
          (c : Conn)
          → c.session ≡ uninitialised
          → Ensures
              (λ r after. (j : ℕ) × Owns j c after × Excused E j)
              (exec_cmd E S fuel c command log)
      unset c e = unfold exec_cmd in rw (e, load) tt
