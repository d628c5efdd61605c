-- ===== src/Ssh/Conn/Ownership.antt =====
-- What a connection holds, and that it is given back.
use esp.Base.{
  if◌then◌else◌, ◌≢◌, ℕ, suc, ◌+◌, ◌≡◌, refl, Bool, true, false, Bool-cases, inl, inr, Option, none,
  some, ◌∷◌, length, arith,
}
use esp.Base.Bytes.{Text}
use esp.Base.Int.{pos}
use esp.Ssh.{
  ◌>>◌, tell, pure, ◌>>=◌, Libssh, Log, M, Outcome, done, undefined, out_of_fuel, continue, called,
  created, libssh_begin, ssh_finalize, ssh_channel_new,
}
use esp.Ssh.Ledger.{ledger, Keeps}
use esp.Ssh.Login.{connect_ssh}
use esp.Ssh.Login.Resources.{returned, connect_ssh-Keeps}
use esp.Ssh.Conn.{
  Pointer, uninitialised, null, at, Conn, is_set, brutal_exception, open_steps, open_channel,
  connect,
}

abbrev pub held : Pointer → ℕ
held uninitialised = 0
held null = 0
held (at p) = 1

-- The sessions and starts of the library that are open are those that the connection holds, and so are
-- the channels, but for `leaked` ones.
pub record Owns (leaked : ℕ) (c : Conn) (log : Log) : Type 0 where
  pub owns_session : (ledger log).sessions_made ≡ (ledger log).sessions_freed + held c.session
  pub owns_channel :
      (ledger log).channels_made ≡ (ledger log).channels_freed + held c.channel + leaked
  pub owns_start : (ledger log).begun ≡ (ledger log).finalized + held c.session

-- It holds nothing.
pub record IsIdle (c : Conn) : Type 0 where
  pub no_session : held c.session ≡ 0
  pub no_channel : held c.channel ≡ 0

-- Both pointers have a value.
pub record IsReady (c : Conn) : Type 0 where
  pub has_session : c.session ≢ uninitialised
  pub has_channel : c.channel ≢ uninitialised

abbrev pub OwnsAfter : ℕ → Outcome (Conn × Bool) → Type 0
OwnsAfter k (done (c, connected) log) =
    Owns k c log × (connected ≡ true → IsReady c × (held c.session ≡ 1) × (held c.channel ≡ 1))
OwnsAfter k undefined = Unit
OwnsAfter k out_of_fuel = Unit

abbrev pub GivenBack : ℕ → Conn → Outcome Conn → Type 0
GivenBack k before (done c log) =
    Owns k c log
    × (c.session ≡ null)
    × (c.channel ≡ null)
    × (c.password ≡ before.password)
    × (c.conn ≡ before.conn)
GivenBack k before undefined = ⊥
GivenBack k before out_of_fuel = ⊥

-- `brutal_exception` on a connection whose pointers have values ends, gives back all that it holds and
-- leaves both pointers null, whatever the library answers.
pub brutal_exception-Owns :
    (E : Libssh) (k : ℕ) (c : Conn) (log : Log)
    → IsReady c
    → Owns k c log
    → GivenBack k c (brutal_exception E c log)
unfolding brutal_exception
brutal_exception-Owns E k c log r o = ground arith

abbrev Unchanged : Log → Outcome Bool → Type 0
Unchanged before (done b log) = ledger log ≡ ledger before
Unchanged before undefined = ⊥
Unchanged before out_of_fuel = ⊥

open_steps-Unchanged : (E : Libssh) (c : ℕ) (log : Log) → Unchanged log (open_steps E c log)
unfolding open_steps
open_steps-Unchanged E c log = ground arith

after_steps :
    (k : ℕ) (before : Log) (m : Outcome Bool) (f : Bool → M (Conn × Bool))
    → Unchanged before m
    → ((b : Bool) (log : Log) → ledger log ≡ ledger before → OwnsAfter k (f b log))
    → OwnsAfter k (continue m f)
after_steps k before (done b log) f u h = h b log u
after_steps k before undefined f u h = absurd u
after_steps k before out_of_fuel f u h = absurd u

after_drop :
    (k : ℕ) (c : Conn) (m : Outcome Conn)
    → GivenBack k c m
    → OwnsAfter k (continue m (λ closed. pure (closed, false)))
after_drop k c (done closed log) g = (g.0, λ e. cc)
after_drop k c undefined g = absurd g
after_drop k c out_of_fuel g = absurd g

module _ (E : Libssh) (k : ℕ) where
  finish_open :
      (that : Conn) (ready : Bool) (log : Log)
      → IsReady that
      → held that.session ≡ 1
      → Owns k that log
      → OwnsAfter k (
          (if ready
              then pure (that, is_set that.channel)
              else (brutal_exception E that >>= λ closed. pure (closed, false)))
            log)
  finish_open that true log r h o = (o, λ e. (r, h, set_held that.channel e))
    where
      set_held : (p : Pointer) → is_set p ≡ true → held p ≡ 1
      set_held uninitialised e = cc
      set_held null e = cc
      set_held (at p) e = refl
  finish_open that false log r h o = after_drop k that _ (brutal_exception-Owns E k that log r o)

  open_channel-Owns :
      (c : Conn) (s : ℕ) (log : Log)
      → c.session ≡ at s
      → held c.channel ≡ 0
      → Owns k c log
      → OwnsAfter k (open_channel E c s log)
  unfolding open_channel
  open_channel-Owns c s log e n o = elim (Bool-cases (E.allocates log (ssh_channel_new s))) [
    | inl a ↦
        let made = suc (length log) in
        let after = created (ssh_channel_new s) ∷ log in
        rw (a, open_channel)
          (after_steps k after (open_steps E made after) _ (open_steps-Unchanged E made after)
            (λ b log' u.
              finish_open (record c { channel = at made }) b log' (ground arith) (ground arith)
                (ground arith)))
    | inr a ↦
        let after = called (ssh_channel_new s) ∷ log in
        rw (a, open_channel)
          (after_steps k after (open_steps E 0 after) _ (open_steps-Unchanged E 0 after)
            (λ b log' u.
              finish_open (record c { channel = null }) b log' (ground arith) (ground arith)
                (ground arith)))
  ]

  after_connect_ssh :
      (c : Conn) (log : Log) (m : Outcome (Option ℕ × Text))
      → IsIdle c
      → Owns k c log
      → Keeps returned (called libssh_begin ∷ log) m
      → OwnsAfter k (
          continue m λ (made, left). elim made [
            | none ↦
                (tell E ssh_finalize >> pure (record c { session = null; password = left }, false))
            | some s ↦ open_channel E (record c { session = at s; password = left }) s
          ])
  after_connect_ssh c log (done (none, left) after) i o k = ground (arith, k)
  after_connect_ssh c log (done (some s, left) after) i o k =
      open_channel-Owns (record c { session = at s; password = left }) s after refl i.no_channel
        (ground (arith, k))
  after_connect_ssh c log undefined i o k = tt
  after_connect_ssh c log out_of_fuel i o k = tt

  -- Connecting with an idle connection: if it ends, the connection holds all that is open, whatever the
  -- library answered and wherever it failed. If it reports success, it holds a session and a
  -- channel.
  pub connect-Owns :
      (fuel : ℕ) (c : Conn) (log : Log)
      → IsIdle c
      → Owns k c log
      → OwnsAfter k (connect E fuel c log)
  unfolding connect
  connect-Owns fuel c log i o =
      after_connect_ssh c log
        (connect_ssh E fuel c.password c.host (some c.user) (pos 0) (called libssh_begin ∷ log)) i o
        (connect_ssh-Keeps E fuel c.password c.host (some c.user) (pos 0)
          (called libssh_begin ∷ log))
