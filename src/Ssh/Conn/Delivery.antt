-- ===== src/Ssh/Conn/Delivery.antt =====
-- When `connect` comes to an end.
use esp.Base.{
  if◌then◌else◌, true, false, Bool-cases, inl, inr, ℕ, suc, ◌≤◌, ◌≢◌, Bool, Option, none, some, ◌∷◌,
  length, arith,
}
use esp.Base.Bytes.{Text}
use esp.Base.Int.{pos}
use esp.Ssh.{
  Libssh, Log, called, libssh_begin, ssh_channel_new, created, ssh_finalize, M, Outcome, done,
  undefined, out_of_fuel, ◌>>=◌, ◌>>◌, tell, pure,
}
use esp.Ssh.Login.{connect_ssh}
use esp.Ssh.Login.Ends.{Ends, Ends-continue, IsPatient, connect_ssh-Ends}
use esp.Ssh.Conn.Ownership.{Owns, IsIdle, OwnsAfter, connect-Owns}
use esp.Ssh.Conn.{
  is_set, uninitialised, null, at, Conn, brutal_exception, open_steps, open_channel, connect,
}

module _ (E : Libssh) where
  open_steps-Ends : (c : ℕ) (log : Log) → Ends (open_steps E c log)
  unfolding open_steps
  open_steps-Ends c log = ground arith

  brutal_exception-Ends :
      (c : Conn) (log : Log)
      → c.channel ≢ uninitialised
      → c.session ≢ uninitialised
      → Ends (brutal_exception E c log)
  unfolding brutal_exception
  brutal_exception-Ends c log h k = ground arith

  finish_open-Ends :
      (that : Conn) (ready : Bool) (log : Log)
      → that.channel ≢ uninitialised
      → that.session ≢ uninitialised
      → Ends {A = Conn × Bool} (
          (if ready
              then pure (that, is_set that.channel)
              else (brutal_exception E that >>= λ closed. pure (closed, false)))
            log)
  finish_open-Ends that true log h k = tt
  finish_open-Ends that false log h k =
      Ends-continue (brutal_exception E that log) _ (brutal_exception-Ends that log h k)
        (λ closed after. tt)

  open_channel-Ends :
      (c : Conn) (s : ℕ) (log : Log) → c.session ≢ uninitialised → Ends (open_channel E c s log)
  unfolding open_channel
  open_channel-Ends c s log k = elim (Bool-cases (E.allocates log (ssh_channel_new s))) [
    | inl a ↦
        let made = suc (length log) in
        let after = created (ssh_channel_new s) ∷ log in
        rw (a, open_channel)
          (Ends-continue (open_steps E made after) _ (open_steps-Ends made after)
            (λ b log'. finish_open-Ends (record c { channel = at made }) b log' (λ e. cc) k))
    | inr a ↦
        let after = called (ssh_channel_new s) ∷ log in
        rw (a, open_channel)
          (Ends-continue (open_steps E 0 after) _ (open_steps-Ends 0 after)
            (λ b log'. finish_open-Ends (record c { channel = null }) b log' (λ e. cc) k))
  ]

  after_connect_ssh-Ends :
      (c : Conn) (made : Option ℕ) (left : Text) (log : Log)
      → Ends (
          (elim made as (λ m. M (Conn × Bool)) [
            | none ↦
                (tell E ssh_finalize >> pure (record c { session = null; password = left }, false))
            | some s ↦ open_channel E (record c { session = at s; password = left }) s
          ])
            log)
  after_connect_ssh-Ends c none left log = tt
  after_connect_ssh-Ends c (some s) left log =
      open_channel-Ends (record c { session = at s; password = left }) s log (λ e. cc)

  pub connect-Ends :
      (n : ℕ) (c : Conn) (log : Log)
      → IsPatient E n
      → 3 ≤ length c.password
      → Ends (connect E (suc n) c log)
  unfolding connect
  connect-Ends n c log patient long =
      Ends-continue
        (connect_ssh E (suc n) c.password c.host (some c.user) (pos 0) (called libssh_begin ∷ log))
        _
        (connect_ssh-Ends E n patient c.password long c.host (some c.user) (pos 0)
          (called libssh_begin ∷ log))
        (λ r after. after_connect_ssh-Ends c r.0 r.1 after)

-- A result, and a connection that holds all that is open.
abbrev pub Delivered : ℕ → Outcome (Conn × Bool) → Type 0
Delivered k (done r log) = OwnsAfter k (done r log)
Delivered k undefined = ⊥
Delivered k out_of_fuel = ⊥

both : (k : ℕ) (m : Outcome (Conn × Bool)) → Ends m → OwnsAfter k m → Delivered k m
both k (done r log) e o = o
both k undefined e o = e
both k out_of_fuel e o = e

-- Connecting with an idle connection whose password has three bytes or more ends, with nothing
-- undefined, if every server offers passwords and from some call on no password is denied or put off.
-- Then the connection holds all that is open, and after a success a session and a channel. Fuel of
-- one more than the number of that call is enough.
pub connect-Delivered :
    (E : Libssh) (n k : ℕ) (c : Conn) (log : Log)
    → IsPatient E n
    → 3 ≤ length c.password
    → IsIdle c
    → Owns k c log
    → Delivered k (connect E (suc n) c log)
connect-Delivered E n k c log patient long i o =
    both k (connect E (suc n) c log) (connect-Ends E n c log patient long)
      (connect-Owns E k (suc n) c log i o)
