-- ===== src/Control/Ownership.antt =====
-- Who holds the sessions: each branch of the control loop leaves the servers tidy.
use esp.Base.{
  ℕ, ◌≡◌, ◌<◌, refl, Bool, true, false, Bool-cases, inl, inr, Option, none, some, List, [], ◌∷◌,
  get_elem?, length, get_elem?-set_self, if◌then◌else◌, ◌&&◌, arith, leb, length-set,
}
use esp.Base.Bytes.{text, text_eq}
use esp.Base.Int.{to_uint32}
use esp.Strings.{StringApi}
use esp.Ssh.{
  Libssh, Log, M, Outcome, done, undefined, out_of_fuel, continue, pure, ◌>>=◌, called, millis,
}
use esp.Ssh.Ledger.{Opens}
use esp.Ssh.Returns.{Ensures, Ensures-continue}
use esp.Ssh.Conn.{Conn, brutal_exception, connect, write, keep_alive}
use esp.Ssh.Conn.Ownership.{Owns, IsIdle, OwnsAfter, connect-Owns}
use esp.Ssh.Transfer.{exec_cmd, sub32}
use esp.Ssh.Scp.{scp_write, scp_read}
use esp.Control.{
  Control, Mail, server, from_slot, with_server, connect_current, do_switch, do_command, do_upload,
  do_download, do_status, do_keep_alive,
}
use esp.Control.Servers.{OthersIdle, OthersIdle-set, OthersIdle-All, All-set, IsIdle-get, lt_of_get}
use esp.Control.Calm.{
  Excused, exec_cmd-Owns, Calm, brutal_exception-IsIdle, write-Calm, keep_alive-Calm,
  scp_write-Calm, scp_read-Calm,
}

-- Every server but the current one is idle, and the current one holds all that is open, but for channels
-- that were leaked. None is, unless some read of a channel is answered by SSH_ERROR.
pub record Tidy (E : Libssh) (this : Control) (log : Log) : Type 0 where
  pub others : OthersIdle this.servers this.current
  pub at_current : Conn
  pub is_current : get_elem? this.servers this.current ≡ some at_current
  pub leaked : ℕ
  pub owned : Owns leaked at_current log
  pub excused : Excused E leaked

-- The same servers, and nothing was opened or given back.
pub Tidy-Calm :
    {E : Libssh} (this : Control) (mail : Mail) (last : ℕ) (log after : Log)
    → Tidy E this log
    → Opens 0 0 0 log after
    → Tidy E (record this { mail = mail; last_keep_alive = last }) after
Tidy-Calm this mail last log after t o = record {
  others = t.others;
  at_current = t.at_current;
  is_current = t.is_current;
  leaked = t.leaked;
  owned = let w = t.owned in omega arith;
  excused = t.excused;
}

-- The current server in a new state.
pub Tidy-with_server :
    {E : Libssh} (this : Control) (c : Conn) (k : ℕ) (log : Log)
    → OthersIdle this.servers this.current
    → this.current < length this.servers
    → Owns k c log
    → Excused E k
    → Tidy E (with_server this c) log
Tidy-with_server this c k log o h w x = record {
  others = OthersIdle-set this.servers this.current c o;
  at_current = c;
  is_current = get_elem?-set_self this.servers this.current c h;
  leaked = k;
  owned = w;
  excused = x;
}

module _ (S : StringApi) (E : Libssh) (fuel : ℕ) where
  connect_current-Tidy :
      (this : Control) (c : Conn) (k : ℕ) (log : Log)
      → OthersIdle this.servers this.current
      → this.current < length this.servers
      → IsIdle c
      → Owns k c log
      → Excused E k
      → Ensures (Tidy E) (connect_current S E fuel this c log)
  unfolding connect_current
  connect_current-Tidy this c k log o h i w x =
      after (connect E fuel c log) (connect-Owns E k fuel c log i w)
    where
      after :
          (m : Outcome (Conn × Bool))
          → OwnsAfter k m
          → Ensures (Tidy E) (
              continue m
                λ (c', connected). pure (with_server this (record c' { conn = connected })))
      after (done (c', connected) log') a =
          Tidy-with_server this (record c' { conn = connected }) k log' o h
            (record {
              owns_session = a.0.owns_session;
              owns_channel = a.0.owns_channel;
              owns_start = a.0.owns_start;
            })
            x
      after undefined a = tt
      after out_of_fuel a = tt

  -- The server at an index, if there is one.
  pub server-Ensures :
      (P : Control → Log → Type 0) (cs : List Conn) (i : ℕ) (f : Conn → M Control) (log : Log)
      → ((c : Conn) → get_elem? cs i ≡ some c → Ensures P (f c log))
      → Ensures P (continue (server cs i log) f)
  server-Ensures P cs i f log h = split (get_elem? cs i) refl
    where
      split : (o : Option Conn) → get_elem? cs i ≡ o → Ensures P (continue (from_slot o log) f)
      split none e = tt
      split (some c) e = h c e

  -- The mail is of no concern.
  pub Tidy-mail :
      (this : Control) (mail : Mail) (log : Log)
      → Tidy E this log
      → Tidy E (record this { mail = mail }) log
  Tidy-mail this mail log t = Tidy-Calm this mail this.last_keep_alive log log t (omega arith)

  pub do_switch-Tidy :
      (this : Control) (log : Log) (t : Tidy E this log)
      → Ensures (Tidy E) (do_switch S E fuel this t.at_current log)
  unfolding do_switch
  do_switch-Tidy this log t =
      let index = to_uint32 (S.to_int this.mail.switch_ssh) in
      Ensures-continue (λ closed log'. IsIdle closed × Owns t.leaked closed log') (Tidy E)
        (brutal_exception E t.at_current log) _
        (brutal_exception-IsIdle E t.leaked t.at_current log t.owned)
        (λ closed log1 b.
          let left = with_server this (record closed { conn = false }) in
          let idle =
            All-set this.servers this.current (record closed { conn = false }) t.others
              (ground (arith, b.0)) in
          server-Ensures (Tidy E) left.servers index _ log1 (λ target e.
            Ensures-continue (Tidy E) (Tidy E)
              (connect_current S E fuel (record left { current = index }) target log1) _
              (connect_current-Tidy (record left { current = index }) target t.leaked log1
                (OthersIdle-All left.servers index idle) (lt_of_get left.servers index target e)
                (IsIdle-get left.servers index target idle e)
                (handed closed target log1 t.leaked b.0 b.1
                  (IsIdle-get left.servers index target idle e))
                t.excused)
              (λ switched log2 t'.
                Tidy-mail switched (record switched.mail { switch_ssh = [] }) log2 t')))
    where
      handed :
          (closed target : Conn) (log : Log) (k : ℕ)
          → IsIdle closed
          → Owns k closed log
          → IsIdle target
          → Owns k target log
      handed closed target log k i w j = omega arith

  pub do_command-Tidy :
      (this : Control) (log : Log) (t : Tidy E this log)
      → Ensures (Tidy E) (do_command S E fuel this t.at_current log)
  unfolding do_command
  do_command-Tidy this log t =
      Ensures-continue (Calm log) (Tidy E) (write E t.at_current this.mail.ssh_command log) _
        (write-Calm E t.at_current this.mail.ssh_command log)
        (λ r after o.
          Tidy-Calm this (record this.mail { ssh_command = [] }) this.last_keep_alive log after t o)

  pub do_upload-Tidy :
      (this : Control) (log : Log) (t : Tidy E this log)
      → Ensures (Tidy E) (do_upload S E fuel this t.at_current log)
  unfolding do_upload
  do_upload-Tidy this log t =
      Ensures-continue (Calm log) (Tidy E)
        (scp_write E S fuel t.at_current this.mail.upload_command log) _
        (scp_write-Calm E S fuel t.at_current this.mail.upload_command log)
        (λ r after o.
          Tidy-Calm this (record this.mail { upload_command = [] }) this.last_keep_alive log after t
            o)

  pub do_download-Tidy :
      (this : Control) (log : Log) (t : Tidy E this log)
      → Ensures (Tidy E) (do_download S E fuel this t.at_current log)
  unfolding do_download
  do_download-Tidy this log t =
      Ensures-continue (Calm log) (Tidy E) (scp_read E fuel t.at_current this.mail.scp_command log)
        _ (scp_read-Calm E fuel t.at_current this.mail.scp_command log)
        (λ r after o.
          Tidy-Calm this (record this.mail { scp_command = [] }) this.last_keep_alive log after t o)

  pub do_keep_alive-Tidy :
      (this : Control) (log : Log) (t : Tidy E this log)
      → Ensures (Tidy E) (do_keep_alive S E fuel this t.at_current log)
  unfolding do_keep_alive
  do_keep_alive-Tidy this log t =
      let read_log = called millis ∷ log in
      elim (Bool-cases (leb 10000 (sub32 (E.now log) this.last_keep_alive) && t.at_current.conn)) [
        | inl e ↦
            rw (e, do_keep_alive)
              (Ensures-continue (Calm read_log) (Tidy E) (keep_alive E t.at_current read_log) _
                (keep_alive-Calm E t.at_current read_log)
                (λ r after o.
                  Tidy-Calm this this.mail (E.now after) log (called millis ∷ after) t
                    (omega arith)))
        | inr e ↦
            rw (e, do_keep_alive)
              (Tidy-Calm this this.mail this.last_keep_alive log read_log t (omega arith))
      ]

  -- The answer to a status request: the server is alive, or it is connected anew.
  after_status :
      (this : Control) (c : Conn) (k : ℕ) (alive : Bool) (log : Log)
      → OthersIdle this.servers this.current
      → this.current < length this.servers
      → Owns k c log
      → Excused E k
      → Ensures (Tidy E) (
          (if alive
              then pure (with_server this (record c { conn = alive }))
              else (brutal_exception E (record c { conn = alive }) >>= λ closed.
                  connect_current S E fuel (with_server this (record c { conn = alive })) closed))
            log)
  after_status this c k true log o h w x =
      Tidy-with_server this (record c { conn = true }) k log o h (omega arith) x
  after_status this c k false log o h w x =
      let down = record c { conn = false } in
      let seen = with_server this down in
      Ensures-continue (λ closed log'. IsIdle closed × Owns k closed log') (Tidy E)
        (brutal_exception E down log) _ (brutal_exception-IsIdle E k down log (omega arith))
        (λ closed log' b.
          connect_current-Tidy seen closed k log' (OthersIdle-set this.servers this.current down o)
            (omega (arith, length-set {0} this.servers this.current down)) b.0 b.1 x)

  pub do_status-Tidy :
      (this : Control) (log : Log) (t : Tidy E this log)
      → Ensures (Tidy E) (do_status S E fuel this t.at_current log)
  unfolding do_status
  do_status-Tidy this log t =
      let c = t.at_current in
      Ensures-continue (λ r after. (j : ℕ) × Owns j c after × Excused E j) (Tidy E)
        (exec_cmd E S fuel c (text "echo alive") log) _
        (exec_cmd-Owns S E fuel c t.leaked (text "echo alive") log t.owned t.excused)
        (λ output log1 w.
          let alive = text_eq (S.trim output) (text "alive") in
          Ensures-continue (Tidy E) (Tidy E) _ _
            (after_status this c w.0 alive log1 t.others
              (lt_of_get this.servers this.current c t.is_current) w.1 w.2)
            (λ checked log2 t'.
              Tidy-mail checked (record checked.mail { hp_1_status_req = false }) log2 t'))
