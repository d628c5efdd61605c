-- ===== src/Control/Runs.antt =====
-- Who holds the sessions, over any run of the control task.
use esp.Base.{
  refl, inl, sym, subst, get_elem?-set_self, ℕ, ◌≡◌, Bool, true, false, some, List, [], ◌∷◌,
  get_elem?, set, All, if◌then◌else◌, arith,
}
use esp.Strings.{StringApi}
use esp.Clients.{Registry}
use esp.Ssh.{
  Libssh, Log, Outcome, done, undefined, out_of_fuel, continue, pure, ◌>>=◌, called, millis,
}
use esp.Ssh.Returns.{Ensures, Ensures-continue}
use esp.Ssh.Conn.{Conn, connect}
use esp.Ssh.Conn.Ownership.{Owns, IsIdle, OwnsAfter, connect-Owns}
use esp.Ssh.Transfer.{read}
use esp.Control.{
  Happening, turns_with, posts, run_control, Control, from_slot, read_first, choose, turn, start,
}
use esp.Control.Servers.{OthersIdle, OthersIdle-set, OthersIdle-All, IsIdle-get, lt_of_get}
use esp.Control.Calm.{Calm, read-Calm}
use esp.Control.Ownership.{
  Tidy-mail, Tidy, server-Ensures, do_switch-Tidy, do_command-Tidy, do_upload-Tidy,
  do_download-Tidy, do_status-Tidy, do_keep_alive-Tidy,
}

-- The current server is the one at the index, it holds all that is open, and the others hold nothing.
abbrev pub Holds : ℕ → Control → Log → Type 0
Holds i this log =
    (this.current ≡ i)
    × (c : Conn) × (get_elem? this.servers i ≡ some c)
    × Owns 0 c log
    × OthersIdle this.servers i

module _ (S : StringApi) (E : Libssh) (fuel : ℕ) where
  choose-Tidy :
      (this : Control) (log : Log) (t : Tidy E this log)
      → Ensures (Tidy E) (choose S E fuel this t.at_current log)
  unfolding choose
  choose-Tidy this log t = ground (
    arith,
    do_switch-Tidy S E fuel this log t,
    do_command-Tidy S E fuel this log t,
    do_upload-Tidy S E fuel this log t,
    do_download-Tidy S E fuel this log t,
    do_status-Tidy S E fuel this log t,
    do_keep_alive-Tidy S E fuel this log t,
  )

  pub read_first-Calm :
      (clients : Registry) (got : Bool) (c : Conn) (log : Log)
      → Ensures (Calm log) (read_first S E fuel clients got c log)
  unfolding read_first
  read_first-Calm clients got c log = if_connected c.conn
    where
      if_connected :
          (b : Bool)
          → Ensures
              (Calm log)
              ((if b then (read E clients got c >>= λ reading. pure reading.sent) else pure []) log)
      if_connected true =
          Ensures-continue (Calm log) (Calm log) (read E clients got c log) _
            (read-Calm E clients got c log) (λ reading after o. o)
      if_connected false = omega arith

  turn-Tidy :
      (clients : Registry) (got : Bool) (this : Control) (log : Log)
      → Tidy E this log
      → Ensures (Tidy E) (turn S E fuel clients got this log)
  unfolding turn
  turn-Tidy clients got this log t =
      rw (t.is_current, turn, from_slot)
        (Ensures-continue (Calm log) (Tidy E) (read_first S E fuel clients got t.at_current log) _
          (read_first-Calm clients got t.at_current log)
          (λ sent after o. choose-Tidy this after (record {
            others = t.others;
            at_current = t.at_current;
            is_current = t.is_current;
            leaked = t.leaked;
            owned = let w = t.owned in omega arith;
            excused = t.excused;
          })))

  pub run_control-Tidy :
      (happenings : List Happening) (this : Control) (log : Log)
      → Tidy E this log
      → Ensures (Tidy E) (run_control S E fuel happenings this log)
  unfolding run_control
  run_control-Tidy [] this log t = t
  run_control-Tidy (turns_with clients got ∷ more) this log t =
      Ensures-continue (Tidy E) (Tidy E) (turn S E fuel clients got this log) _
        (turn-Tidy clients got this log t) (run_control-Tidy more)
  run_control-Tidy (posts f ∷ more) this log t =
      run_control-Tidy more (record this { mail = f this.mail }) log
        (Tidy-mail S E fuel this (f this.mail) log t)

  -- If no server holds anything and nothing is open, then the task starts with a connection to the current
  -- server, and that server holds all that is open then.
  pub start-Holds :
      (this : Control) (log : Log)
      → All IsIdle this.servers
      → ((c : Conn) → IsIdle c → Owns 0 c log)
      → Ensures (Holds this.current) (start S E fuel this log)
  unfolding start
  start-Holds this log a w =
      let read_log = called millis ∷ log in
      let last = E.now log in
      server-Ensures S E fuel (Holds this.current) this.servers this.current _ read_log (λ c e.
        let idle = IsIdle-get this.servers this.current c a e in
        after (connect E fuel c read_log) c e last
          (connect-Owns E 0 fuel c read_log idle (let v = w c idle in omega arith)))
    where
      new_state :
          (c c' : Conn) (last : ℕ) (log' : Log)
          → get_elem? this.servers this.current ≡ some c
          → Owns 0 c' log'
          → Holds this.current
              (record this { servers = set this.servers this.current c'; last_keep_alive = last })
              log'
      new_state c c' last log' e o = (
        refl,
        c',
        get_elem?-set_self this.servers this.current c' (lt_of_get this.servers this.current c e),
        o,
        OthersIdle-set this.servers this.current c' (OthersIdle-All this.servers this.current a),
      )

      after :
          (m : Outcome (Conn × Bool)) (c : Conn)
          → get_elem? this.servers this.current ≡ some c
          → (last : ℕ) → OwnsAfter 0 m
          → Ensures (Holds this.current) (
              continue m λ (c', connected). pure (record this {
                servers =
                    set this.servers this.current
                      (if connected then record c' { conn = true } else c');
                last_keep_alive = last;
              }))
      after (done (c', true) log') c e last o =
          new_state c (record c' { conn = true }) last log' e (let v = o.0 in omega arith)
      after (done (c', false) log') c e last o = new_state c c' last log' e o.0
      after undefined c e last o = tt
      after out_of_fuel c e last o = tt

  pub start-Tidy :
      (this : Control) (log : Log)
      → All IsIdle this.servers
      → ((c : Conn) → IsIdle c → Owns 0 c log)
      → Ensures (Tidy E) (start S E fuel this log)
  start-Tidy this log a w = tidy (start S E fuel this log) (start-Holds this log a w)
    where
      tidy : (m : Outcome Control) → Ensures (Holds this.current) m → Ensures (Tidy E) m
      tidy (done left after) (same, c, e, o, others) = record {
        others = subst (OthersIdle left.servers) (sym same) others;
        at_current = c;
        is_current = subst (λ i. get_elem? left.servers i ≡ some c) (sym same) e;
        leaked = 0;
        owned = o;
        excused = inl refl;
      }
      tidy undefined h = tt
      tidy out_of_fuel h = tt
