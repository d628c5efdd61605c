-- ===== src/Boot/Hosts.antt =====
-- The start of the control task, by what the list of hosts holds.
use esp.Base.{
  ℕ, suc, ◌≤◌, ◌≡◌, refl, Option, none, some, List, [], ◌∷◌, map, get_elem?, length, All,
}
use esp.Strings.{StringApi}
use esp.Wifi.{Wifi, Ticks, EventIds, executes, wait_init}
use esp.Ssh.{Libssh, Log, Outcome, done, undefined, out_of_fuel, called, millis}
use esp.Ssh.Returns.{Ensures}
use esp.Ssh.Conn.{Conn, ssh_conn, connect}
use esp.Ssh.Conn.Delivery.{connect-Ends}
use esp.Ssh.Login.Ends.{Ends, Ends-continue, IsPatient}
use esp.Setup.{Host, read_hosts}
use esp.Control.{Mail, Control, start}
use esp.Control.Runs.{Holds}
use esp.Boot.{Hardware, initial_globals, app_main}
use esp.Boot.Tasks.{Tick, wait_for_wifi, run_control_task}
use esp.Boot.Ready.{All-idle, ssh_conn-IsFresh, begin-Holds}

start-Ends :
    (S : StringApi) (E : Libssh) (n : ℕ) (this : Control) (c : Conn) (log : Log)
    → get_elem? this.servers this.current ≡ some c
    → IsPatient E n
    → 3 ≤ length c.password
    → Ends (start S E (suc n) this log)
unfolding start
start-Ends S E n this c log e patient long =
    rw (e, start)
      (Ends-continue (connect E (suc n) c (called millis ∷ log)) _
        (connect-Ends E n c (called millis ∷ log) patient long) (λ r after. tt))

-- The loop of `ex_main` is reached, with the first server as the current one, which holds all that is open,
-- and with nothing held by the others.
abbrev Reaches : Outcome Control → Type 0
Reaches (done this log) = Holds 0 this log
Reaches undefined = ⊥
Reaches out_of_fuel = ⊥

reaches : (m : Outcome Control) → Ends m → Ensures (Holds 0) m → Reaches m
reaches (done this log) e t = t
reaches undefined e t = e
reaches out_of_fuel e t = e

-- With a host the loop is reached. With none, the first connection is undefined.
abbrev pub Begins : List Host → Option (Outcome Control) → Type 0
Begins hosts none = ⊥
Begins [] (some m) = m ≡ undefined
Begins (h ∷ hosts) (some m) = Reaches m

-- A password of three bytes or more.
abbrev pub IsLong : Host → Type 0
IsLong h = 3 ≤ length h.password

abbrev first_control : Mail → List Host → Control
first_control mail hosts = record {
  servers = map (λ (h : Host). ssh_conn h.host h.user h.password) hosts;
  current = 0;
  mail = mail;
  last_keep_alive = 0;
}

begins :
    (S : StringApi) (E : Libssh) (n : ℕ) (mail : Mail) (hosts : List Host)
    → IsPatient E n
    → All IsLong hosts
    → Begins hosts (some (start S E (suc n) (first_control mail hosts) []))
unfolding start ssh_conn
begins S E n mail [] patient long = refl
begins S E n mail (h ∷ hosts) patient long =
    let this = first_control mail (h ∷ hosts) in
    reaches (start S E (suc n) this [])
      (start-Ends S E n this (ssh_conn h.host h.user h.password) [] refl patient long.0)
      (begin-Holds S E (suc n) this (All-idle this.servers (ssh_conn-IsFresh (h ∷ hosts))))

-- When the wait for the network ends, the control task reaches its loop if the list of hosts has a host,
-- and the current server is then the first one, which holds all that is open. With no host it connects to a server that is not
-- there, which is undefined. Here every server offers passwords, from some call on no password is denied
-- or put off, and the passwords in the list have three bytes or more.
pub run_control_task-Begins :
    (S : StringApi) (E : Libssh) (n : ℕ) (hw : Hardware) (random : ℕ → ℕ) (c : Ticks)
    (ids : EventIds) (now : ℕ) (ticks : List Tick) (w : Wifi)
    → IsPatient E n
    → All IsLong (read_hosts S [] hw.host_lines)
    → let g = app_main S hw (initial_globals random) in
      wait_for_wifi c ids ticks (wait_init g.wifi now) ≡ executes w
      → Begins (read_hosts S [] hw.host_lines) (run_control_task S E (suc n) c ids now ticks g [])
unfolding run_control_task app_main initial_globals
run_control_task-Begins S E n hw random c ids now ticks w patient long e =
    let g = app_main S hw (initial_globals random) in
    rw (e, run_control_task) (begins S E n g.mail (read_hosts S [] hw.host_lines) patient long)
