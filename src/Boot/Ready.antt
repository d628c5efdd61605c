-- ===== src/Boot/Ready.antt =====
-- What the start of the program establishes for its tasks.

use esp.Power.{setup_pins}
use esp.Base.{ℕ, ◌≡◌, refl, true, false, Option, none, some, List, [], ◌∷◌, map, All, arith}
use esp.Strings.{StringApi}
use esp.Clients.{empty_registry, recipients}
use esp.Clients.Refinement.{IsReady}
use esp.Wifi.{Ticks, EventIds, Turn, goes_on, executes, wait_init}
use esp.Wifi.Steps.{Started}
use esp.Ssh.{Libssh, Log, Outcome, continue}
use esp.Ssh.Returns.{Ensures, Ensures-continue}
use esp.Ssh.Conn.{Conn, ssh_conn}
use esp.Ssh.Conn.Ownership.{Owns, IsIdle}
use esp.Setup.{Host, read_hosts}
use esp.Control.{Control, start, run_control, Happening}
use esp.Control.Ownership.{Tidy}
use esp.Control.Runs.{start-Holds, start-Tidy, Holds, run_control-Tidy}
use esp.Boot.{Hardware, HwCall, create_task, initial_globals, app_main}
use esp.Boot.Tasks.{Tick, wait_for_wifi, run_control_task}

-- A server as the constructor leaves it.
pub record IsFresh (c : Conn) : Type 0 where
  pub idle : IsIdle c
  pub is_down : c.conn ≡ false

pub ssh_conn-IsFresh :
    (hosts : List Host) → All IsFresh (map (λ (h : Host). ssh_conn h.host h.user h.password) hosts)
unfolding ssh_conn
ssh_conn-IsFresh [] = tt
ssh_conn-IsFresh (h ∷ hosts) =
    (record { idle = omega arith; is_down = refl }, ssh_conn-IsFresh hosts)

-- The servers are those of the list, in its order, with the same name, user and password each.
abbrev pub AreOf : List Host → List Conn → Type 0
AreOf [] [] = Unit
AreOf (h ∷ hosts) (c ∷ cs) =
    (c.host ≡ h.host) × (c.user ≡ h.user) × (c.password ≡ h.password) × AreOf hosts cs
AreOf [] (c ∷ cs) = ⊥
AreOf (h ∷ hosts) [] = ⊥

hosts-AreOf :
    (hosts : List Host) → AreOf hosts (map (λ (h : Host). ssh_conn h.host h.user h.password) hosts)
unfolding ssh_conn
hosts-AreOf [] = tt
hosts-AreOf (h ∷ hosts) = (refl, refl, refl, hosts-AreOf hosts)

abbrev IsTask : HwCall → Type 0
IsTask (create_task t stack priority core) = Unit
IsTask _ = ⊥

-- Behind the first task only tasks are created.
abbrev pub TasksLast : List HwCall → Type 0
TasksLast [] = Unit
TasksLast (create_task t stack priority core ∷ cs) = All IsTask cs
TasksLast (c ∷ cs) = TasksLast cs

-- When `app_main` has run and both mutexes were created, whatever is on the SD card: both tables of
-- clients are ready and hold no client, the Wi-Fi state is STATE_NEW, and the servers are those of the
-- list of hosts, in its order, with their names, users and passwords, none of them connected and none
-- holding anything. Behind the call that creates the first task, the only calls that `setup` makes to
-- the board create tasks.
pub app_main-IsReady :
    (S : StringApi) (hw : Hardware) (random : ℕ → ℕ)
    → hw.mutex ≡ true
    → hw.mutex_fan ≡ true
    → let g = app_main S hw (initial_globals random) in
      (IsReady g.clients × (recipients g.clients.slots ≡ []))
      × (IsReady g.clients_fan × (recipients g.clients_fan.slots ≡ []))
      × Started g.wifi
      × All IsFresh g.servers
      × AreOf (read_hosts S [] hw.host_lines) g.servers
      × TasksLast g.calls
unfolding app_main initial_globals empty_registry recipients setup_pins
app_main-IsReady S hw random e f = (
  (record { full_length = refl; created = e }, refl),
  (record { full_length = refl; created = f }, refl),
  refl,
  ssh_conn-IsFresh (read_hosts S [] hw.host_lines),
  hosts-AreOf (read_hosts S [] hw.host_lines),
  (tt, (tt, tt)),
)

pub All-idle : (cs : List Conn) → All IsFresh cs → All IsIdle cs
All-idle [] a = tt
All-idle (c ∷ cs) a = (a.0.idle, All-idle cs a.1)

-- While the control task still waits there is nothing to hold.
abbrev pub RunsTidy : Libssh → Option (Outcome Control) → (Control → Log → Outcome Control) → Type 0
RunsTidy E none rest = Unit
RunsTidy E (some m) rest = Ensures (Tidy E) (continue m rest)

idle-Owns : (c : Conn) → IsIdle c → Owns 0 c []
idle-Owns c i = record {
  owns_session = omega (arith, i.no_session);
  owns_channel = omega (arith, i.no_channel);
  owns_start = omega (arith, i.no_session);
}

-- Before the loop, when nothing was called yet.
pub begin-Holds :
    (S : StringApi) (E : Libssh) (fuel : ℕ) (this : Control)
    → All IsIdle this.servers
    → Ensures (Holds this.current) (start S E fuel this [])
begin-Holds S E fuel this a = start-Holds S E fuel this [] a idle-Owns

begin-Tidy :
    (S : StringApi) (E : Libssh) (fuel : ℕ) (this : Control)
    → All IsIdle this.servers
    → Ensures (Tidy E) (start S E fuel this [])
begin-Tidy S E fuel this a = start-Tidy S E fuel this [] a idle-Owns

from_wait :
    (S : StringApi) (E : Libssh) (fuel : ℕ) (t : Turn) (happenings : List Happening)
    (this : Control)
    → All IsIdle this.servers
    → RunsTidy E
        (elim t as (λ t. Option (Outcome Control)) [
          | goes_on w ↦ none
          | executes w ↦ some (start S E fuel this [])
        ])
        (run_control S E fuel happenings)
from_wait S E fuel (goes_on w) happenings this a = tt
from_wait S E fuel (executes w) happenings this a =
    Ensures-continue (Tidy E) (Tidy E) (start S E fuel this []) (run_control S E fuel happenings)
      (begin-Tidy S E fuel this a) (run_control-Tidy S E fuel happenings)

-- The whole run of the control task: from the start of the program with any list of hosts, through any
-- turns and events of the wait for the network, to any turns of its loop with any changes of the requests
-- between them, and any answers of the library. If it comes so far, every server but the current one
-- holds nothing, and the sessions and starts of the library that are open are those of the current
-- one. So are the channels, but for a number of leaked ones, which is zero unless the library answers
-- some read of a channel by SSH_ERROR.
pub run-Tidy :
    (S : StringApi) (E : Libssh) (fuel : ℕ) (hw : Hardware) (random : ℕ → ℕ) (c : Ticks)
    (ids : EventIds) (now : ℕ) (ticks : List Tick) (happenings : List Happening)
    → RunsTidy E
        (run_control_task S E fuel c ids now ticks (app_main S hw (initial_globals random)) [])
        (run_control S E fuel happenings)
unfolding run_control_task app_main initial_globals
run-Tidy S E fuel hw random c ids now ticks happenings =
    let g = app_main S hw (initial_globals random) in
    from_wait S E fuel (wait_for_wifi c ids ticks (wait_init g.wifi now)) happenings _
      (All-idle g.servers (ssh_conn-IsFresh (read_hosts S [] hw.host_lines)))
