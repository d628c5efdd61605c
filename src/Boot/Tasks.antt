-- ===== src/Boot/Tasks.antt =====
-- The tasks once they are started: the turns of the task that runs `loop`, of src/entry_point.cpp, and
-- `controlTask` of src/main.cpp up to the loop of `ex_main`. `wifiMulti.run()` is left out.
use esp.Base.{ℕ, Bool, Option, none, some, List, [], ◌∷◌}
use esp.Strings.{StringApi}
use esp.Wifi.{Wifi, Ticks, Event, EventIds, Turn, goes_on, executes, wait_init, wait_turn, event_cb}
use esp.Clients.{Registry}
use esp.Fan.{Tach, loop}
use esp.Ssh.{Libssh, Log, Outcome}
use esp.Control.{Control, start}
use esp.Boot.{Globals}

-- A reading of the hardware in a turn of the task that runs `loop`, and the turns.
pub record LoopInput : Type 0 where
  pub got : Bool
  pub now : ℕ
  pub late : ℕ
  pub later : ℕ

unfoldable pub run_loop : Registry → List LoopInput → Tach → Tach
run_loop clients [] t = t
run_loop clients (i ∷ is) t = run_loop clients is (loop clients i.got i.now i.late i.later t).0

-- What happens while the control task waits for the network.
pub data Tick : Type 0 where
  turn_at : ℕ → Tick
  arrives : Event → Tick

unfoldable pub wait_for_wifi : Ticks → EventIds → List Tick → Wifi → Turn
wait_for_wifi c ids [] w = goes_on w
wait_for_wifi c ids (turn_at now ∷ ts) w = elim (wait_turn c w now) as (λ t. Turn) [
  | goes_on v ↦ wait_for_wifi c ids ts v
  | executes v ↦ executes v
]
wait_for_wifi c ids (arrives e ∷ ts) w = wait_for_wifi c ids ts (event_cb ids e w).0

-- `wait_for_wifi_exec(ex_main)`, up to the loop of `ex_main`; `none` while it still waits.
unfoldable pub run_control_task :
    StringApi
    → Libssh
    → ℕ
    → Ticks
    → EventIds
    → ℕ
    → List Tick
    → Globals
    → Log
    → Option (Outcome Control)
unfolding wait_for_wifi
run_control_task S E fuel c ids now ts g log =
    elim (wait_for_wifi c ids ts (wait_init g.wifi now)) as (λ t. Option (Outcome Control)) [
      | goes_on w ↦ none
      | executes w ↦ some (
          start S E fuel
            (record {
              servers = g.servers;
              current = g.current_ssh_index;
              mail = g.mail;
              last_keep_alive = 0;
            })
            log)
    ]
