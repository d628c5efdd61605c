-- ===== src/Boot/Examples.antt =====
-- A board whose list names one host, from its start to the loop of the control task.
use esp.Base.{inl, false, arith, ◌≡◌, refl, true, List, [], ◌∷◌, All, map}
use esp.Base.Bytes.{text, c_str}
use esp.Base.Int.{ℤ, pos}
use esp.Strings.Reference.{reference}
use esp.Wifi.{Event, ticks_timeout, Ticks, EventIds}
use esp.Clients.{recipients}
use esp.Clients.Refinement.{IsReady}
use esp.Wifi.Steps.{Started}
use esp.Ssh.{Call, ssh_userauth_list, Libssh}
use esp.Ssh.Login.{offers_password}
use esp.Ssh.Login.Ends.{IsPatient}
use esp.Boot.Network.{connecting, power_on-Begins}
use esp.Boot.Hosts.{Begins}
use esp.Setup.{split_line, read_hosts}
use esp.Control.{Mail, run_control, posts}
use esp.Boot.{Hardware, initial_globals, app_main}
use esp.Boot.Tasks.{run_control_task}
use esp.Boot.Ready.{AreOf, IsFresh, TasksLast, RunsTidy, app_main-IsReady, run-Tidy}

abbrev accepting : Libssh
accepting = record {
  returns = λ log c. pos 2;
  holds = λ log c. true;
  allocates = λ log c. true;
  receives = λ log c. [];
  now = λ log. 0;
}

abbrev esp32 : Hardware
esp32 = record {
  now = 0;
  mutex = true;
  mutex_fan = true;
  files = λ path. text "hunter2";
  host_lines = text "10.0.0.7,alext,secret" ∷ [];
  arduino_core = 1;
}

abbrev board_ticks : Ticks
board_ticks = record { period_ms = 1 }

abbrev ids : EventIds
ids = record {
  wifi_event_sta_start = 2;
  wifi_event_sta_connected = 4;
  wifi_event_sta_disconnected = 5;
  ip_event_got_ip6 = 3;
  ip_event_sta_got_ip = 0;
}

-- The station is connected.
abbrev joined : Event
joined = record { base = 0; id = 4; addr0 = 0 }

abbrev switching : Mail → Mail
switching m = record m { switch_ssh = text "0" }

app_main-IsReady_example :
    let g = app_main reference esp32 (initial_globals (λ i. i)) in
    (IsReady g.clients × (recipients g.clients.slots ≡ []))
    × (IsReady g.clients_fan × (recipients g.clients_fan.slots ≡ []))
    × Started g.wifi
    × All IsFresh g.servers
    × AreOf (read_hosts reference [] esp32.host_lines) g.servers
    × TasksLast g.calls
app_main-IsReady_example = app_main-IsReady reference esp32 (λ i. i) refl refl

run-Tidy_example :
    RunsTidy accepting
      (run_control_task reference accepting 2 board_ticks ids 0
        (connecting (1 ∷ []) joined (2 ∷ 3 ∷ 4 ∷ 5 ∷ 6 ∷ []))
        (app_main reference esp32 (initial_globals (λ i. i)))
        [])
      (run_control reference accepting 2 (posts switching ∷ []))
run-Tidy_example =
    run-Tidy reference accepting 2 esp32 (λ i. i) board_ticks ids 0
      (connecting (1 ∷ []) joined (2 ∷ 3 ∷ 4 ∷ 5 ∷ 6 ∷ [])) (posts switching ∷ [])

-- Every password is accepted.
reply : Call → ℤ
reply (ssh_userauth_list s) = pos 2
reply _ = pos 0

abbrev friendly : Libssh
friendly = record accepting { returns = λ log c. reply c }

friendly-IsPatient : IsPatient friendly 0
unfolding reply offers_password esp.Base.Int.to_uint32
friendly-IsPatient = record { offered = λ log s. refl; decided = λ log s password h. inl refl }

power_on-Begins_example : Begins (read_hosts reference [] esp32.host_lines) (
    run_control_task reference friendly 1 board_ticks ids 0
      (connecting (1 ∷ []) joined (2 ∷ 3 ∷ 4 ∷ 5 ∷ 6 ∷ []))
      (app_main reference esp32 (initial_globals (λ i. i)))
      [])
unfolding ticks_timeout read_hosts split_line c_str esp.Strings.Reference.substring
    esp.Strings.Reference.index_of esp.Strings.Reference.trim
power_on-Begins_example =
    power_on-Begins reference friendly 0 esp32 (λ i. i) board_ticks ids 0 (1 ∷ []) joined 2 3 4 5 6
      friendly-IsPatient (omega arith, tt) refl (omega arith) (omega arith)
