-- ===== src/Boot/Network.antt =====
-- From power-on to the loop of the control task, by way of the network.
use esp.Base.{ℕ, suc, ◌+◌, ◌%◌, ◌^◌, ◌<◌, ◌≡◌, ◌≢◌, refl, ◌∙◌, List, [], ◌∷◌, ◌++◌, map, All, arith}
use esp.Strings.{StringApi}
use esp.Wifi.{
  Wifi, Ticks, ticks_timeout, Event, EventIds, Turn, goes_on, executes, state_new,
  state_phy_connected, state_ota_complete, wait_init, wait_turn, event_cb,
}
use esp.Wifi.Progress.{turns, connected_executes}
use esp.Ssh.{Libssh}
use esp.Ssh.Login.Ends.{IsPatient}
use esp.Setup.{read_hosts}
use esp.Boot.{Hardware, initial_globals, initial_wifi, app_main}
use esp.Boot.Tasks.{Tick, turn_at, arrives, wait_for_wifi, run_control_task}
use esp.Boot.Hosts.{IsLong, Begins, run_control_task-Begins}

-- Before an event the turns change nothing.
quiet_turns :
    (c : Ticks) (ids : EventIds) (times : List ℕ) (rest : List Tick) (w : Wifi)
    → w.dev_state ≡ state_new
    → wait_for_wifi c ids (map turn_at times ++ rest) w ≡ wait_for_wifi c ids rest w
unfolding wait_for_wifi wait_turn
quiet_turns c ids [] rest w h = refl
quiet_turns c ids (now ∷ times) rest w h = ground (arith, quiet_turns c ids times rest w h)

step_apart :
    (c : Ticks) (ids : EventIds) (times : List ℕ) (t : Turn)
    → ((v : Wifi) → wait_for_wifi c ids (map turn_at times) v ≡ turns c times v)
    → (elim t as (λ t. Turn) [
      | goes_on v ↦ wait_for_wifi c ids (map turn_at times) v
      | executes v ↦ executes v
    ])
      ≡ (elim t as (λ t. Turn) [ goes_on v ↦ turns c times v | executes v ↦ executes v ])
step_apart c ids times (goes_on v) h = h v
step_apart c ids times (executes v) h = refl

-- With no event the wait is the run of its turns.
only_turns :
    (c : Ticks) (ids : EventIds) (times : List ℕ) (w : Wifi)
    → wait_for_wifi c ids (map turn_at times) w ≡ turns c times w
unfolding wait_for_wifi turns
only_turns c ids [] w = refl
only_turns c ids (now ∷ times) w =
    step_apart c ids times (wait_turn c w now) (λ v. only_turns c ids times v)

connects :
    (ids : EventIds) (e : Event) (w : Wifi)
    → w.dev_state ≡ state_new
    → e.id ≡ ids.wifi_event_sta_connected
    → ids.wifi_event_sta_start ≢ ids.wifi_event_sta_connected
    → (event_cb ids e w).0.dev_state ≡ state_phy_connected
unfolding event_cb
connects ids e w h i d = ground arith

-- Turns without an event, then the event that the station is connected, then five turns.
abbrev pub connecting : List ℕ → Event → List ℕ → List Tick
connecting quiet e times = map turn_at quiet ++ (arrives e ∷ map turn_at times)

connecting-executes :
    (c : Ticks) (ids : EventIds) (quiet : List ℕ) (e : Event) (t1 t2 t3 t4 t5 : ℕ) (w : Wifi)
    → w.dev_state ≡ state_new
    → e.id ≡ ids.wifi_event_sta_connected
    → ids.wifi_event_sta_start ≢ ids.wifi_event_sta_connected
    → t2 < (t1 + ticks_timeout c) % 2 ^ 32
    → let v = (event_cb ids e w).0 in
      wait_for_wifi c ids (connecting quiet e (t1 ∷ t2 ∷ t3 ∷ t4 ∷ t5 ∷ [])) w
      ≡ executes (record v { dev_state = state_ota_complete; start_time = t1 })
unfolding wait_for_wifi
connecting-executes c ids quiet e t1 t2 t3 t4 t5 w h i d early =
    let times = t1 ∷ t2 ∷ t3 ∷ t4 ∷ t5 ∷ [] in
    let v = (event_cb ids e w).0 in
    quiet_turns c ids quiet (arrives e ∷ map turn_at times) w h
    ∙ only_turns c ids times v
    ∙ connected_executes c v t1 t2 t3 t4 t5 (connects ids e w h i d) early

-- From power-on: when, after any number of turns of the wait, the station is connected to a network, then five
-- more turns lead the control task to the loop of `ex_main` if the list of hosts has a host. The current
-- server is then the first one, it holds exactly the sessions, channels and starts of the library that
-- are open, and the other servers hold nothing. With no host the turns lead to a connection to a server
-- that is not there, which is undefined. Here the second of the five turns comes before the timeout of the
-- first, every server offers passwords, from some call on no password is denied or put off, and
-- the passwords in the list have three bytes or more.
pub power_on-Begins :
    (S : StringApi) (E : Libssh) (n : ℕ) (hw : Hardware) (random : ℕ → ℕ) (c : Ticks)
    (ids : EventIds) (now : ℕ) (quiet : List ℕ) (e : Event) (t1 t2 t3 t4 t5 : ℕ)
    → IsPatient E n
    → All IsLong (read_hosts S [] hw.host_lines)
    → e.id ≡ ids.wifi_event_sta_connected
    → ids.wifi_event_sta_start ≢ ids.wifi_event_sta_connected
    → t2 < (t1 + ticks_timeout c) % 2 ^ 32
    → Begins (read_hosts S [] hw.host_lines) (
        run_control_task S E
          (suc n)
          c
          ids
          now
          (connecting quiet e (t1 ∷ t2 ∷ t3 ∷ t4 ∷ t5 ∷ []))
          (app_main S hw (initial_globals random))
          [])
unfolding app_main initial_globals initial_wifi wait_init
power_on-Begins S E n hw random c ids now quiet e t1 t2 t3 t4 t5 patient long i d early =
    let w = wait_init (app_main S hw (initial_globals random)).wifi now in
    let v = (event_cb ids e w).0 in
    run_control_task-Begins S E n hw random c ids now
      (connecting quiet e (t1 ∷ t2 ∷ t3 ∷ t4 ∷ t5 ∷ []))
      (record v { dev_state = state_ota_complete; start_time = t1 }) patient long
      (connecting-executes c ids quiet e t1 t2 t3 t4 t5 w refl i d early)
