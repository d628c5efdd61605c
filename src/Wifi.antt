-- ===== src/Wifi.antt =====
-- The wait for a network: `devState_t` of include/ssh_functions.h, and `wait_for_wifi_exec` and
-- `event_cb` of src/ssh_functions.cpp. Printing is left out. Each turn of the wait loop and each
-- event is one step; the tick counter and the payload of an event are arguments. The numbers of
-- the events belong to the SDK and are a parameter.
pub mod Steps
pub mod Progress
mod Examples
use esp.Base.{
  ℕ, ◌+◌, ◌*◌, ◌/◌, ◌%◌, ◌^◌, Bool, true, false, ◌&&◌, ◌||◌, not, List, [], ◌∷◌, ltb, leb, ◌==◌,
  if◌then◌else◌,
}

pub data DevState : Type 0 where
  state_new state_phy_connected state_wait_ipaddr state_got_ipaddr : DevState
  state_ota_updating state_ota_complete state_listening state_tcp_disconnected : DevState

-- The value of the enumerator, by which `<` compares.
abbrev pub ordinal : DevState → ℕ
ordinal state_new = 0
ordinal state_phy_connected = 1
ordinal state_wait_ipaddr = 2
ordinal state_got_ipaddr = 3
ordinal state_ota_updating = 4
ordinal state_ota_complete = 5
ordinal state_listening = 6
ordinal state_tcp_disconnected = 7

-- The volatile globals that the two tasks share, and the local `xStartTime`.
pub record Wifi : Type 0 where
  pub dev_state : DevState
  pub got_ip_addr : Bool
  pub got_ip6_addr : Bool
  pub wifi_phy_connected : Bool
  pub start_time : ℕ

abbrev pub wifi_timeout_s : ℕ
wifi_timeout_s = 40

-- Ticks are `uint32_t`; `portTICK_PERIOD_MS` is 1000 over the tick rate.
pub record Ticks : Type 0 where
  pub period_ms : ℕ

unfoldable pub ticks_timeout : Ticks → ℕ
ticks_timeout c = wifi_timeout_s * 1000 / c.period_ms

-- The assignments before the loop of `wait_for_wifi_exec`.
unfoldable pub wait_init : Wifi → ℕ → Wifi
wait_init w now = record w {
  got_ip_addr = false;
  got_ip6_addr = false;
  wifi_phy_connected = false;
  start_time = now;
}

-- A turn either goes on to the next one, or calls `exec_func` and then sleeps for ever.
pub data Turn : Type 0 where
  goes_on : Wifi → Turn
  executes : Wifi → Turn

-- `xTaskGetTickCount() >= xStartTime + xTicksTimeout`, the sum wrapping.
unfoldable pub timed_out : Ticks → Wifi → ℕ → Bool
unfolding ticks_timeout
timed_out c w now = leb ((w.start_time + ticks_timeout c) % 2 ^ 32) now

-- The case STATE_WAIT_IPADDR, its first assignment included.
unfoldable pub wait_ipaddr : Ticks → Wifi → ℕ → Wifi
unfolding timed_out
wait_ipaddr c w now =
    let got = record w { dev_state = state_got_ipaddr } in
    if w.got_ip6_addr
    then got
    else if timed_out c got now
    then if w.got_ip_addr || w.got_ip6_addr then got else record w { dev_state = state_new }
    else got

dispatch : DevState → Ticks → Wifi → ℕ → Turn
unfolding wait_ipaddr
dispatch state_new c w now = goes_on w
dispatch state_phy_connected c w now =
    goes_on (record w { dev_state = state_wait_ipaddr; start_time = now })
dispatch state_wait_ipaddr c w now = goes_on (wait_ipaddr c w now)
dispatch state_got_ipaddr c w now = goes_on (record w { dev_state = state_ota_updating })
dispatch state_ota_updating c w now = goes_on (record w { dev_state = state_ota_complete })
dispatch state_ota_complete c w now = executes w
dispatch state_listening c w now = goes_on (record w { dev_state = state_tcp_disconnected })
dispatch state_tcp_disconnected c w now = goes_on (record w { dev_state = state_listening })

-- One turn of `while (1)`.
unfoldable pub wait_turn : Ticks → Wifi → ℕ → Turn
unfolding dispatch
wait_turn c w now = dispatch w.dev_state c w now

-- The event numbers of the SDK that label the cases.
pub record EventIds : Type 0 where
  pub wifi_event_sta_start : ℕ
  pub wifi_event_sta_connected : ℕ
  pub wifi_event_sta_disconnected : ℕ
  pub ip_event_got_ip6 : ℕ
  pub ip_event_sta_got_ip : ℕ

-- What `event_cb` is called with; `addr0` is the first word of the address in `event_data`.
pub record Event : Type 0 where
  pub base : ℕ
  pub id : ℕ
  pub addr0 : ℕ

-- The swap of the two bytes on this little-endian target.
unfoldable pub htons : ℕ → ℕ
htons x = x % 256 * 256 + x / 256 % 256

-- Calls that `event_cb` makes to the network stack.
pub data NetCall : Type 0 where
  multi_run enable_ip_v6 : NetCall

unfoldable pub on_connected : Wifi → Wifi
on_connected w =
    let up = record w { wifi_phy_connected = true } in
    if ltb (ordinal w.dev_state) (ordinal state_phy_connected)
    then record up { dev_state = state_phy_connected }
    else up

unfoldable pub on_disconnected : Wifi → Wifi
on_disconnected w =
    let reset =
      if ltb (ordinal w.dev_state) (ordinal state_wait_ipaddr)
      then record w { dev_state = state_new }
      else w in
    if reset.wifi_phy_connected then record reset { wifi_phy_connected = false } else reset

unfoldable pub on_got_ip6 : Event → Wifi → Wifi
unfolding htons
on_got_ip6 e w =
    if not (e.addr0 == htons 0xFE80) && not w.got_ip6_addr
    then record w { got_ip6_addr = true }
    else w

-- The switch looks at `id` alone.
unfoldable pub event_cb : EventIds → Event → Wifi → Wifi × List NetCall
unfolding on_connected on_disconnected on_got_ip6
event_cb ids e w =
    if e.id == ids.wifi_event_sta_start
    then (w, [])
    else if e.id == ids.wifi_event_sta_connected
    then (on_connected w, [])
    else if e.id == ids.wifi_event_sta_disconnected
    then (on_disconnected w, multi_run ∷ [])
    else if e.id == ids.ip_event_got_ip6
    then (on_got_ip6 e w, [])
    else if e.id == ids.ip_event_sta_got_ip
    then (record w { got_ip_addr = true }, enable_ip_v6 ∷ [])
    else (w, [])
