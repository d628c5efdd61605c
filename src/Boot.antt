-- ===== src/Boot.antt =====
-- How the program starts: `app_main` of src/entry_point.cpp, `setup` of src/main.cpp, and the globals that
-- they prepare. What the hardware answers is an argument.
pub mod Tasks
pub mod Network
pub mod Ready
pub mod Hosts
mod Examples
use esp.Base.{ℕ, Bool, true, false, List, [], ◌∷◌, ◌++◌, map}
use esp.Base.Bytes.{Text, text}
use esp.Strings.{StringApi}
use esp.Http.{Files}
use esp.Wifi.{Wifi, state_new}
use esp.Clients.{Registry, empty_registry}
use esp.Fan.{Tach}
use esp.Setup.{Host, get_password, setup_password, read_hosts}
use esp.Power.{PinCall, setup_pins}
use esp.Ssh.Conn.{Conn, ssh_conn}
use esp.Control.{Mail}

abbrev pub sd_miso : ℕ
sd_miso = 16

abbrev pub sd_sck : ℕ
sd_sck = 17

abbrev pub sd_mosi : ℕ
sd_mosi = 18

abbrev pub sd_cs : ℕ
sd_cs = 19

abbrev pub pwm_fan_1 : ℕ
pwm_fan_1 = 23

abbrev pub tach_fan_1 : ℕ
tach_fan_1 = 22

abbrev pub pwm_freq : ℕ
pwm_freq = 25000

abbrev pub pwm_resolution : ℕ
pwm_resolution = 8

abbrev pub config_stack : ℕ
config_stack = 21200

pub data Task : Type 0 where
  control_task server_task loop_task : Task

-- The calls to the framework, in the order in which they are made.
pub data HwCall : Type 0 where
  init_arduino : HwCall
  pin : PinCall → HwCall
  ledc_setup : ℕ → ℕ → ℕ → HwCall
  ledc_attach_pin ledc_write : ℕ → ℕ → HwCall
  pin_mode_input_pullup attach_interrupt_falling : ℕ → HwCall
  wifi_disconnect wifi_set_sleep : Bool → HwCall
  add_ap : Text → Text → HwCall
  serial_begin : ℕ → HwCall
  create_mutex : HwCall
  spi_begin : ℕ → ℕ → ℕ → ℕ → HwCall
  sd_begin : ℕ → HwCall
  session_open : Text → HwCall
  netif_init event_loop_create_default register_wifi_event register_ip_event : HwCall
  -- the stack, the priority and the core
  create_task : Task → ℕ → ℕ → ℕ → HwCall

-- What the tasks share, and the calls made so far.
pub record Globals : Type 0 where
  pub password : Text
  pub servers : List Conn
  pub current_ssh_index : ℕ
  pub mail : Mail
  pub clients : Registry
  pub clients_fan : Registry
  pub wifi : Wifi
  pub tach : Tach
  pub shh_output_string : Text
  pub calls : List HwCall

unfoldable pub initial_mail : Mail
initial_mail = record {
  switch_ssh = [];
  ssh_command = [];
  upload_command = [];
  scp_command = [];
  hp_1_status_req = false;
}

-- A global without an initial value is zero, so `devState` is STATE_NEW.
unfoldable pub initial_wifi : Wifi
initial_wifi = record {
  dev_state = state_new;
  got_ip_addr = false;
  got_ip6_addr = false;
  wifi_phy_connected = false;
  start_time = 0;
}

unfoldable pub initial_globals : (ℕ → ℕ) → Globals
unfolding initial_mail initial_wifi
initial_globals random = record {
  password = get_password random;
  servers = [];
  current_ssh_index = 0;
  mail = initial_mail;
  clients = empty_registry;
  clients_fan = empty_registry;
  wifi = initial_wifi;
  tach = record { pulse_count = 0; last_time = 0 };
  shh_output_string = [];
  calls = [];
}

-- What `setup` finds: the clock, whether each mutex is created, the files, the lines of the list of hosts
-- as `readStringUntil` returns them, and the core of the Arduino tasks.
pub record Hardware : Type 0 where
  pub now : ℕ
  pub mutex : Bool
  pub mutex_fan : Bool
  pub files : Files
  pub host_lines : List Text
  pub arduino_core : ℕ

abbrev pub call_all : List HwCall → Globals → Globals
call_all cs g = record g { calls = g.calls ++ cs }

unfoldable pub setup_fan : Hardware → Globals → Globals
setup_fan hw g =
    let called =
      call_all
        (ledc_setup 0 pwm_freq pwm_resolution
          ∷ ledc_attach_pin pwm_fan_1 0
          ∷ ledc_write 0 0
          ∷ pin_mode_input_pullup tach_fan_1
          ∷ attach_interrupt_falling tach_fan_1
          ∷ [])
        g in
    record called { tach = record called.tach { last_time = hw.now } }

unfoldable pub setup_wifi : Globals → Globals
setup_wifi g =
    let called =
      call_all
        (wifi_disconnect true
          ∷ wifi_set_sleep false
          ∷ add_ap (text "WC Devices") (text "0jebr9yrxh")
          ∷ add_ap (text "SPARK-UMRK2N") (text "NKUWEW7ZZV")
          ∷ [])
        g in
    record called { wifi = record called.wifi { dev_state = state_new } }

unfoldable pub setup_mutexes : Hardware → Globals → Globals
setup_mutexes hw g =
    let called = call_all (serial_begin 115200 ∷ create_mutex ∷ create_mutex ∷ []) g in
    record called {
      clients = record called.clients { has_mutex = hw.mutex };
      clients_fan = record called.clients_fan { has_mutex = hw.mutex_fan };
    }

-- `push_back` of a new object for each host.
unfoldable pub setup_storage : StringApi → Hardware → Globals → Globals
setup_storage S hw g =
    let called =
      call_all
        (spi_begin sd_sck sd_miso sd_mosi sd_cs
          ∷ sd_begin sd_cs
          ∷ session_open (text "/data/session.kvdb")
          ∷ [])
        g in
    let hosts = read_hosts S [] hw.host_lines in
    record called {
      password = setup_password called.password hw.files;
      servers = called.servers ++ map (λ (h : Host). ssh_conn h.host h.user h.password) hosts;
    }

unfoldable pub setup_tasks : Hardware → Globals → Globals
setup_tasks hw = call_all (
    netif_init
    ∷ event_loop_create_default
    ∷ register_wifi_event
    ∷ register_ip_event
    ∷ create_task control_task config_stack 3 0
    ∷ create_task server_task 10240 1 hw.arduino_core
    ∷ [])

unfoldable pub setup : StringApi → Hardware → Globals → Globals
unfolding setup_fan setup_wifi setup_mutexes setup_storage setup_tasks
setup S hw g =
    let pins = call_all (map pin setup_pins) g in
    let ready = setup_mutexes hw (setup_wifi (setup_fan hw pins)) in
    setup_tasks hw (setup_storage S hw ready)

-- `app_main`, which the framework calls.
unfoldable pub app_main : StringApi → Hardware → Globals → Globals
unfolding setup
app_main S hw g =
    call_all (create_task loop_task 4096 1 hw.arduino_core ∷ [])
      (setup S hw (call_all (init_arduino ∷ []) g))
