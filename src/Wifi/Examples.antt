-- ===== src/Wifi/Examples.antt =====
-- Runs of the wait loop, and the theorems at concrete inputs.
use esp.Base.{◌≡◌, refl, true, false}
use esp.Wifi.{Wifi, Ticks, Event, EventIds, state_new, state_phy_connected, htons}

abbrev board_ticks : Ticks
board_ticks = record { period_ms = 1 }

abbrev ids : EventIds
ids = record {
  wifi_event_sta_start = 2;
  wifi_event_sta_connected = 4;
  wifi_event_sta_disconnected = 5;
  ip_event_got_ip6 = 3;
  ip_event_sta_got_ip = 0;
}

abbrev fresh : Wifi
fresh = record {
  dev_state = state_new;
  got_ip_addr = false;
  got_ip6_addr = false;
  wifi_phy_connected = false;
  start_time = 0;
}

abbrev linked : Wifi
linked = record fresh { dev_state = state_phy_connected; wifi_phy_connected = true }

abbrev connected : Event
connected = record { base = 0; id = 4; addr0 = 0 }

link_local : htons 0xFE80 ≡ 0x80FE
unfolding htons
link_local = refl
