-- ===== src/Wifi/Steps.antt =====
-- Turns of the wait loop and events in any order.
use esp.Base.{ℕ, ◌≡◌, ◌≤◌, true, arith}
use esp.Wifi.{
  Wifi, ordinal, state_new, state_ota_complete, Ticks, Event, EventIds, goes_on, wait_init,
  wait_turn, event_cb,
}

-- A turn that goes on, or an event, from either task.
pub data Step (c : Ticks) (ids : EventIds) (w v : Wifi) : Type 0 where
  turn : (now : ℕ) → wait_turn c w now ≡ goes_on v → Step c ids w v
  event : (e : Event) → v ≡ (event_cb ids e w).0 → Step c ids w v

pub data Reach (c : Ticks) (ids : EventIds) (w : Wifi) : Wifi → Type 0 where
  here : Reach c ids w w
  next : {u v : Wifi} → Reach c ids w u → Step c ids u v → Reach c ids w v

-- `setup` stores STATE_NEW and the wait begins at some time.
abbrev pub Started : Wifi → Type 0
Started w = w.dev_state ≡ state_new

Step-below :
    {c : Ticks} {ids : EventIds} {w v : Wifi}
    → Step c ids w v
    → ordinal w.dev_state ≤ 5
    → ordinal v.dev_state ≤ 5
unfolding wait_turn event_cb
Step-below (turn now e) h = ground arith
Step-below (event e p) h = ground arith

Reach-below :
    {c : Ticks} {ids : EventIds} {w v : Wifi}
    → Reach c ids w v
    → ordinal w.dev_state ≤ 5
    → ordinal v.dev_state ≤ 5
Reach-below here h = h
Reach-below (next r s) h = Step-below s (Reach-below r h)

-- From a device in STATE_NEW no order of turns and events leads to STATE_LISTENING or to
-- STATE_TCP_DISCONNECTED.
never_listening :
    (c : Ticks) (ids : EventIds) (w v : Wifi) (now : ℕ)
    → Started w
    → Reach c ids (wait_init w now) v
    → ordinal v.dev_state ≤ ordinal state_ota_complete
unfolding wait_init
never_listening c ids w v now h r = Reach-below r (ground arith)

-- Once the wait has come to STATE_WAIT_IPADDR no event changes the state: only turns do. An event
-- never takes back that an address was seen.
event_keeps_progress :
    (ids : EventIds) (e : Event) (w : Wifi)
    → (2 ≤ ordinal w.dev_state → (event_cb ids e w).0.dev_state ≡ w.dev_state)
      × (w.got_ip_addr ≡ true → (event_cb ids e w).0.got_ip_addr ≡ true)
      × (w.got_ip6_addr ≡ true → (event_cb ids e w).0.got_ip6_addr ≡ true)
unfolding event_cb
event_keeps_progress ids e w = (λ h. ground arith, λ h. ground arith, λ h. ground arith)
