-- ===== src/Wifi/Progress.antt =====
-- How far the turns of the wait loop get between two events.
use esp.Base.{
  ℕ, ◌+◌, ◌%◌, ◌^◌, ◌<◌, ◌≡◌, refl, ◌↔◌, ◌⊎◌, true, false, List, [], ◌∷◌, arith, leb-eq_false,
}
use esp.Wifi.{
  Wifi, state_new, state_phy_connected, state_wait_ipaddr, state_got_ipaddr, state_ota_complete,
  Ticks, ticks_timeout, Turn, goes_on, executes, wait_ipaddr, timed_out, wait_turn,
}

-- The loop over the clock readings of its turns, with no event in between.
unfoldable pub turns : Ticks → List ℕ → Wifi → Turn
turns c [] w = goes_on w
turns c (now ∷ times) w = elim (wait_turn c w now) [
  | goes_on v ↦ turns c times v
  | executes v ↦ executes v
]

-- The turn at STATE_WAIT_IPADDR goes back to STATE_NEW exactly when no address of either kind was
-- seen and the timeout has passed. In every other case it goes on to STATE_GOT_IPADDR.
wait_ipaddr_cases :
    (c : Ticks) (w : Wifi) (now : ℕ)
    → (((wait_ipaddr c w now).dev_state ≡ state_new)
        ↔ ((w.got_ip_addr ≡ false) × (w.got_ip6_addr ≡ false) × (timed_out c w now ≡ true)))
      × (((wait_ipaddr c w now).dev_state ≡ state_new)
          ⊎ ((wait_ipaddr c w now).dev_state ≡ state_got_ipaddr))
unfolding wait_ipaddr
wait_ipaddr_cases c w now = ground arith

not-timed_out :
    (c : Ticks) (w : Wifi) (start now : ℕ)
    → w.start_time ≡ start
    → now < (start + ticks_timeout c) % 2 ^ 32
    → timed_out c w now ≡ false
unfolding timed_out
not-timed_out c w start now e h = rw e (leb-eq_false _ now h)

-- From STATE_PHY_CONNECTED five turns call `exec_func`, whatever addresses were seen, none
-- included, if the second turn comes before the timeout that the first one sets.
pub connected_executes :
    (c : Ticks) (w : Wifi) (t1 t2 t3 t4 t5 : ℕ)
    → w.dev_state ≡ state_phy_connected
    → t2 < (t1 + ticks_timeout c) % 2 ^ 32
    → turns c (t1 ∷ t2 ∷ t3 ∷ t4 ∷ t5 ∷ []) w
      ≡ executes (record w { dev_state = state_ota_complete; start_time = t1 })
unfolding turns wait_turn
connected_executes c w t1 t2 t3 t4 t5 e h = ground (
  arith,
  not-timed_out c (record w { dev_state = state_wait_ipaddr; start_time = t1 }) t1 t2 refl h,
  not-timed_out c (record w { dev_state = state_got_ipaddr; start_time = t1 }) t1 t2 refl h,
)

-- In STATE_NEW the turns alone change nothing, however many: only an event leads on.
new_waits :
    (c : Ticks) (times : List ℕ) (w : Wifi) → w.dev_state ≡ state_new → turns c times w ≡ goes_on w
unfolding turns wait_turn
new_waits c [] w h = refl
new_waits c (now ∷ times) w h = ground (arith, new_waits c times w h)
