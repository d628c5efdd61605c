-- ===== src/Fan/Speed.antt =====
-- The speed that is reported.
use esp.Base.{ℕ, zero, suc, ◌+◌, ◌*◌, ◌^◌, ◌<◌, ◌≤◌, ◌≡◌, refl, ◌↔◌, Bool, arith}
use esp.Clients.{Registry, fan_broadcast}
use esp.Fan.{Tach, tach_isr, pulses, rpm, u32, sub32, waits, samples, loop}

pub pulses-count :
    (n : ℕ) (t : Tach) → t.pulse_count + n < 2 ^ 32 → (pulses n t).pulse_count ≡ t.pulse_count + n
unfolding pulses tach_isr
pulses-count zero t h = omega arith
pulses-count (suc n) t h =
    omega (arith, pulses-count n (tach_isr t) (unfold tach_isr in omega arith))

pub pulses-last_time : (n : ℕ) (t : Tach) → (pulses n t).last_time ≡ t.last_time
unfolding pulses tach_isr
pulses-last_time zero t = refl
pulses-last_time (suc n) t = pulses-last_time n (tach_isr t)

-- The speed is 30 revolutions per minute for each pulse of the second, two pulses to a
-- revolution, exactly when the product still fits into 32 bits.
pub rpm_exact : (count : ℕ) → count < 2 ^ 32 → (rpm count ≡ 30 * count) ↔ (count * 60000 < 2 ^ 32)
unfolding rpm
rpm_exact count h = (λ e. omega arith, λ k. omega arith)

elapsed_time :
    (start elapsed : ℕ)
    → start < 2 ^ 32
    → elapsed < 2 ^ 32
    → sub32 (u32 (start + elapsed)) start ≡ elapsed
elapsed_time start elapsed h k = omega arith

-- When the loop last sampled at `start`, then `elapsed` ms passed and `n` pulses came, it samples
-- exactly when a second has passed, also where the 32-bit clock has wrapped in between, if 60000
-- times the pulses fits into 32 bits. It reports 30 for each pulse to the clients of the broadcast,
-- starts to count at 0 again, and forgets the pulses that came late.
pub loop_samples :
    (clients : Registry) (got : Bool) (start elapsed n late later : ℕ)
    → start < 2 ^ 32
    → elapsed < 2 ^ 32
    → n * 60000 < 2 ^ 32
    → let t = pulses n (record { pulse_count = 0; last_time = start }) in
      let result = loop clients got (u32 (start + elapsed)) late later t in
      (1000 ≤ elapsed
        → result ≡ (
          record { pulse_count = 0; last_time = later },
          samples (record {
            speed = 30 * n;
            sent_to = (fan_broadcast clients got).0;
            lock_calls = (fan_broadcast clients got).1;
          }),
        ))
      × (elapsed < 1000 → result ≡ (t, waits))
unfolding loop
loop_samples clients got start elapsed n late later h k l =
    let t = pulses n (record { pulse_count = 0; last_time = start }) in
    let counted : t.pulse_count ≡ n =
      omega (arith, pulses-count n (record { pulse_count = 0; last_time = start })) in
    let since : t.last_time ≡ start =
      pulses-last_time n (record { pulse_count = 0; last_time = start }) in
    let speed : rpm n ≡ 30 * n = (rpm_exact n (omega arith)).1 l in
    rw (since, counted, elapsed_time start elapsed h k, speed)
      (λ m. ground arith, λ m. ground arith)
