-- ===== src/Fan/Examples.antt =====
-- The theorems about the fan at concrete readings.
use esp.Base.{◌+◌, ◌*◌, ◌<◌, ◌≤◌, ◌≡◌, refl, ◌↔◌, true, ◌^◌, none, some, [], ◌∷◌, arith}
use esp.Base.Bytes.{text}
use esp.Strings.Reference.{reference, substring, to_int}
use esp.Base.Int.{to_uint32}
use esp.Http.{read_body}
use esp.Clients.{Registry, fan_broadcast}
use esp.Fan.{pulses, rpm, u32, samples, waits, loop, handle_fan}
use esp.Fan.Speed.{rpm_exact, loop_samples}

abbrev clients : Registry
clients = record { has_mutex = true; slots = some 7 ∷ none ∷ [] }

rpm_exact_example : (rpm 80000 ≡ 30 * 80000) ↔ (80000 * 60000 < 2 ^ 32)
rpm_exact_example = rpm_exact 80000 (omega arith)

-- The clock wraps 296 ms after the last sample.
loop_samples_example :
    let t = pulses 40 (record { pulse_count = 0; last_time = 4294967000 }) in
    let result = loop clients true (u32 (4294967000 + 1200)) 1 905 t in
    (1000 ≤ 1200
      → result ≡ (
        record { pulse_count = 0; last_time = 905 },
        samples (record {
          speed = 30 * 40;
          sent_to = (fan_broadcast clients true).0;
          lock_calls = (fan_broadcast clients true).1;
        }),
      ))
    × (1200 < 1000 → result ≡ (t, waits))
loop_samples_example =
    loop_samples clients true 4294967000 1200 40 1 905 (omega arith) (omega arith) (omega arith)

-- The page sends its number in quotation marks.
half_speed :
    (handle_fan reference (record {
      header = λ n. [];
      request_string = text "/fan";
      chunks = text "\"12" ∷ text "8\"" ∷ [];
    })).0
    ≡ 128
unfolding handle_fan read_body substring to_int to_uint32
half_speed = refl
