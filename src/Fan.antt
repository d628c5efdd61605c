-- ===== src/Fan.antt =====
-- The fan of src/main.cpp: the tachometer (`tachISR`, `loop`), the broadcast of its speed, and
-- `handleFan`. `unsigned long` is 32 bits on this chip, and `millis()` is an argument at each
-- reading. Pulses come from an interrupt: `late` are those between the two uses of the counter.
pub mod Speed
mod Examples
use esp.Base.{
  zero, suc, ℕ, ◌+◌, ◌-◌, ◌*◌, ◌/◌, ◌%◌, ◌^◌, Bool, true, false, List, [], ◌∷◌, leb, if◌then◌else◌,
  length,
}
use esp.Base.Bytes.{Text, text}
use esp.Base.Int.{to_uint32}
use esp.Strings.{StringApi}
use esp.Http.{Request, ResCall, set_header, println, read_body}
use esp.Clients.{Registry, LockCall, fan_broadcast}

abbrev pub u32 : ℕ → ℕ
u32 n = n % 2 ^ 32

abbrev pub tach_sample_time : ℕ
tach_sample_time = 1000

-- `tachPulseCount` and `lastTachTime`.
pub record Tach : Type 0 where
  pub pulse_count : ℕ
  pub last_time : ℕ

-- The interrupt service routine.
unfoldable pub tach_isr : Tach → Tach
tach_isr t = record t { pulse_count = u32 (t.pulse_count + 1) }

-- So many interrupts.
unfoldable pub pulses : ℕ → Tach → Tach
unfolding tach_isr
pulses zero t = t
pulses (suc n) t = pulses n (tach_isr t)

-- `a - b` of two `unsigned long` values.
abbrev pub sub32 : ℕ → ℕ → ℕ
sub32 a b = (a + 2 ^ 32 - b) % 2 ^ 32

-- `(tachPulseCount * 60000) / (TACH_SAMPLE_TIME * 2)`
unfoldable pub rpm : ℕ → ℕ
rpm count = u32 (count * 60000) / (tach_sample_time * 2)

-- A turn of `loop`: what it leaves, and the speed that it computed and the clients it sent it to.
pub record Sample : Type 0 where
  pub speed : ℕ
  pub sent_to : List ℕ
  pub lock_calls : List LockCall

pub data Turn : Type 0 where
  waits : Turn
  samples : Sample → Turn

unfoldable pub sample : List ℕ × List LockCall → ℕ → Sample
sample (sent_to, lock_calls) speed = record {
  speed = speed;
  sent_to = sent_to;
  lock_calls = lock_calls;
}

-- `now` and `later` are the two readings of the clock, `got` whether the fan's mutex was got.
unfoldable pub loop : Registry → Bool → ℕ → ℕ → ℕ → Tach → Tach × Turn
unfolding rpm pulses sample
loop clients got now late later t =
    if leb tach_sample_time (sub32 now t.last_time)
    then (
      record (pulses late t) { pulse_count = 0; last_time = later },
      samples (sample (fan_broadcast clients got) (rpm t.pulse_count)),
    )
    else (t, waits)

-- `handleFan`: the duty that `ledcWrite` gets on channel 0, and the response.
unfoldable pub handle_fan : StringApi → Request → ℕ × List ResCall
handle_fan S req =
    let input = read_body [] req.chunks in
    (
      to_uint32 (S.to_int (S.substring input 1 (sub32 (length input) 1))),
      set_header (text "Content-Type") (text "text/plain") ∷ println (text "OK") ∷ [],
    )
