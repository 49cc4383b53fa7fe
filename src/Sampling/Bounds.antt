-- ===== src/Sampling/Bounds.antt =====
-- The publish interval stays in range, and the timer and keep-alive values that follow from it are
-- rounded up and never wrap around.
use io_t_project.Prelude.{ℕ, ◌+◌, ◌*◌, ◌^◌, ◌≤◌, ◌<◌, ◌≡◌, ◌≢◌, ◌⊎◌, true, [], ◌∷◌, arith}
use io_t_project.Calls.{process_poll}
use io_t_project.Config.{Config, IsConfig}
use io_t_project.Sampling.{
  Sampling, initial, publish_interval_to_ticks, get_publish_interval_ms, clamp_interval,
  set_publish_interval_ms, publish_interval_is_dirty, mqtt_keepalive_seconds,
}

-- The interval is between one millisecond and the stressed interval.
pub record IsInRange (c : Config) (s : Sampling) : Type 0 where
  pub interval_pos : 0 < get_publish_interval_ms s
  pub interval_le : get_publish_interval_ms s ≤ c.publish_interval_stressed_ms

pub initial-IsInRange : {c : Config} → IsConfig c → IsInRange c (initial c)
unfolding initial get_publish_interval_ms
initial-IsInRange h = ground arith

-- Under a configuration with 0 < default ≤ stressed, any request, 0 and values above the stressed
-- interval included, leaves the interval between 1 and the stressed interval.
pub set_publish_interval_ms-IsInRange :
    {c : Config} {s : Sampling} (ms : ℕ)
    → IsConfig c
    → IsInRange c s
    → IsInRange c (set_publish_interval_ms c ms s).0
unfolding set_publish_interval_ms get_publish_interval_ms
set_publish_interval_ms-IsInRange ms hc hs = ground arith

-- Under a configuration with 0 < default ≤ stressed, a request for 0 sets the default interval, one
-- above the stressed interval sets that, and any other sets what it asks for. Either the interval is
-- then another one than before, and the flag is set and the MQTT process polled, or it is the same,
-- and nothing changes and nothing is called.
pub set_publish_interval_ms_effect :
    {c : Config} (ms : ℕ) (s : Sampling)
    → IsConfig c
    → let (t, calls) = set_publish_interval_ms c ms s in
      (ms ≡ 0 → get_publish_interval_ms t ≡ c.publish_interval_ms)
      × (0 < ms → ms ≤ c.publish_interval_stressed_ms → get_publish_interval_ms t ≡ ms)
      × (c.publish_interval_stressed_ms < ms
          → get_publish_interval_ms t ≡ c.publish_interval_stressed_ms)
      × ((get_publish_interval_ms t ≢ get_publish_interval_ms s)
            × (publish_interval_is_dirty t ≡ true)
            × (calls ≡ process_poll ∷ [])
          ⊎ (t ≡ s) × (calls ≡ []))
unfolding set_publish_interval_ms get_publish_interval_ms publish_interval_is_dirty clamp_interval
set_publish_interval_ms_effect ms s h = (ground arith, ground arith, ground arith, ground arith)

-- The same, by the clamped request.
pub set_publish_interval_ms_clamped :
    (c : Config) (ms : ℕ) (s : Sampling)
    → let (t, calls) = set_publish_interval_ms c ms s in
      (get_publish_interval_ms t ≡ clamp_interval c ms)
      × ((clamp_interval c ms ≢ get_publish_interval_ms s)
            × (publish_interval_is_dirty t ≡ true)
            × (calls ≡ process_poll ∷ [])
          ⊎ (clamp_interval c ms ≡ get_publish_interval_ms s) × (t ≡ s) × (calls ≡ []))
unfolding set_publish_interval_ms get_publish_interval_ms publish_interval_is_dirty
set_publish_interval_ms_clamped c ms s = ground arith

pub set_publish_interval_ms_same :
    (c : Config) (ms : ℕ) (s : Sampling)
    → clamp_interval c ms ≡ get_publish_interval_ms s
    → let (t, calls) = set_publish_interval_ms c ms s in (t ≡ s) × (calls ≡ [])
unfolding set_publish_interval_ms get_publish_interval_ms
set_publish_interval_ms_same c ms s h = ground arith

-- The clamp at a request: the default for 0, else the smaller of the request and the stressed interval.
pub clamp_interval_lem :
    {c : Config} (ms : ℕ)
    → IsConfig c
    → (clamp_interval c 0 ≡ c.publish_interval_ms)
      × (0 < ms → ms ≤ c.publish_interval_stressed_ms → clamp_interval c ms ≡ ms)
      × (c.publish_interval_stressed_ms ≤ ms → clamp_interval c ms ≡ c.publish_interval_stressed_ms)
unfolding clamp_interval
clamp_interval_lem ms h = (ground arith, ground arith, ground arith)

mul_pos : (a b : ℕ) → 0 < a → 0 < b → 0 < a * b
mul_pos a b p q = grind arith

-- For a positive clock rate and a product of interval and rate below 2 ^ 63, the tick count is the
-- interval rounded up to whole ticks, or 0xFFFF where that would be larger; it is positive for a
-- positive interval.
pub publish_interval_to_ticks_ceil :
    (clock_second ms : ℕ)
    → 0 < clock_second
    → ms * clock_second < 2 ^ 63
    → let ticks = publish_interval_to_ticks clock_second ms in
      (ms ≡ 0 ⊎ 0 < ticks)
      × (ticks ≤ 0xFFFF)
      × (ticks * 1000 < ms * clock_second + 1000)
      × (ms * clock_second ≤ ticks * 1000 ⊎ (ticks ≡ 0xFFFF) × (0xFFFF * 1000 < ms * clock_second))
unfolding publish_interval_to_ticks
publish_interval_to_ticks_ceil clock_second ms p h = ground (arith, mul_pos ms clock_second)

-- The keep-alive time of an interval in range covers three intervals, rounded up to whole seconds, and
-- the 32-bit arithmetic does not wrap.
pub mqtt_keepalive_seconds_covers :
    {c : Config} {s : Sampling}
    → IsConfig c
    → IsInRange c s
    → let k = mqtt_keepalive_seconds s in
      (0 < k)
      × (3 * get_publish_interval_ms s ≤ k * 1000)
      × (k * 1000 < 3 * get_publish_interval_ms s + 1000)
      × (k ≤ 180)
unfolding mqtt_keepalive_seconds get_publish_interval_ms
mqtt_keepalive_seconds_covers hc hs = ground arith
