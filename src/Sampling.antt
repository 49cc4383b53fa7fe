-- ===== src/Sampling.antt =====
-- sensors/coap-mqtt-sensor/sampling_control.c: the publish interval and its `dirty` flag, with
-- `mqtt_keepalive_seconds` of coap-mqtt-sensor.c.
use io_t_project.Prelude.{
  ℕ, ◌+◌, ◌*◌, ◌/◌, ◌%◌, ◌^◌, Bool, true, false, not, ◌&&◌, List, [], ◌∷◌, ltb, ◌==◌, if◌then◌else◌,
}
use io_t_project.Calls.{Call, process_poll}
use io_t_project.Config.{Config}
pub mod Bounds

abbrev u32_mod : ℕ
u32_mod = 2 ^ 32

pub record Sampling : Type 0 where
  pub current_publish_interval_ms : ℕ  -- uint32_t
  pub publish_interval_dirty : Bool

unfoldable pub initial : Config → Sampling
initial c = record {
  current_publish_interval_ms = c.publish_interval_ms;
  publish_interval_dirty = false;
}

-- CLOCK_SECOND is the platform's. The product is computed in `uint64_t`.
unfoldable pub publish_interval_to_ticks : (clock_second interval_ms : ℕ) → ℕ
publish_interval_to_ticks clock_second interval_ms =
    let exact = (interval_ms * clock_second + 999) % 2 ^ 64 / 1000 in
    let ticks = if ltb 0 interval_ms && exact == 0 then 1 else exact in
    if ltb 0xFFFF ticks then 0xFFFF else ticks

unfoldable pub get_publish_interval_ms : Sampling → ℕ
get_publish_interval_ms s = s.current_publish_interval_ms

-- The value that a request stands for.
unfoldable pub clamp_interval : Config → ℕ → ℕ
clamp_interval c interval_ms =
    let given = if interval_ms == 0 then c.publish_interval_ms else interval_ms in
    if ltb c.publish_interval_stressed_ms given then c.publish_interval_stressed_ms else given

unfoldable pub set_publish_interval_ms : Config → ℕ → Sampling → Sampling × List Call
unfolding clamp_interval
set_publish_interval_ms c interval_ms s =
    let wanted = clamp_interval c interval_ms in
    if not (wanted == s.current_publish_interval_ms)
    then (
      record s { current_publish_interval_ms = wanted; publish_interval_dirty = true },
      process_poll ∷ [],
    )
    else (s, [])

unfoldable pub publish_interval_is_dirty : Sampling → Bool
publish_interval_is_dirty s = s.publish_interval_dirty

unfoldable pub publish_interval_clear_dirty : Sampling → Sampling
publish_interval_clear_dirty s = record s { publish_interval_dirty = false }

-- The sums and products are computed in 32 bits; the result is a `uint16_t`.
unfoldable pub mqtt_keepalive_seconds : Sampling → ℕ
unfolding get_publish_interval_ms
mqtt_keepalive_seconds s =
    let interval_ms = get_publish_interval_ms s in
    let keepalive_ms = interval_ms * 3 % u32_mod in
    let exact = (keepalive_ms + 999) % u32_mod / 1000 in
    let keepalive_s = if ltb 0 interval_ms && exact == 0 then 1 else exact in
    if ltb 0xFFFF keepalive_s then 0xFFFF else keepalive_s
