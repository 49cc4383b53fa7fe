-- ===== src/Tests/SamplingTests.antt =====
-- The publish interval and its resource at concrete requests.
use io_t_project.Prelude.{
  ℕ, ◌+◌, ◌-◌, ◌*◌, ◌^◌, ◌≤◌, ◌<◌, ◌≡◌, refl, ◌≢◌, ◌⊎◌, true, some, [], ◌∷◌, codes, length, arith,
}
use io_t_project.CLib.Decimal.{print_lu}
use io_t_project.CLib.Strtoul.{strtoul}
use io_t_project.Calls.{
  process_poll, set_status_code, set_local_payload, set_header_content_format, text_plain,
  changed_2_04,
}
use io_t_project.Config.{wind, wind-IsConfig}
use io_t_project.Sampling.{
  get_publish_interval_ms, set_publish_interval_ms, publish_interval_is_dirty,
  publish_interval_to_ticks, mqtt_keepalive_seconds,
}
use io_t_project.Sampling.Bounds.{
  IsInRange, set_publish_interval_ms_effect, publish_interval_to_ticks_ceil,
  mqtt_keepalive_seconds_covers,
}
use io_t_project.Resources.Sampling.{res_get_handler, copy_to_tmp, res_put_handler}
use io_t_project.Resources.Sampling.Put.{
  Taken, Refused, res_put_handler_cases, put-print_lu, put-negative, get-put,
}
use io_t_project.Tests.Samples.{normal_interval}

normal-IsInRange : IsInRange wind normal_interval
unfolding get_publish_interval_ms
normal-IsInRange = omega arith

stressed_put :
    (res_put_handler wind (some (codes "60000")) normal_interval).0
    ≡ record { current_publish_interval_ms = 15000; publish_interval_dirty = true }
unfolding res_put_handler set_publish_interval_ms
stressed_put = refl

negative_put :
    (res_put_handler wind (some (codes "-4294966296")) normal_interval).0
    ≡ record { current_publish_interval_ms = 1000; publish_interval_dirty = true }
unfolding res_put_handler set_publish_interval_ms
negative_put = refl

ticks_at_128_hz : publish_interval_to_ticks 128 5000 ≡ 640
unfolding publish_interval_to_ticks
ticks_at_128_hz = refl

set_publish_interval_ms_effect_example :
    let (t, calls) = set_publish_interval_ms wind 20000 normal_interval in
    (◌≡◌ {A = ℕ} 20000 0 → get_publish_interval_ms t ≡ wind.publish_interval_ms)
    × (0 < 20000 → 20000 ≤ wind.publish_interval_stressed_ms → get_publish_interval_ms t ≡ 20000)
    × (wind.publish_interval_stressed_ms < 20000
        → get_publish_interval_ms t ≡ wind.publish_interval_stressed_ms)
    × ((get_publish_interval_ms t ≢ get_publish_interval_ms normal_interval)
          × (publish_interval_is_dirty t ≡ true)
          × (calls ≡ process_poll ∷ [])
        ⊎ (t ≡ normal_interval) × (calls ≡ []))
set_publish_interval_ms_effect_example =
    set_publish_interval_ms_effect 20000 normal_interval wind-IsConfig

publish_interval_to_ticks_ceil_example :
    let ticks = publish_interval_to_ticks 128 15000 in
    (◌≡◌ {A = ℕ} 15000 0 ⊎ 0 < ticks)
    × (ticks ≤ 0xFFFF)
    × (ticks * 1000 < 15000 * 128 + 1000)
    × (15000 * 128 ≤ ticks * 1000 ⊎ (ticks ≡ 0xFFFF) × (0xFFFF * 1000 < 15000 * 128))
publish_interval_to_ticks_ceil_example =
    publish_interval_to_ticks_ceil 128 15000 (omega arith) (omega arith)

mqtt_keepalive_seconds_covers_example :
    let k = mqtt_keepalive_seconds normal_interval in
    (0 < k)
    × (3 * get_publish_interval_ms normal_interval ≤ k * 1000)
    × (k * 1000 < 3 * get_publish_interval_ms normal_interval + 1000)
    × (k ≤ 180)
mqtt_keepalive_seconds_covers_example = mqtt_keepalive_seconds_covers wind-IsConfig normal-IsInRange

res_put_handler_cases_example :
    let tmp = copy_to_tmp (codes "12x") in
    (Refused normal_interval (res_put_handler wind (some (codes "12x")) normal_interval)
      ⊎ ((n : ℕ) × (strtoul tmp ≡ some (n, []))
          × (0 < n)
          × (n ≤ 60000)
          × Taken wind tmp n normal_interval
              (res_put_handler wind (some (codes "12x")) normal_interval)))
res_put_handler_cases_example = res_put_handler_cases wind (some (codes "12x")) normal_interval

put-print_lu_example :
    Taken wind
      (print_lu 15000)
      15000
      normal_interval
      (res_put_handler wind (some (print_lu 15000)) normal_interval)
put-print_lu_example = put-print_lu wind 15000 normal_interval (omega arith) (omega arith)

put-negative_example :
    let text = b'-' ∷ print_lu (2 ^ 32 - 1000) in
    Taken wind text 1000 normal_interval (res_put_handler wind (some text) normal_interval)
put-negative_example = put-negative wind 1000 normal_interval (omega arith) (omega arith)

get-put_example :
    let text = print_lu (get_publish_interval_ms normal_interval) in
    (res_get_handler normal_interval
      ≡ set_header_content_format text_plain ∷ set_local_payload text (length text) ∷ [])
    × (res_put_handler wind (some text) normal_interval ≡ (
      normal_interval,
      set_status_code changed_2_04 ∷ set_local_payload text (length text) ∷ [],
    ))
get-put_example = get-put wind-IsConfig normal-IsInRange
