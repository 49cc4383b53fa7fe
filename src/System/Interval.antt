-- ===== src/System/Interval.antt =====
-- From a PUT of actuators/sampling to the publish timer of the MQTT process.
use io_t_project.Prelude.{
  ℕ, ◌≤◌, ◌<◌, ◌≡◌, ap, ◌∙◌, ◌≢◌, inl, inr, true, false, some, [], ◌∷◌, length,
}
use io_t_project.CLib.Decimal.{print_lu}
use io_t_project.Calls.{process_poll, set_status_code, set_local_payload, changed_2_04}
use io_t_project.Config.{Config}
use io_t_project.Device.{Ctimer}
use io_t_project.Mqtt.{Etimer, Mqtt, Wake, connected, round}
use io_t_project.Mqtt.Rounds.{round-dirty}
use io_t_project.Resources.Sampling.{res_put_handler}
use io_t_project.Resources.Sampling.Put.{put-print_lu}
use io_t_project.Sampling.{
  Sampling, clamp_interval, get_publish_interval_ms, set_publish_interval_ms,
  publish_interval_is_dirty, publish_interval_to_ticks,
}
use io_t_project.Sampling.Bounds.{set_publish_interval_ms_clamped}
use io_t_project.Telemetry.{Random}

-- A request for another interval polls the MQTT process, and leaves the flag for it.
set-changed :
    (c : Config) (n : ℕ) (s : Sampling)
    → clamp_interval c n ≢ get_publish_interval_ms s
    → let (t, calls) = set_publish_interval_ms c n s in
      (get_publish_interval_ms t ≡ clamp_interval c n)
      × (publish_interval_is_dirty t ≡ true)
      × (calls ≡ process_poll ∷ [])
set-changed c n s other =
    let (e, effect) = set_publish_interval_ms_clamped c n s in
    elim effect [
      | inl (_, dirty, calls) ↦ (e, dirty, calls)
      | inr (same, _, _) ↦ absurd (other same)
    ]

module _ {timers : Ctimer} {random : Random} {etimers : Etimer} where
  -- While the broker is connected, a PUT of the decimal text of a number from 1 to 60000 whose
  -- clamped value is another interval than before polls the MQTT process and is answered 2.04, and
  -- the round that the poll wakes runs the publish timer with the new interval, clears the flag and
  -- calls nothing.
  pub round-res_put_handler :
      (c : Config) (clock_second : ℕ) (w : Wake) (n : ℕ) (m : Mqtt timers random etimers)
      → 0 < n
      → n ≤ 60000
      → clamp_interval c n ≢ get_publish_interval_ms m.sampling
      → w.is_poll ≡ true
      → m.mqtt_state ≡ connected
      → let text = print_lu n in
        let (s, calls) = res_put_handler c (some text) m.sampling in
        let (m', calls') = round c clock_second w (record m { sampling = s }) in
        (calls
          ≡ process_poll ∷ set_status_code changed_2_04 ∷ set_local_payload text (length text) ∷ [])
        × (calls' ≡ [])
        × (get_publish_interval_ms m'.sampling ≡ clamp_interval c n)
        × (publish_interval_is_dirty m'.sampling ≡ false)
        × (m'.pub_timer
            ≡ etimers.set (publish_interval_to_ticks clock_second (clamp_interval c n)) m.pub_timer)
  round-res_put_handler c clock_second w n m p q other poll conn =
      let (state, replies) = put-print_lu c n m.sampling p q in
      let (interval, dirty, polled) = set-changed c n m.sampling other in
      let s = (res_put_handler c (some (print_lu n)) m.sampling).0 in
      let at : get_publish_interval_ms s ≡ clamp_interval c n =
        ap get_publish_interval_ms state ∙ interval in
      let (quiet, clean, kept, timer, _, _) =
        round-dirty c clock_second w (record m { sampling = s }) poll
          (ap publish_interval_is_dirty state ∙ dirty) conn in
      (
        replies ∙ rw polled,
        quiet,
        kept ∙ at,
        clean,
        timer ∙ ap (λ ms. etimers.set (publish_interval_to_ticks clock_second ms) m.pub_timer) at,
      )
