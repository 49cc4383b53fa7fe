-- ===== src/Tests/SystemTests.antt =====
-- A diesel node from its start through the warm-up.
use io_t_project.Prelude.{◌≡◌, ◌≢◌, refl, [], ◌∷◌, length, true, false, some, codes, arith}
use io_t_project.Calls.{changed_2_04, process_poll, set_status_code, set_local_payload}
use io_t_project.Coap.{reply}
use io_t_project.Config.{diesel, diesel-IsConfig}
use io_t_project.Device.{countdown, startup_complete}
use io_t_project.Mqtt.{start, stopwatch, round}
use io_t_project.Resources.Status.{res_put_handler}
use io_t_project.Sampling.{
  get_publish_interval_ms, clamp_interval, publish_interval_is_dirty, publish_interval_to_ticks,
}
use io_t_project.CLib.Decimal.{print_lu}
use io_t_project.Resources.Sampling
use io_t_project.System.{put_status, startup, Reach, here, next, IsSound}
use io_t_project.System.Interval.{round-res_put_handler}
use io_t_project.System.Safety.{Reach-IsSound, Step-switches_on}
use io_t_project.Tests.Samples.{lcg, node_leds, warming_node, warming, ready_node, polled}

warm_up :
    Reach diesel 128 node_leds
      (start {random = lcg} {etimers = stopwatch} diesel 128 (0, false) 7)
      warming_node
unfolding start res_put_handler
warm_up = next here (put_status (some (codes "on")) (warming, reply changed_2_04 "starting" 8) refl)

warming-IsSound : IsSound diesel warming_node
unfolding get_publish_interval_ms
warming-IsSound = record { in_range = ground arith; consistent = ground arith; counted = λ e. cc }

Reach-IsSound_example : IsSound diesel warming_node
Reach-IsSound_example = Reach-IsSound (0, false) 7 diesel-IsConfig warm_up

Step-switches_on_example :
    (true ≡ true)
    × (countdown.is_pending warming_node.sensor.device.startup_timer ≡ true)
    × (startup_complete warming ≡ startup_complete warming)
unfolding startup_complete
Step-switches_on_example =
    Step-switches_on {clock_second = 128} {leds = node_leds} {m = warming_node} (omega arith)
      (startup refl) warming-IsSound refl refl

clamped-ne : clamp_interval diesel 60000 ≢ get_publish_interval_ms ready_node.sampling
unfolding clamp_interval get_publish_interval_ms
clamped-ne e = omega (arith, e)

round-res_put_handler_example :
    let text = print_lu 60000 in
    let (s, calls) = Sampling.res_put_handler diesel (some text) ready_node.sampling in
    let (m', calls') = round diesel 128 polled (record ready_node { sampling = s }) in
    (calls
      ≡ process_poll ∷ set_status_code changed_2_04 ∷ set_local_payload text (length text) ∷ [])
    × (calls' ≡ [])
    × (get_publish_interval_ms m'.sampling ≡ clamp_interval diesel 60000)
    × (publish_interval_is_dirty m'.sampling ≡ false)
    × (m'.pub_timer
        ≡ stopwatch.set
            (publish_interval_to_ticks 128 (clamp_interval diesel 60000))
            ready_node.pub_timer)
round-res_put_handler_example =
    round-res_put_handler diesel 128 polled 60000 ready_node (omega arith) (omega arith) clamped-ne
      refl refl
