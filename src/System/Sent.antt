-- ===== src/System/Sent.antt =====
-- What a run of a producer node publishes.
use io_t_project.Prelude.{ℕ, ◌+◌, ◌%◌, ◌^◌, ◌≤◌, ◌≡◌, refl, List, [], ◌++◌, Bytes, length}
use io_t_project.Calls.{Call}
use io_t_project.Config.{Config}
use io_t_project.Device.{Ctimer}
use io_t_project.Mqtt.{Etimer, Mqtt, Wake, moment_of, round}
use io_t_project.Mqtt.Published.{messages}
use io_t_project.Node.{IsNetwork, get_node_ip}
use io_t_project.Reader.{HasNoQuote}
use io_t_project.Resources.Leds.{Leds}
use io_t_project.Resources.Sampling
use io_t_project.Resources.Sampling.{put_number, copy_to_tmp}
use io_t_project.System.{
  Step, wake, event, put_sampling, put_status, startup, elapse, Reach, here, next, IsSound,
}
use io_t_project.Telemetry.{Random, Moment, Sensor, publish_telemetry}
use io_t_project.Telemetry.Fits.{IsMoment}

module _ {timers : Ctimer} {random : Random} where
  pub publish_telemetry-mqtt_seq :
      (c : Config) (at : Moment) (s : Sensor timers random)
      → (publish_telemetry c at s).0.mqtt_seq ≡ (s.mqtt_seq + 1) % 2 ^ 32
  unfolding publish_telemetry
  publish_telemetry-mqtt_seq c at s = refl

-- A wake-up whose id and addresses are in range and hold no quote.
pub record IsTidy (w : Wake) : Type 0 where
  pub id_short : length w.id ≤ 16
  pub id_plain : HasNoQuote w.id
  pub network_ok : IsNetwork w.network
  pub address_plain : HasNoQuote (get_node_ip w.network)

module _ {timers : Ctimer} {random : Random} {etimers : Etimer} where
  -- The calls of a turn.
  unfoldable pub calls_of :
      {c : Config} {clock_second : ℕ} {leds : Leds} {m m' : Mqtt timers random etimers}
      → Step c clock_second leds m m'
      → List Call
  calls_of {c} {clock_second} {leds} {m} (wake w) = (round c clock_second w m).1
  calls_of (event e r done) = r.1
  calls_of {c} {clock_second} {leds} {m} (put_sampling payload) =
      (Sampling.res_put_handler c payload m.sampling).1
  calls_of (put_status payload r done) = r.1
  calls_of (startup pending) = []
  calls_of (elapse t) = []

  -- The payloads that a run publishes, in their order.
  unfoldable pub sent :
      {c : Config} {clock_second : ℕ} {leds : Leds} {m m' : Mqtt timers random etimers}
      → Reach c clock_second leds m m'
      → List Bytes
  unfolding calls_of
  sent here = []
  sent (next before turn) = sent before ++ messages (calls_of turn)

  abbrev pub IsTidyTurn :
      {c : Config} {clock_second : ℕ} {leds : Leds} {m m' : Mqtt timers random etimers}
      → Step c clock_second leds m m'
      → Type 0
  IsTidyTurn (wake w) = IsTidy w
  IsTidyTurn _ = Unit

  -- Every wake-up of the run is tidy.
  abbrev pub IsTidyRun :
      {c : Config} {clock_second : ℕ} {leds : Leds} {m m' : Mqtt timers random etimers}
      → Reach c clock_second leds m m'
      → Type 0
  IsTidyRun here = Unit
  IsTidyRun (next before turn) = IsTidyRun before × IsTidyTurn turn

  pub moment_of-IsMoment :
      {c : Config} (w : Wake) (m : Mqtt timers random etimers)
      → IsSound c m
      → IsTidy w
      → IsMoment c (moment_of w m)
  moment_of-IsMoment w m sound tidy = record {
    id_short = tidy.id_short;
    network_ok = tidy.network_ok;
    interval_le = sound.in_range.interval_le;
  }
