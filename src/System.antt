-- ===== src/System.antt =====
-- A producer node as a whole: the MQTT process, the CoAP handlers and the timers take turns in any
-- order, and every state that is reached is sound.
use io_t_project.Prelude.{
  ℕ, ◌<◌, ◌≡◌, refl, ap, ◌∙◌, ◌⊎◌, inl, inr, Bool, true, false, Option, none, some, List, [], ◌∷◌,
  arith,
}
pub mod Safety
pub mod Interval
pub mod Answers
pub mod Refinement
pub mod Quiet
pub mod Sent
pub mod Numbering
pub mod Pending
pub mod Reports
pub mod Session
pub mod Switches
use io_t_project.Calls.{Call}
use io_t_project.Coap.{Payload}
use io_t_project.Config.{Config, IsConfig}
use io_t_project.Device.{Ctimer, Device, startup_complete}
use io_t_project.Sampling.{get_publish_interval_ms}
use io_t_project.Sampling.Bounds.{IsInRange, initial-IsInRange}
use io_t_project.Telemetry.{Random, publish_telemetry}
use io_t_project.Telemetry.Shutdown.{publish_telemetry-IsConsistent}
use io_t_project.Resources.Leds.{Leds}
use io_t_project.Resources.Sampling
use io_t_project.Resources.Sampling.Put.{res_put_handler-IsInRange}
use io_t_project.Resources.Status
use io_t_project.Resources.Status.Startup.{
  IsConsistent, initial-IsConsistent, res_put_handler_safe, startup_complete-IsConsistent,
}
use io_t_project.Mqtt.{Etimer, MqttEvent, Mqtt, Wake, start, mqtt_event_handler, round, init}
use io_t_project.Mqtt.Connection.{IsCounted, round-IsCounted}
use io_t_project.Mqtt.Frame.{IsFramed, round-IsFramed}

module _ {timers : Ctimer} {random : Random} {etimers : Etimer} where
  -- One turn of the node. The environment chooses requests, events, wake-ups and the passing of time.
  pub data Step (c : Config) (clock_second : ℕ) (leds : Leds) (m : Mqtt timers random etimers)
      : Mqtt timers random etimers → Type 0 where
    wake : (w : Wake) → Step c clock_second leds m (round c clock_second w m).0
    event :
        (e : MqttEvent) (r : Mqtt timers random etimers × List Call)
        → mqtt_event_handler leds e m ≡ some r
        → Step c clock_second leds m r.0
    put_sampling :
        (payload : Payload)
        → Step c clock_second leds m
            (record m { sampling = (Sampling.res_put_handler c payload m.sampling).0 })
    put_status :
        (payload : Payload) (r : Device timers × List Call)
        → Status.res_put_handler c clock_second payload m.sensor.device ≡ some r
        → Step c clock_second leds m (record m { sensor = record m.sensor { device = r.0 } })
    -- the startup timer, which was pending, fires
    startup :
        timers.is_pending m.sensor.device.startup_timer ≡ true
        → Step c clock_second leds m
            (record m { sensor = record m.sensor { device = startup_complete m.sensor.device } })
    -- time passes for the publish timer
    elapse : (t : etimers.Timer) → Step c clock_second leds m (record m { pub_timer = t })

  pub data Reach (c : Config) (clock_second : ℕ) (leds : Leds) (m : Mqtt timers random etimers)
      : Mqtt timers random etimers → Type 0 where
    here : Reach c clock_second leds m m
    next :
        {t u : Mqtt timers random etimers}
        → Reach c clock_second leds m t
        → Step c clock_second leds t u
        → Reach c clock_second leds m u

  -- The publish interval is in range, the power state consistent and the attempts counted.
  pub record IsSound (c : Config) (m : Mqtt timers random etimers) : Type 0 where
    pub in_range : IsInRange c m.sampling
    pub consistent : IsConsistent c m.sensor.device
    pub counted : IsCounted m
