-- ===== src/Device.antt =====
-- The power state of a producer node that coap-mqtt-sensor.c shares with resources/res-status.c.
use io_t_project.Prelude.{ℕ, ◌≡◌, refl, Bool, true, false, Option, none, some}
use io_t_project.Config.{Config}

-- Contiki-NG's callback timers: what the firmware relies on is which operations leave one pending.
pub record Ctimer : Type 1 where
  pub Timer : Type 0
  pub idle : Timer
  pub set : ℕ → Timer → Timer
  pub stop : Timer → Timer
  -- the timer as its callback finds it
  pub expire : Timer → Timer
  pub is_pending : Timer → Bool
  pub is_pending-idle : is_pending idle ≡ false
  pub is_pending-set : (ticks : ℕ) (t : Timer) → is_pending (set ticks t) ≡ true
  pub is_pending-stop : (t : Timer) → is_pending (stop t) ≡ false
  pub is_pending-expire : (t : Timer) → is_pending (expire t) ≡ false

-- The laws can be met: the ticks that are left.
abbrev pub countdown : Ctimer
countdown = record {
  Timer = Option ℕ;
  idle = none;
  set = λ ticks t. some ticks;
  stop = λ t. none;
  expire = λ t. none;
  is_pending = λ t. elim t [ none ↦ false | some ticks ↦ true ];
  is_pending-idle = refl;
  is_pending-set = λ ticks t. refl;
  is_pending-stop = λ t. refl;
  is_pending-expire = λ t. refl;
}

pub record Device (timers : Ctimer) : Type 0 where
  pub device_on : Bool
  pub device_starting : Bool
  pub startup_timer : timers.Timer

unfoldable pub initial : (timers : Ctimer) → Config → Device timers
initial timers c = record {
  device_on = c.default_on;
  device_starting = false;
  startup_timer = timers.idle;
}

module _ {timers : Ctimer} where
  -- The callback of the startup timer.
  unfoldable pub startup_complete : Device timers → Device timers
  startup_complete d = record d {
    device_starting = false;
    device_on = true;
    startup_timer = timers.expire d.startup_timer;
  }
