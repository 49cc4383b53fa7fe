-- ===== src/Resources/Status/Startup.antt =====
-- The power state under PUTs of actuators/status and the startup timer.
use io_t_project.Prelude.{
  ℕ, ◌*◌, ◌<◌, ◌≡◌, refl, Bool-cases, inl, inr, Bool, true, false, none, some, List, [], ◌∷◌, Bytes,
  codes, arith,
}
use io_t_project.Calls.{Call, AllInBounds}
use io_t_project.Coap.{Payload}
use io_t_project.Command.{Command, turn_on, turn_off, invalid, has_word, has_word_total}
use io_t_project.Config.{Config}
use io_t_project.Device.{Ctimer, Device, initial, startup_complete}
use io_t_project.Resources.Status.{put_command, read_command, res_put_handler}

read_command_total : (body : Bytes) → (command : Command) × (read_command body ≡ some command)
unfolding read_command
read_command_total body = answer (has_word_total body _ _) (has_word_total body _ _)
  where
    answer :
        (b : Bool) × (has_word body (codes "off") 3 ≡ some b)
        → (b : Bool) × (has_word body (codes "on") 2 ≡ some b)
        → (command : Command) × (read_command body ≡ some command)
    answer (true, e) on = (turn_off, rw e)
    answer (false, e) (true, f) = (turn_on, rw (e, f))
    answer (false, e) (false, f) = (invalid, rw (e, f))

module _ {timers : Ctimer} where
  -- The device is starting exactly while its timer is pending, never while it is on, and never
  -- without a startup delay.
  pub record IsConsistent (c : Config) (d : Device timers) : Type 0 where
    pub starting_pending : d.device_starting ≡ timers.is_pending d.startup_timer
    pub on_not_starting : d.device_on ≡ true → d.device_starting ≡ false
    pub instant : c.startup_delay_s ≡ 0 → d.device_starting ≡ false

  pub initial-IsConsistent : (c : Config) → IsConsistent c (initial timers c)
  unfolding initial
  initial-IsConsistent c = ground (arith, timers.is_pending-idle)

  put_command-IsConsistent :
      (c : Config) (clock_second : ℕ) (command : Command) {d : Device timers}
      → IsConsistent c d
      → IsConsistent c (put_command c clock_second command d).0
  unfolding put_command
  put_command-IsConsistent c clock_second turn_on {d} h =
      ground (arith, timers.is_pending-set (c.startup_delay_s * clock_second) d.startup_timer)
  put_command-IsConsistent c clock_second turn_off {d} h =
      ground (arith, timers.is_pending-stop d.startup_timer)
  put_command-IsConsistent c clock_second invalid h = h

  -- The replies' lengths are those of their texts.
  put_command-AllInBounds :
      (c : Config) (clock_second : ℕ) (command : Command) (d : Device timers)
      → AllInBounds (put_command c clock_second command d).1
  unfolding put_command
  put_command-AllInBounds c clock_second turn_on d = elim (Bool-cases d.device_on) [
    | inl e ↦ simp e (ground arith)
    | inr e ↦ simp e (ground arith)
  ]
  put_command-AllInBounds c clock_second turn_off d = ground arith
  put_command-AllInBounds c clock_second invalid d = ground arith

  -- With a startup delay no command switches the device on.
  put_command-on :
      (c : Config) (clock_second : ℕ) (command : Command) (d : Device timers)
      → 0 < c.startup_delay_s
      → (put_command c clock_second command d).0.device_on ≡ true
      → d.device_on ≡ true
  unfolding put_command
  put_command-on c clock_second turn_on d h e = ground arith
  put_command-on c clock_second turn_off d h e = ground arith
  put_command-on c clock_second invalid d h e = ground arith

  pub res_put_handler_safe :
      (c : Config) (clock_second : ℕ) (payload : Payload) {d : Device timers}
      → IsConsistent c d
      → (r : Device timers × List Call) × (res_put_handler c clock_second payload d ≡ some r)
        × IsConsistent c r.0
        × AllInBounds r.1
        × (0 < c.startup_delay_s → r.0.device_on ≡ true → d.device_on ≡ true)
  unfolding res_put_handler
  res_put_handler_safe c clock_second none {d} h = (_, refl, h, omega arith, λ _ e. e)
  res_put_handler_safe c clock_second (some []) {d} h = (_, refl, h, omega arith, λ _ e. e)
  res_put_handler_safe c clock_second (some (b ∷ bytes)) {d} h =
      let (command, e) = read_command_total (b ∷ bytes) in
      (
        put_command c clock_second command d,
        rw e,
        put_command-IsConsistent c clock_second command h,
        put_command-AllInBounds c clock_second command d,
        put_command-on c clock_second command d,
      )

  -- Whatever its payload, a PUT in a consistent state is answered: it reads nothing outside the body,
  -- leaves a consistent state, and replies with no byte that its text does not have.
  pub res_put_handler_answers :
      (c : Config) (clock_second : ℕ) (payload : Payload) {d : Device timers}
      → IsConsistent c d
      → (r : Device timers × List Call) × (res_put_handler c clock_second payload d ≡ some r)
        × IsConsistent c r.0
        × AllInBounds r.1
  res_put_handler_answers c clock_second payload h =
      let (r, e, kept, bounds, _) = res_put_handler_safe c clock_second payload h in
      (r, e, kept, bounds)

  -- The end of the warm-up keeps the invariant and leaves the device on.
  pub startup_complete-IsConsistent :
      {c : Config} {d : Device timers} → IsConsistent c d → IsConsistent c (startup_complete d)
  unfolding startup_complete
  startup_complete-IsConsistent {c} {d} h = ground (arith, timers.is_pending-expire d.startup_timer)
