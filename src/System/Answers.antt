-- ===== src/System/Answers.antt =====
-- The answers of actuators/status, in terms of the automaton of Power.
use io_t_project.Prelude.{
  ℕ, ◌≡◌, refl, ap, ◌∙◌, ◌⊎◌, inl, inr, Bool-cases, none, some, List, [], ◌∷◌, codes, arith,
}
use io_t_project.Calls.{
  Call, set_payload, set_header_content_format, text_plain, changed_2_04, IsRefusal,
}
use io_t_project.Coap.{Payload, reply}
use io_t_project.Command.{Command, turn_on, turn_off, invalid}
use io_t_project.Config.{Config}
use io_t_project.Device.{Ctimer, Device}
use io_t_project.Power.{
  Power, powered_off, warming_up, powered_on, Cause, quiet, command_on, command_off, next_power,
  command_of, view,
}
use io_t_project.Resources.Status.{put_off, put_on, put_command, res_get_handler, res_put_handler}
use io_t_project.Resources.Status.Startup.{IsConsistent}
use io_t_project.System.Refinement.{cause_of_command, read_command-command_of, put_command-refines}

-- A state in the answer of a PUT and of a GET.
abbrev pub answer_of : Power → List Call
answer_of powered_off = reply changed_2_04 "off" 3
answer_of warming_up = reply changed_2_04 "starting" 8
answer_of powered_on = reply changed_2_04 "on" 2

abbrev pub content_of : Power → List Call
content_of powered_off = set_header_content_format text_plain ∷ set_payload (codes "off") 3 ∷ []
content_of warming_up = set_header_content_format text_plain ∷ set_payload (codes "starting") 8 ∷ []
content_of powered_on = set_header_content_format text_plain ∷ set_payload (codes "on") 2 ∷ []

module _ {timers : Ctimer} where
  -- A refusal that changes nothing, where nothing is commanded; else the state that the command leads
  -- to, in the answer and in a GET thereafter.
  abbrev pub IsPutAnswer : Config → Cause → Device timers → Device timers × List Call → Type 0
  IsPutAnswer c command d r =
      (command ≡ quiet) × (r.0 ≡ d) × IsRefusal r.1
      ⊎ (r.1 ≡ answer_of (next_power c.startup_delay_s command (view d)))
        × (res_get_handler r.0 ≡ content_of (next_power c.startup_delay_s command (view d)))

  res_get_handler-content_of : (d : Device timers) → res_get_handler d ≡ content_of (view d)
  unfolding res_get_handler view
  res_get_handler-content_of d = elim (Bool-cases d.device_on) [
    | inl on ↦ rw on refl
    | inr off ↦ elim (Bool-cases d.device_starting) [
      | inl starting ↦ rw (off, starting) refl
      | inr idle ↦ rw (off, idle) refl
    ]
  ]

  put_off-answer_of :
      (c : Config) (d : Device timers)
      → (put_off c d).1 ≡ answer_of (next_power c.startup_delay_s command_off (view d))
  unfolding put_off next_power
  put_off-answer_of c d = ground arith

  put_on-answer_of :
      (c : Config) (clock_second : ℕ) (d : Device timers)
      → (put_on c clock_second d).1 ≡ answer_of (next_power c.startup_delay_s command_on (view d))
  unfolding put_on next_power view
  put_on-answer_of c clock_second d = elim (Bool-cases d.device_on) [
    | inl on ↦ rw on (ground arith)
    | inr off ↦ rw off (ground arith)
  ]

  answers :
      (c : Config) (clock_second : ℕ) (command : Command) {d : Device timers}
      → IsConsistent c d
      → (put_command c clock_second command d).1
        ≡ answer_of (next_power c.startup_delay_s (cause_of_command command) (view d))
      → IsPutAnswer c (cause_of_command command) d (put_command c clock_second command d)
  answers c clock_second command {d} h e = inr (
    e,
    res_get_handler-content_of (put_command c clock_second command d).0
        ∙ ap content_of (put_command-refines c clock_second command h),
  )

  put_command-answers :
      (c : Config) (clock_second : ℕ) (command : Command) {d : Device timers}
      → IsConsistent c d
      → IsPutAnswer c (cause_of_command command) d (put_command c clock_second command d)
  unfolding cause_of_command put_command
  put_command-answers c clock_second turn_on {d} h =
      answers c clock_second turn_on h (put_on-answer_of c clock_second d)
  put_command-answers c clock_second turn_off {d} h =
      answers c clock_second turn_off h (put_off-answer_of c d)
  put_command-answers c clock_second invalid {d} h = inl (refl, refl, refl)

  -- In a consistent state, every PUT of the status is answered without a read outside its body. A body
  -- that commands nothing is refused and changes nothing; after one that begins with `on` or `off`,
  -- the answer, and a GET thereafter, show the state to which the automaton's command leads.
  pub put-get :
      (c : Config) (clock_second : ℕ) (payload : Payload) {d : Device timers}
      → IsConsistent c d
      → (r : Device timers × List Call) × (res_put_handler c clock_second payload d ≡ some r)
        × IsPutAnswer c (command_of payload) d r
  unfolding res_put_handler command_of
  put-get c clock_second none h = (_, refl, inl (refl, refl, refl))
  put-get c clock_second (some []) h = (_, refl, inl (refl, refl, refl))
  put-get c clock_second (some (b ∷ bytes)) {d} h =
      let (command, read, cause) = read_command-command_of (b ∷ bytes) in
      (
        put_command c clock_second command d,
        rw read refl,
        rw cause (put_command-answers c clock_second command h),
      )
