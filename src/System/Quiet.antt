-- ===== src/System/Quiet.antt =====
-- The CoAP handlers that set the node's state publish nothing over MQTT.
use io_t_project.Prelude.{
  ℕ, ◌≡◌, refl, sym, ap, ◌∙◌, inl, inr, Bool-cases, Option, none, some, List, [], ◌∷◌, ◌++◌, Bytes,
  ltb, ◌||◌, >>=-eq-some, arith,
}
use mathlib.Core.Option.{some-injective}
use io_t_project.CLib.Strtoul.{strtoul}
use io_t_project.Calls.{Call, mqtt_publish}
use io_t_project.Coap.{Payload}
use io_t_project.Command.{Command, turn_on, turn_off, invalid}
use io_t_project.Config.{Config}
use io_t_project.Device.{Ctimer, Device}
use io_t_project.Mqtt.Published.{messages}
use io_t_project.Resources.Sampling
use io_t_project.Resources.Sampling.{put_number, copy_to_tmp}
use io_t_project.Resources.Status
use io_t_project.Resources.Status.{put_command, read_command}
use io_t_project.Sampling.{Sampling, set_publish_interval_ms}

pub messages-append : (xs ys : List Call) → messages (xs ++ ys) ≡ messages xs ++ messages ys
unfolding messages
messages-append [] ys = refl
messages-append (mqtt_publish payload ∷ xs) ys = ap (λ l. payload ∷ l) (messages-append xs ys)
messages-append (x ∷ xs) ys = messages-append xs ys

set_quiet : (c : Config) (n : ℕ) (s : Sampling) → messages (set_publish_interval_ms c n s).1 ≡ []
unfolding set_publish_interval_ms messages
set_quiet c n s = ground arith

put_number_quiet :
    (c : Config) (tmp : Bytes) (read : Option (ℕ × Bytes)) (s : Sampling)
    → messages (put_number c tmp read s).1 ≡ []
unfolding put_number messages
put_number_quiet c tmp none s = refl
put_number_quiet c tmp (some (n, d ∷ rest)) s = refl
put_number_quiet c tmp (some (n, [])) s = elim (Bool-cases (ltb n 1 || ltb 60000 n)) [
  | inl e ↦ rw e refl
  | inr e ↦ rw e (messages-append (set_publish_interval_ms c n s).1 _ ∙ rw (set_quiet c n s) refl)
]

pub put_sampling_quiet :
    (c : Config) (payload : Payload) (s : Sampling)
    → messages (Sampling.res_put_handler c payload s).1 ≡ []
unfolding Sampling.res_put_handler messages
put_sampling_quiet c none s = refl
put_sampling_quiet c (some []) s = refl
put_sampling_quiet c (some (b ∷ bytes)) s =
    let tmp = copy_to_tmp (b ∷ bytes) in put_number_quiet c tmp (strtoul tmp) s

module _ {timers : Ctimer} where
  put_command_quiet :
      (c : Config) (clock_second : ℕ) (command : Command) (d : Device timers)
      → messages (put_command c clock_second command d).1 ≡ []
  unfolding put_command messages
  put_command_quiet c clock_second turn_on d = ground arith
  put_command_quiet c clock_second turn_off d = refl
  put_command_quiet c clock_second invalid d = refl

  pub put_status_quiet :
      (c : Config) (clock_second : ℕ) (payload : Payload) (d : Device timers)
      (r : Device timers × List Call)
      → Status.res_put_handler c clock_second payload d ≡ some r
      → messages r.1 ≡ []
  unfolding Status.res_put_handler messages
  put_status_quiet c clock_second none d r e = ap (λ t. messages t.1) (sym (some-injective _ _ e))
  put_status_quiet c clock_second (some []) d r e =
      ap (λ t. messages t.1) (sym (some-injective _ _ e))
  put_status_quiet c clock_second (some (b ∷ bytes)) d r e =
      let (command, _, done) = >>=-eq-some (read_command (b ∷ bytes)) _ e in
      ap (λ t. messages t.1) (sym (some-injective _ _ done))
      ∙ put_command_quiet c clock_second command d
