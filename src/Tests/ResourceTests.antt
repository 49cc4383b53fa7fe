-- ===== src/Tests/ResourceTests.antt =====
-- The LED and push resources, the decision tree and the registration at concrete inputs.
use io_t_project.Prelude.{
  ℕ, ◌≤◌, ◌<◌, ◌≡◌, refl, ◌⊎◌, ◌↔◌, true, none, some, List, [], ◌∷◌, ◌++◌, codes, length,
  if◌then◌else◌,
}
use io_t_project.Anomaly.{detect_anomaly, tenths, detect_anomaly_iff}
use io_t_project.Calls.{Call, leds_on, leds_off, AllInBounds}
use io_t_project.Config.{wind}
use io_t_project.Node.{node_id}
use io_t_project.Resources.Leds.{res_post_put_handler, mqtt_led_command}
use io_t_project.Resources.Leds.Table.{
  overprints, led_named, asked, answer_to, res_post_put_handler-asked,
}
use io_t_project.Resources.Leds.Reads.{IsCutOff}
use io_t_project.Resources.Leds.Commands.{IsLit, Commands, mqtt_led_command-Commands}
use io_t_project.Resources.Push.{push_text, res_get_handler, res_get_handler-AllInBounds}
use io_t_project.Tests.Samples.{node_leds}

-- A mode is compared by its own length, so its first letters will do.
short_mode : res_post_put_handler node_leds (codes "g") (codes "o") (0 ∷ []) ≡ some (leds_on 2 ∷ [])
unfolding res_post_put_handler
short_mode = refl

led_command : mqtt_led_command node_leds (codes "led:r:off") ≡ some (leds_off 1 ∷ [])
unfolding mqtt_led_command
led_command = refl

wind_id : node_id wind 0xa1 0xb2 ≡ codes "prod_wind_a1b2"
unfolding node_id
wind_id = refl

node_leds-IsLit : IsLit node_leds
node_leds-IsLit = record { red_lit = λ e. cc; green_lit = λ e. cc; blue_lit = λ e. cc }

mqtt_led_command-Commands_example :
    let chunk = codes "led:g:off" in
    ((mqtt_led_command node_leds chunk ≡ none) ↔ IsCutOff node_leds chunk)
    × ((call : Call)
        → (mqtt_led_command node_leds chunk ≡ some (call ∷ [])) ↔ Commands node_leds chunk call)
    × ((calls : List Call)
        → mqtt_led_command node_leds chunk ≡ some calls
        → (calls ≡ []) ⊎ (call : Call) × (calls ≡ call ∷ []))
mqtt_led_command-Commands_example = mqtt_led_command-Commands (codes "led:g:off") node_leds-IsLit

res_get_handler-AllInBounds_example :
    AllInBounds (res_get_handler 5000 1000 16 0) ↔ (length (push_text 0) ≤ 16)
res_get_handler-AllInBounds_example = res_get_handler-AllInBounds 5000 1000 16 0

detect_anomaly_iff_example :
    (detect_anomaly (tenths 2290) (tenths 159) ≡ true)
    ↔ ((836 < 159) ⊎ (729 < 159) × (◌≡◌ {A = ℕ} 2290 0) ⊎ (159 ≤ 197) × (2290 ≤ 5))
detect_anomaly_iff_example = detect_anomaly_iff 2290 159

res_post_put_handler-asked_example :
    res_post_put_handler node_leds (codes "g") (codes "of") (codes "&x=1" ++ (0 ∷ [])) ≡ (
      if overprints (led_named node_leds (codes "g")) (codes "of") (codes "&x=1" ++ (0 ∷ []))
      then none
      else some (answer_to (asked node_leds (codes "g") (codes "of"))))
res_post_put_handler-asked_example =
    res_post_put_handler-asked node_leds (codes "g") (codes "of") (codes "&x=1" ++ (0 ∷ []))

asked_short : asked node_leds (codes "g") (codes "of") ≡ some (leds_off 2)
unfolding asked
asked_short = refl
