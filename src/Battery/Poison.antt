-- ===== src/Battery/Poison.antt =====
-- A battery node that gets a body `nan` among its turns.
use io_t_project.Prelude.{◌≡◌, refl, inl, inr, Option-cases, none, some, List, [], ◌∷◌, ◌++◌, codes}
use io_t_project.Battery.Floats.{FloatOps, IsIeee}
use io_t_project.Battery.Logs.{res_put_battery_logs-nan}
use io_t_project.Battery.Node.{BatteryTurn, request, BatteryBoard, battery_turn, battery_life}
use io_t_project.Battery.State.{Battery}
use io_t_project.Server.{Request, Engine}
use io_t_project.Server.BatteryNode.{Handler, battery_put, activated, handle, handle_route, serve}

module _ (floats : FloatOps) (ieee : IsIeee floats) where
  serve-nan :
      (engine : Engine Handler) (req : Request) (b : Battery floats)
      → engine.route activated req.path req.method ≡ some battery_put
      → req.payload ≡ some (codes "nan")
      → serve floats engine req b ≡ none
  unfolding serve handle_route handle
  serve-nan engine req b routed body =
      rw (routed, body, res_put_battery_logs-nan floats ieee b) refl

  -- In whatever state and whatever turns come before and after it, a request that the CoAP engine
  -- routes to the PUT of the battery, with the body `nan`, makes the node do what C leaves undefined.
  pub battery_life-nan :
      (engine : Engine Handler) (req : Request) (before after : List BatteryTurn)
      (b : BatteryBoard floats)
      → engine.route activated req.path req.method ≡ some battery_put
      → req.payload ≡ some (codes "nan")
      → battery_life floats engine (before ++ request req ∷ after) b ≡ none
  unfolding battery_life battery_turn
  battery_life-nan engine req [] after b routed body =
      rw (serve-nan engine req b.battery routed body) refl
  battery_life-nan engine req (turn ∷ before) after b routed body =
      elim (Option-cases (battery_turn floats engine turn b)) [
        | inl e ↦ rw e refl
        | inr ((b', served, posted), e) ↦
            rw (e, battery_life-nan engine req before after b' routed body) refl
      ]
