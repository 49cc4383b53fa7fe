-- ===== src/Server/BatteryNode.antt =====
-- The resources of resources/res-battery.c, of which coap-mqtt-battery-sensor.c activates one.
use io_t_project.Prelude.{Option, none, some, List, [], ◌∷◌, Bytes, codes, ◌>>=◌, ◌++◌}
use io_t_project.Calls.{Call}
use io_t_project.Coap.{Payload}
use io_t_project.Battery.Floats.{FloatOps}
use io_t_project.Battery.State.{
  Battery, res_put_battery_handler, res_get_override_handler, res_put_override_handler,
}
use io_t_project.Battery.Json.{res_get_battery_handler}
use io_t_project.Battery.Logs.{res_put_battery_logs}
use io_t_project.Server.{Resource, Request, Engine}

pub data Handler : Type 0 where
  battery_get battery_put override_get override_put : Handler

abbrev pub res_battery : Resource Handler
res_battery = record {
  get_handler = some battery_get;
  post_handler = none;
  put_handler = some battery_put;
  delete_handler = none;
}

abbrev pub res_battery_override : Resource Handler
res_battery_override = record {
  get_handler = some override_get;
  post_handler = none;
  put_handler = some override_put;
  delete_handler = none;
}

-- What the server process activates.
unfoldable pub activated : List (Bytes × Resource Handler)
activated = (codes "actuators/battery", res_battery) ∷ []

module _ (floats : FloatOps) where
  -- `none` is a conversion to `long` that C leaves undefined, for a reply or for a log line.
  unfoldable pub handle : Handler → Payload → Battery floats → Option (Battery floats × List Call)
  unfolding res_get_battery_handler res_put_battery_logs res_put_battery_handler
      res_put_override_handler
  handle battery_get payload b = res_get_battery_handler floats b >>= λ calls. some (b, calls)
  handle battery_put payload b = res_put_battery_logs floats payload b >>= λ texts.
      some (res_put_battery_handler floats payload b)
  handle override_get payload b = some (b, res_get_override_handler floats b)
  handle override_put payload b = res_put_override_handler floats payload b

  unfoldable pub handle_route :
      Option Handler → Payload → Battery floats → Option (Battery floats × List Call)
  unfolding handle
  handle_route none payload b = some (b, [])
  handle_route (some h) payload b = handle h payload b

  unfoldable pub serve :
      Engine Handler → Request → Battery floats → Option (Battery floats × List Call)
  unfolding handle_route activated
  serve engine req b = handle_route (engine.route activated req.path req.method) req.payload b

  -- Requests one after another, with the calls that their handlers make.
  unfoldable pub serve_all :
      Engine Handler → List Request → Battery floats → Option (Battery floats × List Call)
  unfolding serve
  serve_all engine [] b = some (b, [])
  serve_all engine (req ∷ reqs) b = do
    (b', calls) ← serve engine req b
    (b'', more) ← serve_all engine reqs b'
    some (b'', calls ++ more)
