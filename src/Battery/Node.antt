-- ===== src/Battery/Node.antt =====
-- A battery node as a whole, after its start: AUTOSTART_PROCESSES of coap-mqtt-battery-sensor.c starts
-- its two processes, and from then on requests and wake-ups of the register process come in any order.
use io_t_project.Prelude.{ℕ, Option, some, List, [], ◌∷◌, ◌++◌, Bytes, ◌>>=◌}
use io_t_project.Battery.Floats.{FloatOps}
use io_t_project.Battery.Registration.{battery_id, battery_registration_at}
use io_t_project.Battery.State.{Battery, initial}
use io_t_project.Calls.{Call}
use io_t_project.Registration.Process.{Phase, waiting, Wakeup, register_step}
use io_t_project.Server.{Request, Engine}
use io_t_project.Server.BatteryNode.{Handler, serve}

-- A request that the engine has parsed, or what the register process wakes up for.
pub data BatteryTurn : Type 0 where
  request : Request → BatteryTurn
  register : Wakeup → BatteryTurn

-- The requests among the turns, and the wake-ups of the register process, in their order.
unfoldable pub requests : List BatteryTurn → List Request
requests [] = []
requests (request req ∷ turns) = req ∷ requests turns
requests (register w ∷ turns) = requests turns

unfoldable pub wakeups : List BatteryTurn → List Wakeup
wakeups [] = []
wakeups (request req ∷ turns) = wakeups turns
wakeups (register w ∷ turns) = w ∷ wakeups turns

module _ (floats : FloatOps) where
  -- The static variables, and where the registration stands.
  pub record BatteryBoard : Type 0 where
    pub battery : Battery floats
    pub registering : Phase
    pub id : Bytes

  -- Both processes have started, with `hi` and `lo` the last bytes of the link-layer address.
  unfoldable pub battery_boot : (hi lo : ℕ) → BatteryBoard
  unfolding initial battery_id
  battery_boot hi lo = record {
    battery = initial floats;
    registering = waiting;
    id = battery_id hi lo;
  }

  -- The calls of the server, and those of the register process. `none` is a conversion that C leaves
  -- undefined.
  unfoldable pub battery_turn :
      Engine Handler → BatteryTurn → BatteryBoard → Option (BatteryBoard × List Call × List Call)
  unfolding serve register_step battery_registration_at
  battery_turn engine (request req) b = do
    (battery', calls) ← serve floats engine req b.battery
    some (record b { battery = battery' }, calls, [])
  battery_turn engine (register w) b =
      let (phase', calls) = register_step (battery_registration_at b.id) b.registering w in
      some (record b { registering = phase' }, [], calls)

  unfoldable pub battery_life :
      Engine Handler
      → List BatteryTurn
      → BatteryBoard
      → Option (BatteryBoard × List Call × List Call)
  unfolding battery_turn
  battery_life engine [] b = some (b, [], [])
  battery_life engine (turn ∷ turns) b = do
    (b', served, posted) ← battery_turn engine turn b
    (b'', served', posted') ← battery_life engine turns b'
    some (b'', served ++ served', posted ++ posted')
