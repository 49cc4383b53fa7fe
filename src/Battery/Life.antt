-- ===== src/Battery/Life.antt =====
-- The two processes of a battery node, side by side and over the node's whole life.
use io_t_project.Prelude.{
  ℕ, ◌≡◌, refl, ◌∙◌, inl, inr, Option-cases, Option, none, some, List, [], ◌∷◌, ◌++◌, Bytes, All,
  ◌>>=◌,
}
use io_t_project.Battery.Floats.{FloatOps, IsIeee}
use io_t_project.Battery.Node.{
  BatteryTurn, request, register, requests, wakeups, BatteryBoard, battery_boot, battery_life,
}
use io_t_project.Battery.Registered.{
  decode_battery_registration, decode-battery_registration, battery_id-HasNoQuote,
}
use io_t_project.Battery.Registration.{
  battery_id, length-battery_id, battery_registration_at, battery_registration_at_whole,
}
use io_t_project.Battery.State.{Battery}
use io_t_project.Calls.{Call}
use io_t_project.Node.{Network, get_node_ip}
use io_t_project.Node.Plain.{IsTidyNetwork}
use io_t_project.Registration.Once.{Wakes, moment_of_run, IsRegistered, run-IsRegistered}
use io_t_project.Registration.Process.{Phase, waiting, register_step, register_run, posts}
use io_t_project.Server.{Engine}
use io_t_project.Server.BatteryNode.{Handler, serve, serve_all}
use io_t_project.Server.BatteryRuns.{IsSafe, SendsModest, serve_all-IsSafe}

module _ (floats : FloatOps) where
  -- The two processes side by side, each with its own turns.
  unfoldable pub apart :
      Option (Battery floats × List Call)
      → Phase × List Call
      → (id : Bytes) → Option (BatteryBoard floats × List Call × List Call)
  apart none registered id = none
  apart (some (battery, served)) (phase, posted) id =
      some (record { battery = battery; registering = phase; id = id }, served, posted)

  apart-served :
      (o : Option (Battery floats × List Call)) (r : Phase × List Call) (id : Bytes)
      (calls : List Call)
      → (apart o r id >>= λ (b, served, posted). some (b, calls ++ served, posted))
        ≡ apart (o >>= λ (battery, served). some (battery, calls ++ served)) r id
  unfolding apart
  apart-served none (phase, posted) id calls = refl
  apart-served (some (battery, served)) (phase, posted) id calls = refl

  apart-posted :
      (o : Option (Battery floats × List Call)) (r : Phase × List Call) (id : Bytes)
      (calls : List Call)
      → (apart o r id >>= λ (b, served, posted). some (b, served, calls ++ posted))
        ≡ apart o (r.0, calls ++ r.1) id
  unfolding apart
  apart-posted none (phase, posted) id calls = refl
  apart-posted (some (battery, served)) (phase, posted) id calls = refl

  -- A battery node answers and registers, in whatever order its requests and wake-ups come, as if the
  -- server had met the requests alone and the register process the wake-ups alone: with the same
  -- state, the same calls of each, and an undefined conversion exactly where the server alone has one.
  pub battery_life-apart :
      (engine : Engine Handler) (turns : List BatteryTurn) (b : BatteryBoard floats)
      → battery_life floats engine turns b
        ≡ apart
            (serve_all floats engine (requests turns) b.battery)
            (register_run (battery_registration_at b.id) b.registering (wakeups turns))
            b.id
  unfolding battery_life apart serve_all register_run requests wakeups
  battery_life-apart engine [] b = refl
  battery_life-apart engine (request req ∷ turns) b =
      elim (Option-cases (serve floats engine req b.battery)) [
        | inl e ↦ rw e refl
        | inr ((battery', calls), e) ↦
            rw (e, battery_life-apart engine turns (record b { battery = battery' }))
              (apart-served _ _ b.id calls)
      ]
  battery_life-apart engine (register w ∷ turns) b =
      let (phase', calls) = register_step (battery_registration_at b.id) b.registering w in
      rw (battery_life-apart engine turns (record b { registering = phase' }))
        (apart-posted _ _ b.id calls)

-- A registration that tells this id and the address of this network.
abbrev pub BatteryRegisters : (id : Bytes) → Network → (clock_seconds : ℕ) → Bytes → Type 0
BatteryRegisters id net clock_seconds payload =
    decode_battery_registration payload ≡ some (record { id = id; ip = get_node_ip net })

battery_registration_at-BatteryRegisters :
    (hi lo : ℕ) (net : Network) (clock_seconds : ℕ)
    → IsTidyNetwork net
    → BatteryRegisters
        (battery_id hi lo)
        net
        clock_seconds
        (battery_registration_at (battery_id hi lo) net clock_seconds)
battery_registration_at-BatteryRegisters hi lo net clock_seconds tidy =
    rw
      (battery_registration_at_whole (battery_id hi lo) net clock_seconds (length-battery_id hi lo)
        tidy.in_range)
      (decode-battery_registration (battery_id hi lo) (get_node_ip net)
        (battery_id-HasNoQuote hi lo) tidy.plain)

module _ (floats : FloatOps) (ieee : IsIeee floats) where
  -- Over the whole life of a battery node, from the start of its processes and in whatever order
  -- requests of any paths and methods and wake-ups of the register process come, no conversion of a
  -- float to `long` is undefined, for replies and log lines; the charge is between 0 and 10 kWh, the
  -- lock on at 95% and above and off at 75% and below, and no override active; and until the first
  -- wait of the register process that ends with connectivity, the process waits and has posted
  -- nothing, and from that wait on it has posted exactly one registration, which reads back with the
  -- node's id and the address of that wait. The bodies of the requests are read as numbers from -10000
  -- to 10000, and the networks it meets have addresses in range that hold no quote.
  pub battery_life-IsSafe :
      (engine : Engine Handler) (hi lo : ℕ) (turns : List BatteryTurn)
      → All (SendsModest floats ieee) (requests turns)
      → All (Wakes IsTidyNetwork) (wakeups turns)
      → (b : BatteryBoard floats) × (served : List Call) × (posted : List Call) × (battery_life
            floats engine turns
            (battery_boot floats hi lo)
          ≡ some (b, served, posted))
        × IsSafe floats ieee b.battery
        × IsRegistered
            (BatteryRegisters (battery_id hi lo))
            (moment_of_run none (wakeups turns))
            b.registering
            (posts posted)
  unfolding battery_boot apart posts
  battery_life-IsSafe engine hi lo turns numbers met =
      let id = battery_id hi lo in
      let ((battery, served), answered, safe) =
        serve_all-IsSafe floats ieee engine (requests turns) numbers in
      let once =
        run-IsRegistered (BatteryRegisters id) IsTidyNetwork (battery_registration_at id)
          (battery_registration_at-BatteryRegisters hi lo) none waiting (wakeups turns) [] met
          (refl, refl) in
      let split = battery_life-apart floats engine turns (battery_boot floats hi lo) in
      let (phase, posted) = register_run (battery_registration_at id) waiting (wakeups turns) in
      let b : BatteryBoard floats = record { battery = battery; registering = phase; id = id } in
      (b, served, posted, split ∙ rw answered refl, safe, once)
