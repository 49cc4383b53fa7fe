-- ===== src/Battery/Registered.antt =====
-- `coap_register_process` of coap-mqtt-battery-sensor.c as a process, and a reader of what it posts.
use io_t_project.Prelude.{
  ℕ, ◌≡◌, refl, true, Option, some, List, [], ◌∷◌, ◌++◌, Bytes, codes, map, ◌>>=◌, arith,
}
use io_t_project.Reader.{expect, until_quote, HasNoQuote, until_quote-append}
use io_t_project.Battery.Registration.{
  battery_id, length-battery_id, battery_registration, battery_registration_at,
  battery_registration_at_whole,
}
use io_t_project.Calls.{Call, coap_post}
use io_t_project.Coap.{Payload}
use io_t_project.Node.{Network, IsNetwork, have_connectivity, get_node_ip}
use io_t_project.Node.Plain.{take-HasNoQuote}
use io_t_project.Registration.Process.{
  Phase, Wakeup, waiting, finished, delay_over, response, request_over, Offline, delays, handle_all,
  register_run, register_run-finished,
}

-- What the registration of a battery says.
pub record RegisteredBattery : Type 0 where
  pub id : Bytes
  pub ip : Bytes

unfoldable pub decode_battery_registration : Bytes → Option RegisteredBattery
unfolding expect until_quote
decode_battery_registration s0 = do
  s1 ← expect (codes "{\"node_id\":\"") s0
  (id, s2) ← until_quote s1
  s3 ← expect (codes ",\"ip\":\"") s2
  (ip, s4) ← until_quote s3
  s5 ← expect (codes ",\"port\":5683,\"type\":\"battery\",\"proto\":\"coap\"}") s4
  some (record { id = id; ip = ip })

-- The process on a node with `hi` and `lo` as the last bytes of its link-layer address.
unfoldable pub battery_register_run : (hi lo : ℕ) → List Wakeup → Phase × List Call
unfolding register_run battery_registration_at
battery_register_run hi lo = register_run (battery_registration_at (battery_id hi lo)) waiting

pub battery_id-HasNoQuote : (hi lo : ℕ) → HasNoQuote (battery_id hi lo)
unfolding battery_id
battery_id-HasNoQuote hi lo = take-HasNoQuote 31 (codes "prod_battery_") hi lo (omega arith)

pub decode-battery_registration :
    (id ip : Bytes)
    → HasNoQuote id
    → HasNoQuote ip
    → decode_battery_registration (battery_registration id ip) ≡ some (record { id = id; ip = ip })
unfolding decode_battery_registration battery_registration expect
decode-battery_registration id ip hid hip =
    rw (until_quote-append id _ hid, until_quote-append ip _ hip) refl

-- Whether or not the cloud answers: once a wait ends with connectivity
-- and the request is over, the process has ended: it posted exactly once, and what it posted reads
-- back as the node's id and its address at that wait; each response was handed to the callback.
-- Until then it only waits, and whatever it wakes up for later does nothing. The address is in range
-- and holds no quote.
pub battery_register_run-decode :
    (hi lo : ℕ) (offline : List (Network × ℕ)) (net : Network) (clock_seconds : ℕ)
    (responses : List (Option Payload)) (later : List Wakeup)
    → IsNetwork net
    → Offline offline
    → have_connectivity net ≡ true
    → HasNoQuote (get_node_ip net)
    → (battery_register_run hi lo (delays offline) ≡ (waiting, []))
      × ((payload : Bytes) × (battery_register_run hi lo (
              delays offline
              ++ (delay_over net clock_seconds
                  ∷ (map response responses ++ (request_over ∷ later))))
            ≡ (finished, coap_post payload ∷ handle_all responses))
          × (decode_battery_registration payload
              ≡ some (record { id = battery_id hi lo; ip = get_node_ip net })))
unfolding battery_register_run
battery_register_run-decode hi lo offline net clock_seconds responses later hn off up qip =
    let (still, done) =
      register_run-finished (battery_registration_at (battery_id hi lo)) offline net clock_seconds
        responses later off up in
    (
      still,
      (
        battery_registration_at (battery_id hi lo) net clock_seconds,
        done,
        rw
            (battery_registration_at_whole (battery_id hi lo) net clock_seconds
              (length-battery_id hi lo) hn)
            (decode-battery_registration (battery_id hi lo) (get_node_ip net)
              (battery_id-HasNoQuote hi lo) qip),
      ),
    )
