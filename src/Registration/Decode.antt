-- ===== src/Registration/Decode.antt =====
-- A reader of the registration, and the round trip with `coap_register_process` of coap-mqtt-sensor.c.
use io_t_project.Prelude.{
  ℕ, ◌≤◌, ◌≡◌, refl, true, Option, some, List, [], ◌∷◌, ◌++◌, Bytes, codes, length, arith, ◌>>=◌,
  map,
}
use io_t_project.Reader.{
  expect, until_quote, read_number, HasNoQuote, until_quote-append, read_number-print_lu,
}
use io_t_project.CLib.Decimal.{ulong_max}
use io_t_project.Config.{Config, IsConfig}
use io_t_project.Node.{Network, IsNetwork, have_connectivity, get_node_ip}
use io_t_project.Calls.{coap_post}
use io_t_project.Coap.{Payload}
use io_t_project.Registration.{registration, registration_at, registration_at_whole}
use io_t_project.Registration.Process.{
  Wakeup, waiting, finished, delay_over, response, request_over, Offline, delays, handle_all,
  register_run, register_run-finished,
}
use io_t_project.Telemetry.{to_ms}

-- What a registration says.
pub record Registered : Type 0 where
  pub id : Bytes
  pub ip : Bytes
  pub node_type : Bytes
  pub sent_ms : ℕ

unfoldable pub decode_registration : Bytes → Option Registered
unfolding expect until_quote read_number
decode_registration s0 = do
  s1 ← expect (codes "{\"node_id\":\"") s0
  (id, s2) ← until_quote s1
  s3 ← expect (codes ",\"ip\":\"") s2
  (ip, s4) ← until_quote s3
  s5 ← expect (codes ",\"port\":5683,\"type\":\"") s4
  (node_type, s6) ← until_quote s5
  s7 ← expect (codes ",\"proto\":\"coap\",\"sent_ms\":") s6
  (sent_ms, s8) ← read_number s7
  s9 ← expect (codes "}") s8
  some (record { id = id; ip = ip; node_type = node_type; sent_ms = sent_ms })

pub decode-registration :
    (c : Config) (id ip : Bytes) (sent_ms : ℕ)
    → HasNoQuote id
    → HasNoQuote ip
    → HasNoQuote c.node_type
    → sent_ms ≤ ulong_max
    → decode_registration (registration c id ip sent_ms)
      ≡ some (record { id = id; ip = ip; node_type = c.node_type; sent_ms = sent_ms })
unfolding decode_registration registration expect
decode-registration c id ip sent_ms hid hip htype hsent =
    rw
      (
        until_quote-append id _ hid,
        until_quote-append ip _ hip,
        until_quote-append c.node_type _ htype,
        read_number-print_lu sent_ms b'}' _ hsent refl,
      )
      refl

-- Whether or not the cloud answers: once a wait ends with connectivity and the request is
-- over, the process has ended: it posted exactly once, and what it posted reads back as the node's id
-- and type, its address at that wait and the time; each response was handed to the callback. Until
-- then it only waits, and whatever it wakes up for later does nothing. Id, type and address are in
-- range and hold no quote.
pub register_run-decode :
    {c : Config} (id : Bytes) (offline : List (Network × ℕ)) (net : Network) (clock_seconds : ℕ)
    (responses : List (Option Payload)) (later : List Wakeup)
    → IsConfig c
    → length id ≤ 16
    → IsNetwork net
    → Offline offline
    → have_connectivity net ≡ true
    → HasNoQuote id
    → HasNoQuote c.node_type
    → HasNoQuote (get_node_ip net)
    → (register_run (registration_at c id) waiting (delays offline) ≡ (waiting, []))
      × ((payload : Bytes) × (register_run (registration_at c id) waiting (
              delays offline
              ++ (delay_over net clock_seconds
                  ∷ (map response responses ++ (request_over ∷ later))))
            ≡ (finished, coap_post payload ∷ handle_all responses))
          × (decode_registration payload
              ≡ some (record {
                id = id;
                ip = get_node_ip net;
                node_type = c.node_type;
                sent_ms = to_ms clock_seconds;
              })))
register_run-decode {c} id offline net clock_seconds responses later hc hid hn off up qid qtype
      qip =
    let (still, done) =
      register_run-finished (registration_at c id) offline net clock_seconds responses later off
        up in
    (
      still,
      (
        registration_at c id net clock_seconds,
        done,
        rw (registration_at_whole id net clock_seconds hc hid hn) (
            decode-registration c id (get_node_ip net) (to_ms clock_seconds) qid qip qtype
              (omega arith)),
      ),
    )
