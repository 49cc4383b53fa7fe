-- ===== src/Registration.antt =====
-- The registration that `coap_register_process` of coap-mqtt-sensor.c posts to the cloud.
use io_t_project.Prelude.{
  ℕ, ◌≤◌, ◌<◌, ◌≡◌, refl, ap, ◌++◌, true, false, Option, none, some, List, [], ◌∷◌, Bytes, codes,
  length, length-append, if◌then◌else◌, arith, All,
}
pub mod Decode
pub mod Process
pub mod Once
use io_t_project.CLib.Decimal.{print_lu, length-print_lu}
use io_t_project.CLib.Snprintf.{snprintf, snprintf_whole}
use io_t_project.Config.{Config, IsConfig}
use io_t_project.Node.{Network, IsNetwork, have_connectivity, get_node_ip, length-get_node_ip}
use io_t_project.Telemetry.{to_ms}

unfoldable pub registration : Config → (id ip : Bytes) → (sent_ms : ℕ) → Bytes
registration c id ip sent_ms =
    codes "{\"node_id\":\""
    ++ (id
        ++ (codes "\",\"ip\":\""
            ++ (ip
                ++ (codes "\",\"port\":5683,\"type\":\""
                    ++ (c.node_type
                        ++ (codes "\",\"proto\":\"coap\",\"sent_ms\":"
                            ++ (print_lu sent_ms ++ codes "}")))))))

-- The payload of the POST to /register, which is printed into 160 bytes.
unfoldable pub registration_at : Config → (id : Bytes) → Network → (clock_seconds : ℕ) → Bytes
unfolding registration get_node_ip
registration_at c id net clock_seconds =
    snprintf 160 (registration c id (get_node_ip net) (to_ms clock_seconds))

length-registration :
    {c : Config} (id ip : Bytes) (sent_ms : ℕ)
    → IsConfig c
    → length id ≤ 16
    → length ip ≤ 39
    → length (registration c id ip sent_ms) < 160
unfolding registration
length-registration {c} id ip sent_ms h hid hip =
    let t = length-print_lu sent_ms in simp length-append (omega arith)

pub registration_at_whole :
    {c : Config} (id : Bytes) (net : Network) (clock_seconds : ℕ)
    → IsConfig c
    → length id ≤ 16
    → IsNetwork net
    → registration_at c id net clock_seconds
      ≡ registration c id (get_node_ip net) (to_ms clock_seconds)
unfolding registration_at
registration_at_whole {c} id net clock_seconds h hid hn =
    snprintf_whole 160 (registration c id (get_node_ip net) (to_ms clock_seconds))
      (length-registration id (get_node_ip net) (to_ms clock_seconds) h hid (length-get_node_ip hn))
