-- ===== src/Battery/Registration.antt =====
-- The registration that `coap_register_process` of coap-mqtt-battery-sensor.c posts. `have_connectivity`
-- and `get_node_ip` there are those of coap-mqtt-sensor.c, word for word.
use io_t_project.Prelude.{ℕ, ◌≤◌, ◌<◌, ◌≡◌, ◌++◌, Bytes, codes, length, length-append, take, arith}
use io_t_project.CLib.Snprintf.{snprintf, snprintf_whole}
use io_t_project.Node.{Network, IsNetwork, get_node_ip, length-get_node_ip, hex_byte}

-- `node_id` has 32 bytes.
unfoldable pub battery_id : (hi lo : ℕ) → Bytes
unfolding hex_byte
battery_id hi lo = take 31 (codes "prod_battery_" ++ (hex_byte hi ++ hex_byte lo))

unfoldable pub battery_registration : (id ip : Bytes) → Bytes
battery_registration id ip =
    codes "{\"node_id\":\""
    ++ (id
        ++ (codes "\",\"ip\":\""
            ++ (ip ++ codes "\",\"port\":5683,\"type\":\"battery\",\"proto\":\"coap\"}")))

-- The payload of the POST to /register, which is printed into 160 bytes.
unfoldable pub battery_registration_at : (id : Bytes) → Network → (clock_seconds : ℕ) → Bytes
unfolding battery_registration get_node_ip
battery_registration_at id net clock_seconds =
    snprintf 160 (battery_registration id (get_node_ip net))

pub length-battery_id : (hi lo : ℕ) → length (battery_id hi lo) ≤ 31
unfolding battery_id
length-battery_id hi lo = omega arith

length-battery_registration :
    (id ip : Bytes) → length id ≤ 31 → length ip ≤ 39 → length (battery_registration id ip) < 160
unfolding battery_registration
length-battery_registration id ip hid hip = simp length-append (omega (arith, hid, hip))

pub battery_registration_at_whole :
    (id : Bytes) (net : Network) (clock_seconds : ℕ)
    → length id ≤ 31
    → IsNetwork net
    → battery_registration_at id net clock_seconds ≡ battery_registration id (get_node_ip net)
unfolding battery_registration_at
battery_registration_at_whole id net clock_seconds hid hn =
    snprintf_whole 160 (battery_registration id (get_node_ip net))
      (length-battery_registration id (get_node_ip net) hid (length-get_node_ip hn))
