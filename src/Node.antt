-- ===== src/Node.antt =====
-- The node's identity and network address in coap-mqtt-sensor.c: `have_connectivity`, `get_node_ip`
-- and the node id.
use io_t_project.Prelude.{
  ℕ, ◌+◌, ◌-◌, ◌/◌, ◌%◌, ◌≤◌, ◌&&◌, Bool, true, false, Option, none, some, [], ◌∷◌, ◌++◌, Bytes,
  codes, length, length-append, length-take, take, ltb, if◌then◌else◌, arith,
}
use io_t_project.Config.{Config, IsConfig}
pub mod Plain

-- What Contiki-NG's IPv6 stack answers at one moment: the texts that `uiplib_ipaddr_snprint` writes
-- for the preferred global and link-local addresses, if there are any, and whether
-- `uip_ds6_defrt_choose` finds a default route.
pub record Network : Type 0 where
  pub global_addr : Option Bytes
  pub link_local_addr : Option Bytes
  pub has_default_route : Bool

abbrev pub has_addr : Option Bytes → Bool
has_addr none = false
has_addr (some addr) = true

unfoldable pub have_connectivity : Network → Bool
have_connectivity net = has_addr net.global_addr && net.has_default_route

abbrev addr_text : Option Bytes → Option Bytes → Bytes
addr_text (some addr) other = addr
addr_text none (some addr) = addr
addr_text none none = codes "unknown"

-- `node_ip_str` has 42 bytes.
unfoldable pub get_node_ip : Network → Bytes
get_node_ip net = take 41 (addr_text net.global_addr net.link_local_addr)

-- An IPv6 address has at most 39 characters.
pub record IsNetwork (net : Network) : Type 0 where
  pub text_short : length (addr_text net.global_addr net.link_local_addr) ≤ 39

abbrev pub hex_digit : ℕ → ℕ
hex_digit n = if ltb n 10 then b'0' + n else b'a' + (n - 10)

-- `%02x` of a byte
unfoldable pub hex_byte : ℕ → Bytes
hex_byte b = hex_digit (b / 16 % 16) ∷ hex_digit (b % 16) ∷ []

-- `node_id` has 32 bytes; `hi` and `lo` are the last two bytes of the link-layer address.
unfoldable pub node_id : Config → (hi lo : ℕ) → Bytes
unfolding hex_byte
node_id c hi lo =
    take 31 (codes "prod_" ++ (c.node_type ++ (codes "_" ++ (hex_byte hi ++ hex_byte lo))))

pub length-get_node_ip : {net : Network} → IsNetwork net → length (get_node_ip net) ≤ 39
unfolding get_node_ip
length-get_node_ip {net} h =
    omega (arith, h.text_short, length-take 41 (addr_text net.global_addr net.link_local_addr))

pub length-node_id : {c : Config} (hi lo : ℕ) → IsConfig c → length (node_id c hi lo) ≤ 16
unfolding node_id
length-node_id {c} hi lo h =
    let rest = codes "_" ++ (hex_byte hi ++ hex_byte lo) in
    omega (
      arith,
      h.type_short,
      length-take 31 (codes "prod_" ++ (c.node_type ++ rest)),
      length-append c.node_type rest,
    )
