-- ===== src/Node/Plain.antt =====
-- Addresses and ids with no quote.
use io_t_project.Prelude.{
  ℕ, zero, suc, ◌/◌, ◌%◌, ◌<◌, ◌≢◌, [], ◌∷◌, ◌++◌, Bytes, codes, take, All, All-append, arith,
}
use io_t_project.Config.{Config}
use io_t_project.Node.{Network, IsNetwork, get_node_ip, hex_digit, hex_byte, node_id}
use io_t_project.Reader.{HasNoQuote}

-- An address that is in range and holds no quote.
pub record IsTidyNetwork (net : Network) : Type 0 where
  pub in_range : IsNetwork net
  pub plain : HasNoQuote (get_node_ip net)

hex_digit-ne-quote : (n : ℕ) → n < 16 → hex_digit n ≢ b'"'
hex_digit-ne-quote n h = ground arith

pub hex_byte-HasNoQuote : (b : ℕ) → HasNoQuote (hex_byte b)
unfolding hex_byte
hex_byte-HasNoQuote b = (
  hex_digit-ne-quote (b / 16 % 16) (omega arith),
  (hex_digit-ne-quote (b % 16) (omega arith), tt),
)

All-take {ℓ} : (P : ℕ → Type ℓ) (n : ℕ) (s : Bytes) → All P s → All P (take n s)
All-take P zero s h = tt
All-take P (suc n) [] h = tt
All-take P (suc n) (c ∷ s) h = (h.0, All-take P n s h.1)

abbrev IsPlain : ℕ → Type 0
IsPlain c = c ≢ b'"'

hex_bytes-HasNoQuote : (hi lo : ℕ) → HasNoQuote (hex_byte hi ++ hex_byte lo)
hex_bytes-HasNoQuote hi lo =
    All-append IsPlain (hex_byte hi) (hex_byte lo) (hex_byte-HasNoQuote hi) (hex_byte-HasNoQuote lo)

-- An id of a prefix and the last two bytes of the link-layer address.
pub take-HasNoQuote :
    (n : ℕ) (prefix : Bytes) (hi lo : ℕ)
    → HasNoQuote prefix
    → HasNoQuote (take n (prefix ++ (hex_byte hi ++ hex_byte lo)))
take-HasNoQuote n prefix hi lo h =
    All-take IsPlain n _ (All-append IsPlain prefix _ h (hex_bytes-HasNoQuote hi lo))

pub node_id-HasNoQuote :
    (c : Config) (hi lo : ℕ) → HasNoQuote c.node_type → HasNoQuote (node_id c hi lo)
unfolding node_id
node_id-HasNoQuote c hi lo h =
    let bytes : Bytes = hex_byte hi ++ hex_byte lo in
    let tail : Bytes = codes "_" ++ bytes in
    let plain_tail = All-append IsPlain (codes "_") bytes plain_bar (hex_bytes-HasNoQuote hi lo) in
    All-take IsPlain 31 (codes "prod_" ++ (c.node_type ++ tail)) (
      All-append IsPlain (codes "prod_") (c.node_type ++ tail) plain_prefix
        (All-append IsPlain c.node_type tail h plain_tail))
  where
    plain_bar : HasNoQuote (codes "_")
    plain_bar = omega arith

    plain_prefix : HasNoQuote (codes "prod_")
    plain_prefix = omega arith
