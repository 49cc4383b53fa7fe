-- ===== src/Coap.antt =====
-- What a handler sees of a request: the result of `coap_get_payload`, where `none` is the null
-- pointer with length 0 and `some bytes` points to as many readable bytes as the length says.
use io_t_project.Prelude.{ℕ, Option, none, some, List, [], ◌∷◌, Bytes, length, String, codes}
use io_t_project.Calls.{Call, Code, bad_request_4_00, set_status_code, set_payload}

abbrev pub Payload : Type 0
Payload = Option Bytes

abbrev pub payload_len : Payload → ℕ
payload_len none = 0
payload_len (some bytes) = length bytes

abbrev pub payload_bytes : Payload → Bytes
payload_bytes none = []
payload_bytes (some bytes) = bytes

-- A status code and a text, with the length that the source writes for the text.
abbrev pub reply : Code → String → ℕ → List Call
reply code text n = set_status_code code ∷ set_payload (codes text) n ∷ []

abbrev pub bad_request : String → ℕ → List Call
bad_request text n = reply bad_request_4_00 text n
