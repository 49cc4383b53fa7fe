-- ===== src/Link.antt =====
-- An automaton of the connection to the broker: down, asked for, or up. It models no code; it is what
-- the connection's state and its counter of attempts have to implement together.
use io_t_project.Prelude.{ℕ, ◌+◌, List, [], ◌∷◌, leb, if◌then◌else◌}

-- Asked for, with the waits that have ended without an answer.
pub data Link : Type 0 where
  down up : Link
  asked : (waits : ℕ) → Link

-- The broker's CONNACK, the loss of the connection, a wake-up that can act, and all else.
pub data News : Type 0 where
  connack lost chance nothing : News

-- The fourth wait without an answer is the last.
unfoldable pub next_link : News → Link → Link
next_link connack l = up
next_link lost l = down
next_link chance down = asked 0
next_link chance up = up
next_link chance (asked waits) = if leb 3 waits then down else asked (waits + 1)
next_link nothing l = l

pub data Ask : Type 0 where
  dial hang_up : Ask

-- What is asked of the MQTT stack on the way.
unfoldable pub asks : News → Link → List Ask
asks chance down = dial ∷ []
asks chance up = []
asks chance (asked waits) = if leb 3 waits then hang_up ∷ [] else []
asks news l = []
