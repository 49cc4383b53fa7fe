-- ===== src/Power.antt =====
-- The power of a producer node as its users see it: an automaton with three states, in which a command,
-- the end of the warm-up or a fault moves. It is what resources/res-status.c, the startup timer and
-- the publications of coap-mqtt-sensor.c have to implement together.
use io_t_project.Prelude.{
  ℕ, zero, suc, ◌≤◌, ◌≡◌, refl, inl, inr, Bool-cases, Bool, true, false, ◌&&◌, none, some, [], ◌∷◌,
  Bytes, codes, length, leb, ◌==◌, if◌then◌else◌, arith,
}
use io_t_project.CLib.Strncmp.{strncmp_eq}
use io_t_project.Coap.{Payload}
use io_t_project.Command.{has_word}
use io_t_project.Device.{Ctimer, Device}

pub data Power : Type 0 where
  powered_off warming_up powered_on : Power

pub data Cause : Type 0 where
  -- nothing that the power depends on
  quiet : Cause
  command_on command_off warmed_up fault : Cause

-- The automaton, for a warm-up of `delay` seconds.
unfoldable pub next_power : (delay : ℕ) → Cause → Power → Power
next_power delay quiet p = p
next_power zero command_on p = powered_on
next_power (suc delay) command_on powered_off = warming_up
next_power (suc delay) command_on warming_up = warming_up
next_power (suc delay) command_on powered_on = powered_on
next_power delay command_off p = powered_off
next_power delay warmed_up powered_off = powered_off
next_power delay warmed_up warming_up = powered_on
next_power delay warmed_up powered_on = powered_on
next_power delay fault powered_off = powered_off
next_power delay fault warming_up = warming_up
next_power delay fault powered_on = powered_off

unfoldable pub begins : (word body : Bytes) → Bool
begins [] body = true
begins (c ∷ word) [] = false
begins (c ∷ word) (d ∷ body) = d == c && begins word body

-- What a body commands.
unfoldable pub command_of : Payload → Cause
unfolding begins
command_of none = quiet
command_of (some body) =
    if begins (codes "off") body
    then command_off
    else if begins (codes "on") body
    then command_on
    else quiet

module _ {timers : Ctimer} where
  unfoldable pub view : Device timers → Power
  view d = if d.device_on then powered_on else if d.device_starting then warming_up else powered_off

strncmp_eq-begins :
    (body word : Bytes)
    → length word ≤ length body
    → strncmp_eq body word (length word) ≡ some (begins word body)
unfolding strncmp_eq begins
strncmp_eq-begins body [] h = refl
strncmp_eq-begins [] (c ∷ word) h = absurd (omega arith)
strncmp_eq-begins (d ∷ body) (c ∷ word) h =
    let ih = strncmp_eq-begins body word (omega arith) in
    elim (Bool-cases (d == c)) [ inl e ↦ rw e ih | inr e ↦ rw e ]

begins_short :
    (word body : Bytes) → leb (length word) (length body) ≡ false → begins word body ≡ false
unfolding begins
begins_short [] body h = absurd (ground arith)
begins_short (c ∷ word) [] h = refl
begins_short (c ∷ word) (d ∷ body) h = ground (arith, begins_short word body)

-- The test of the handlers is the test of a prefix.
pub has_word-begins :
    (body word : Bytes) → has_word body word (length word) ≡ some (begins word body)
unfolding has_word
has_word-begins body word = elim (Bool-cases (leb (length word) (length body))) [
  | inl e ↦ rw e (strncmp_eq-begins body word (ground arith))
  | inr e ↦ rw (e, begins_short word body e)
]
