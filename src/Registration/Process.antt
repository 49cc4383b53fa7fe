-- ===== src/Registration/Process.antt =====
-- `coap_register_process` as a process: it waits, posts, hands the responses to its callback and ends.
-- The process of coap-mqtt-battery-sensor.c has the same steps, with a payload of its own.
use io_t_project.Prelude.{
  ℕ, ◌≡◌, refl, ap, true, false, Option, none, some, List, [], ◌∷◌, ◌++◌, Bytes, All, map,
  if◌then◌else◌,
}
use io_t_project.CLib.Strtoul.{c_string}
use io_t_project.Calls.{Call, coap_post, log_timeout, log_reply}
use io_t_project.Coap.{Payload, payload_bytes}
use io_t_project.Node.{Network, have_connectivity}

-- Where the process stands: in its waits for the network, in the request, or at its end.
pub data Phase : Type 0 where
  waiting requesting finished : Phase

-- What the process can wake up for.
pub data Wakeup : Type 0 where
  -- a wait of REGISTER_DELAY is over
  delay_over : Network → (clock_seconds : ℕ) → Wakeup
  -- the request calls its callback: with a response, or with none after its last retransmission
  response : Option Payload → Wakeup
  -- the request is over
  request_over : Wakeup

-- `%.*s` prints the payload as a text, up to its length.
unfoldable pub coap_reg_response_handler : Option Payload → List Call
unfolding c_string
coap_reg_response_handler none = log_timeout ∷ []
coap_reg_response_handler (some payload) = log_reply (c_string (payload_bytes payload)) ∷ []

unfoldable pub handle_all : List (Option Payload) → List Call
unfolding coap_reg_response_handler
handle_all [] = []
handle_all (r ∷ rs) = coap_reg_response_handler r ++ handle_all rs

-- The payloads that are posted.
unfoldable pub posts : List Call → List Bytes
posts [] = []
posts (coap_post payload ∷ calls) = payload ∷ posts calls
posts (_ ∷ calls) = posts calls

-- The waits that end with no connectivity.
abbrev pub Offline : List (Network × ℕ) → Type 0
Offline = All (λ w. have_connectivity w.0 ≡ false)

abbrev pub delays : List (Network × ℕ) → List Wakeup
delays = map (λ w. delay_over w.0 w.1)

pub posts-append : (calls more : List Call) → posts (calls ++ more) ≡ posts calls ++ posts more
unfolding posts
posts-append [] more = refl
posts-append (coap_post payload ∷ calls) more = ap (λ l. payload ∷ l) (posts-append calls more)
posts-append (_ ∷ calls) more = posts-append calls more

pub posts-handler : (r : Option Payload) → posts (coap_reg_response_handler r) ≡ []
unfolding posts coap_reg_response_handler
posts-handler none = refl
posts-handler (some payload) = refl

module _ (payload_at : Network → (clock_seconds : ℕ) → Bytes) where
  unfoldable pub register_step : Phase → Wakeup → Phase × List Call
  unfolding coap_reg_response_handler have_connectivity
  register_step waiting (delay_over net clock_seconds) =
      if have_connectivity net
      then (requesting, coap_post (payload_at net clock_seconds) ∷ [])
      else (waiting, [])
  register_step waiting (response r) = (waiting, [])
  register_step waiting request_over = (waiting, [])
  register_step requesting (delay_over net clock_seconds) = (requesting, [])
  register_step requesting (response r) = (requesting, coap_reg_response_handler r)
  register_step requesting request_over = (finished, [])
  register_step finished wakeup = (finished, [])

  unfoldable pub register_run : Phase → List Wakeup → Phase × List Call
  unfolding register_step
  register_run phase [] = (phase, [])
  register_run phase (wakeup ∷ wakeups) =
      let (phase', calls) = register_step phase wakeup in
      let (phase'', more) = register_run phase' wakeups in (phase'', calls ++ more)

  finished_stays : (wakeups : List Wakeup) → register_run finished wakeups ≡ (finished, [])
  unfolding register_run
  finished_stays [] = refl
  finished_stays (wakeup ∷ wakeups) = rw (finished_stays wakeups) refl

  finishes :
      (responses : List (Option Payload)) (later : List Wakeup)
      → register_run requesting (map response responses ++ (request_over ∷ later))
        ≡ (finished, handle_all responses)
  unfolding register_run handle_all
  finishes [] later = rw (finished_stays later) refl
  finishes (r ∷ rs) later = rw (finishes rs later) refl

  -- Once a wait ends with connectivity and the request is over, the process has ended: it has posted
  -- once, at that wait, with the network and the time of that wait, and handed each response to its
  -- callback. It posts nothing before and nothing later.
  pub register_run-finished :
      (offline : List (Network × ℕ)) (net : Network) (clock_seconds : ℕ)
      (responses : List (Option Payload)) (later : List Wakeup)
      → Offline offline
      → have_connectivity net ≡ true
      → (register_run waiting (delays offline) ≡ (waiting, []))
        × (register_run waiting (
              delays offline
              ++ (delay_over net clock_seconds
                  ∷ (map response responses ++ (request_over ∷ later))))
            ≡ (finished, coap_post (payload_at net clock_seconds) ∷ handle_all responses))
  unfolding register_run
  register_run-finished [] net clock_seconds responses later off up =
      (refl, rw (up, finishes responses later) refl)
  register_run-finished (w ∷ ws) net clock_seconds responses later off up =
      let (still, done) = register_run-finished ws net clock_seconds responses later off.1 up in
      (rw (off.0, still) refl, rw (off.0, done) refl)
