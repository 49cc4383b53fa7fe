-- ===== src/Server/BatteryRuns.antt =====
-- Sequences of requests to a battery node.
use io_t_project.Prelude.{
  ◌≡◌, refl, sym, ap, ◌∙◌, ◌⊎◌, inl, inr, Option-cases, false, Option, none, some, List, [], ◌∷◌,
  ◌++◌, Bytes, All, ◌>>=◌, >>=-eq-some, arith,
}
use mathlib.Core.Option.{some-injective}
use io_t_project.Calls.{Call}
use io_t_project.Coap.{Payload, payload_bytes}
use io_t_project.Battery.Floats.{FloatOps, IsIeee}
use io_t_project.Battery.State.{Battery, initial, read_delta, res_put_battery_handler}
use io_t_project.Battery.Logs.{
  IsModest, IsModest-IsNumber, IsSmall, res_put_battery_logs, res_put_battery_logs-some,
}
use io_t_project.Battery.Override.{put-frame}
use io_t_project.Battery.Json.{res_get_battery_handler, res_get_battery_handler_whole}
use io_t_project.Battery.Lock.{
  IsWithin, IsLockRight, lit_le, initial-IsWithin, initial-IsLockRight,
  res_put_battery_handler_keeps,
}
use io_t_project.Server.{Method, Request, Engine, Serves}
use io_t_project.Server.BatteryNode.{
  Handler, battery_get, battery_put, activated, handle, handle_route, serve, serve_all,
}

-- No request reaches a handler of the override.
pub activated-Serves :
    (path : Bytes) (method : Method) (h : Handler)
    → Serves activated path method h
    → h ≡ battery_get ⊎ h ≡ battery_put
unfolding activated
activated-Serves path Method.method_get h (inl (_, e)) = inl (sym (some-injective _ _ e))
activated-Serves path Method.method_put h (inl (_, e)) = inr (sym (some-injective _ _ e))
activated-Serves path Method.method_post h (inl (_, e)) = cc
activated-Serves path Method.method_delete h (inl (_, e)) = cc
activated-Serves path method h (inr e) = absurd e

module _ (floats : FloatOps) where
  open floats use {le, lit}

  handle_get-frame :
      (calls : Option (List Call)) (b : Battery floats) (r : Battery floats × List Call)
      → (calls >>= λ calls. some (b, calls)) ≡ some r
      → r.0 ≡ b
  handle_get-frame none b r e = cc
  handle_get-frame (some calls) b r e = ap (λ t. t.0) (sym (some-injective _ _ e))

  handle_put-frame :
      (payload : Payload) (b : Battery floats) (r : Battery floats × List Call)
      → (res_put_battery_logs floats payload b >>= λ texts.
          some (res_put_battery_handler floats payload b))
        ≡ some r
      → (r.0.override_active ≡ b.override_active) × (r.0.max_capacity ≡ b.max_capacity)
  handle_put-frame payload b r e =
      let (texts, _, done) = >>=-eq-some (res_put_battery_logs floats payload b) _ e in
      rw (← some-injective _ _ done) (put-frame floats payload b)

  handle-frame :
      (h : Handler) (payload : Payload) (b : Battery floats) (r : Battery floats × List Call)
      → (h ≡ battery_get ⊎ h ≡ battery_put)
      → handle floats h payload b ≡ some r
      → r.0.override_active ≡ b.override_active
  unfolding handle
  handle-frame h payload b r (inl e) done =
      ap (λ b. b.override_active)
        (handle_get-frame (res_get_battery_handler floats b) b r (rw e at done))
  handle-frame h payload b r (inr e) done = (handle_put-frame payload b r (rw e at done)).0

  route-frame :
      (engine : Engine Handler) (path : Bytes) (method : Method) (found : Option Handler)
      (payload : Payload) (b : Battery floats) (r : Battery floats × List Call)
      → engine.route activated path method ≡ found
      → handle_route floats found payload b ≡ some r
      → r.0.override_active ≡ b.override_active
  unfolding handle_route
  route-frame engine path method none payload b r at done =
      ap (λ t. t.0.override_active) (sym (some-injective _ _ done))
  route-frame engine path method (some h) payload b r at done =
      handle-frame h payload b r
        (activated-Serves path method h (engine.route-Serves activated path method h at)) done

  serve-frame :
      (engine : Engine Handler) (req : Request) (b : Battery floats)
      (r : Battery floats × List Call)
      → serve floats engine req b ≡ some r
      → r.0.override_active ≡ b.override_active
  unfolding serve
  serve-frame engine req b r done =
      route-frame engine req.path req.method (engine.route activated req.path req.method)
        req.payload b r refl done

  -- No sequence of requests that the node answers, whatever their paths, methods and bodies, changes
  -- whether the override is active: the node activates no resource that could.
  pub serve_all-override :
      (engine : Engine Handler) (reqs : List Request) (b : Battery floats)
      (r : Battery floats × List Call)
      → serve_all floats engine reqs b ≡ some r
      → r.0.override_active ≡ b.override_active
  unfolding serve_all
  serve_all-override engine [] b r done =
      ap (λ t. t.0.override_active) (sym (some-injective _ _ done))
  serve_all-override engine (req ∷ reqs) b r done =
      let ((b', calls), first, rest) = >>=-eq-some (serve floats engine req b) _ done in
      let ((b'', more), others, last) = >>=-eq-some (serve_all floats engine reqs b') _ rest in
      ap (λ t. t.0.override_active) (sym (some-injective _ _ last))
      ∙ (serve_all-override engine reqs b' (b'', more) others
          ∙ serve-frame engine req b (b', calls) first)

module _ (floats : FloatOps) (ieee : IsIeee floats) where
  open floats use {le, lit}

  -- The charge is between 0 and 10 kWh, the lock right, and no override active.
  pub record IsSafe (b : Battery floats) : Type 0 where
    pub within : IsWithin floats ieee b
    pub lock : IsLockRight floats ieee b
    pub no_override : b.override_active ≡ false
    pub max_kept : b.max_capacity ≡ lit 1000

  pub initial-IsSafe : IsSafe (initial floats)
  unfolding initial
  initial-IsSafe = record {
    within = initial-IsWithin floats ieee;
    lock = initial-IsLockRight floats ieee;
    no_override = cc;
    max_kept = refl;
  }

  get-IsSafe :
      (payload : Payload) (b : Battery floats)
      → IsSafe b
      → (r : Battery floats × List Call) × (handle floats battery_get payload b ≡ some r)
        × IsSafe r.0
  unfolding handle
  get-IsSafe payload b h =
      let small = lit_le floats ieee 1000 100000 (omega arith) (omega arith) in
      let (m, n, _, _, e) =
        res_get_battery_handler_whole floats ieee h.within (rw h.max_kept small) in
      answered (res_get_battery_handler floats b) _ e
    where
      answered :
          (o : Option (List Call)) (calls : List Call)
          → o ≡ some calls
          → (r : Battery floats × List Call) × ((o >>= λ cs. some (b, cs)) ≡ some r) × IsSafe r.0
      answered o calls e = ((b, calls), rw e refl, h)

  safe-IsSmall : (b : Battery floats) → IsSafe b → IsSmall floats ieee b
  safe-IsSmall b h = record {
    positive = rw h.max_kept (ieee.lit_lt 0 1000 (omega arith) (omega arith));
    small = rw h.max_kept (lit_le floats ieee 1000 100000 (omega arith) (omega arith));
  }

  put-IsSafe :
      (payload : Payload) (b : Battery floats)
      → IsModest floats ieee (read_delta floats (payload_bytes payload))
      → IsSafe b
      → IsSafe (res_put_battery_handler floats payload b).0
  put-IsSafe payload b modest h =
      let number = IsModest-IsNumber floats ieee _ modest in
      let (within, lock) =
        res_put_battery_handler_keeps floats ieee payload number h.within h.lock in
      let (override, max) = put-frame floats payload b in
      record {
        within = within;
        lock = lock;
        no_override = override ∙ h.no_override;
        max_kept = max ∙ h.max_kept;
      }

  handle-IsSafe :
      (h : Handler) (payload : Payload) (b : Battery floats)
      → (h ≡ battery_get ⊎ h ≡ battery_put)
      → IsModest floats ieee (read_delta floats (payload_bytes payload))
      → IsSafe b
      → (r : Battery floats × List Call) × (handle floats h payload b ≡ some r) × IsSafe r.0
  unfolding handle
  handle-IsSafe h payload b (inl e) modest safe = rw e (get-IsSafe payload b safe)
  handle-IsSafe h payload b (inr e) modest safe =
      let (texts, logged) =
        res_put_battery_logs-some floats ieee payload modest safe.within (safe-IsSmall b safe) in
      rw (e, logged)
        (res_put_battery_handler floats payload b, refl, put-IsSafe payload b modest safe)

  -- The request's body, or the empty text, is read as a number from -10000 to 10000.
  abbrev pub SendsModest : Request → Type 0
  SendsModest req = IsModest floats ieee (read_delta floats (payload_bytes req.payload))

  serve-IsSafe :
      (engine : Engine Handler) (req : Request) (b : Battery floats)
      → SendsModest req
      → IsSafe b
      → (r : Battery floats × List Call) × (serve floats engine req b ≡ some r) × IsSafe r.0
  unfolding serve handle_route
  serve-IsSafe engine req b number safe =
      elim (Option-cases (engine.route activated req.path req.method)) [
        | inl e ↦ rw e ((b, []), refl, safe)
        | inr (h, e) ↦
            let served =
              activated-Serves req.path req.method h
                (engine.route-Serves activated req.path req.method h e) in
            rw e (handle-IsSafe h req.payload b served number safe)
      ]

  serve_all_keeps :
      (engine : Engine Handler) (reqs : List Request) (b : Battery floats)
      → All SendsModest reqs
      → IsSafe b
      → (r : Battery floats × List Call) × (serve_all floats engine reqs b ≡ some r) × IsSafe r.0
  unfolding serve_all
  serve_all_keeps engine [] b numbers safe = ((b, []), refl, safe)
  serve_all_keeps engine (req ∷ reqs) b numbers safe =
      let ((b', calls), first, safe') = serve-IsSafe engine req b numbers.0 safe in
      let ((b'', more), rest, safe'') = serve_all_keeps engine reqs b' numbers.1 safe' in
      ((b'', calls ++ more), rw (first, rest) refl, safe'')

  -- From its start, a battery node answers every sequence of requests whose bodies are read as numbers
  -- from -10000 to 10000, whatever their paths and methods, with no undefined conversion, and is left
  -- with a charge between 0 and 10 kWh, a right lock and no override.
  pub serve_all-IsSafe :
      (engine : Engine Handler) (reqs : List Request)
      → All SendsModest reqs
      → (r : Battery floats × List Call) × (serve_all floats engine reqs (initial floats) ≡ some r)
        × IsSafe r.0
  serve_all-IsSafe engine reqs numbers =
      serve_all_keeps engine reqs (initial floats) numbers initial-IsSafe
