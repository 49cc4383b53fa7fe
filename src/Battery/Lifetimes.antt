-- ===== src/Battery/Lifetimes.antt =====
-- Which replies of a battery node point to an array of their handler, which is gone when the CoAP
-- engine sends them: `payload` of `res_get_battery_handler`.
use io_t_project.Prelude.{
  ◌≡◌, refl, ◌≢◌, ◌↔◌, ◌⊎◌, inl, inr, ap, Option, none, some, List, [], ◌∷◌, ◌++◌, length, All,
  subst, sym, >>=-eq-some, All-append, arith,
}
use mathlib.Core.Option.{some-injective}
use io_t_project.Battery.Fixed.{format_fixed_1}
use io_t_project.Battery.Floats.{FloatOps}
use io_t_project.CLib.Snprintf.{snprintf}
use io_t_project.Battery.Json.{battery_json, res_get_battery_handler}
use io_t_project.Battery.Logs.{res_put_battery_logs}
use io_t_project.Battery.Node.{
  BatteryTurn, request, register, requests, BatteryBoard, battery_turn, battery_life,
}
use io_t_project.Battery.Registration.{battery_registration_at}
use io_t_project.Registration.Process.{register_step}
use io_t_project.Battery.State.{Battery, put_delta, read_delta, res_put_battery_handler}
use io_t_project.Calls.{
  Call, set_header_content_format, set_local_payload, application_json, IsLasting, AllLasting,
}
use io_t_project.Coap.{Payload}
use io_t_project.Server.{Request, Engine}
use io_t_project.Server.BatteryNode.{
  Handler, battery_get, battery_put, activated, handle, handle_route, serve,
}
use io_t_project.Server.BatteryRuns.{activated-Serves}

-- The engine does not route the request to the GET of the battery.
abbrev pub IsNoGet : Engine Handler → Request → Type 0
IsNoGet engine req = engine.route activated req.path req.method ≢ some battery_get

both :
    (calls more : List Call) (A B : Type 0)
    → (AllLasting calls ↔ A)
    → (AllLasting more ↔ B)
    → AllLasting (calls ++ more) ↔ (A × B)
both calls more A B (to, from) (to', from') = (
  λ h. (to (start calls h), to' (end calls h)),
  λ (a, b). All-append IsLasting calls more (from a) (from' b),
)
  where
    start : (calls : List Call) → AllLasting (calls ++ more) → AllLasting calls
    start [] h = tt
    start (call ∷ calls) h = (h.0, start calls h.1)

    end : (calls : List Call) → AllLasting (calls ++ more) → AllLasting more
    end [] h = h
    end (call ∷ calls) h = end calls h.1

module _ (floats : FloatOps) where
  put_delta-lasting :
      (delta : floats.Float) (b : Battery floats) → AllLasting (put_delta floats delta b).1
  unfolding put_delta
  put_delta-lasting delta b = ground arith

  put-lasting :
      (payload : Payload) (b : Battery floats)
      → AllLasting (res_put_battery_handler floats payload b).1
  unfolding res_put_battery_handler
  put-lasting none b = (tt, tt)
  put-lasting (some []) b = (tt, tt)
  put-lasting (some (c ∷ bytes)) b = put_delta-lasting (read_delta floats (c ∷ bytes)) b

  get-local :
      (b : Battery floats) (calls : List Call)
      → res_get_battery_handler floats b ≡ some calls
      → ¬ (AllLasting calls)
  unfolding res_get_battery_handler
  get-local b calls e h =
      let (max_str, _, rest) = >>=-eq-some (format_fixed_1 floats 16 b.max_capacity) _ e in
      let (charged_str, _, made) =
        >>=-eq-some (format_fixed_1 floats 16 b.charged_capacity) _ rest in
      let text =
        snprintf 160 (battery_json max_str charged_str b.charging_locked b.override_active) in
      let reply =
        set_header_content_format application_json ∷ set_local_payload text (length text) ∷ [] in
      let k : AllLasting reply = subst AllLasting (sym (some-injective reply calls made)) h in k.1.0

  handle-lasting :
      (h : Handler) (payload : Payload) (b : Battery floats) (r : Battery floats × List Call)
      → (h ≡ battery_get ⊎ h ≡ battery_put)
      → handle floats h payload b ≡ some r
      → AllLasting r.1 ↔ (some h ≢ some battery_get)
  unfolding handle
  handle-lasting h payload b r (inl e) done =
      let (calls, made, rest) =
        >>=-eq-some (res_get_battery_handler floats b) (λ calls. some (b, calls)) (rw e at done) in
      (
        λ lasting. absurd (
            get-local b calls made
              (subst (λ t. AllLasting t.1) (sym (some-injective _ _ rest)) lasting)),
        λ other. absurd (other (ap some e)),
      )
  handle-lasting h payload b r (inr e) done =
      let (texts, _, rest) =
        >>=-eq-some (res_put_battery_logs floats payload b)
          (λ texts. some (res_put_battery_handler floats payload b)) (rw e at done) in
      (
        λ _ f. get_put (sym e) f,
        λ _. subst (λ t. AllLasting t.1) (some-injective _ _ rest) (put-lasting payload b),
      )
    where
      get_put : battery_put ≡ h → some h ≡ some battery_get → ⊥
      get_put g f = cc

  serve-lasting :
      (engine : Engine Handler) (req : Request) (b : Battery floats)
      (r : Battery floats × List Call)
      → serve floats engine req b ≡ some r
      → AllLasting r.1 ↔ IsNoGet engine req
  unfolding serve handle_route
  serve-lasting engine req b r done =
      route_lasting (engine.route activated req.path req.method) refl done
    where
      route_lasting :
          (found : Option Handler)
          → engine.route activated req.path req.method ≡ found
          → handle_route floats found req.payload b ≡ some r
          → AllLasting r.1 ↔ (found ≢ some battery_get)
      route_lasting none at done =
          (λ _ f. cc, λ _. subst (λ t. AllLasting t.1) (some-injective _ _ done) tt)
      route_lasting (some h) at done =
          handle-lasting h req.payload b r
            (activated-Serves req.path req.method h
              (engine.route-Serves activated req.path req.method h at))
            done

  -- Over any part of the life of a battery node that C leaves defined, in whatever order its requests
  -- and wake-ups come, all that its replies are handed is still there when the engine sends them
  -- exactly if no request is routed to the GET of the battery, whose JSON is an array of its handler.
  pub battery_life-lasting :
      (engine : Engine Handler) (turns : List BatteryTurn) (b b' : BatteryBoard floats)
      (served posted : List Call)
      → battery_life floats engine turns b ≡ some (b', served, posted)
      → AllLasting served ↔ All (IsNoGet engine) (requests turns)
  unfolding battery_life battery_turn requests
  battery_life-lasting engine [] b b' served posted e =
      let same : [] ≡ served = ap (λ t. t.1) (some-injective _ _ e) in
      (λ _. tt, λ _. subst AllLasting same tt)
  battery_life-lasting engine (request req ∷ turns) b b' served posted e =
      let ((b1, s1, p1), turned, rest) =
        >>=-eq-some (battery_turn floats engine (request req) b) _ e in
      let ((b2, s2, p2), lived, done) = >>=-eq-some (battery_life floats engine turns b1) _ rest in
      let (answer, answered, made) =
        >>=-eq-some (serve floats engine req b.battery)
          (λ (battery', calls). some (record b { battery = battery' }, calls, [])) turned in
      let first : answer.1 ≡ s1 = ap (λ t. t.1) (some-injective _ _ made) in
      let all : s1 ++ s2 ≡ served = ap (λ t. t.1) (some-injective _ _ done) in
      rw (← all, ← first)
        (both answer.1 s2 (IsNoGet engine req) (All (IsNoGet engine) (requests turns))
          (serve-lasting engine req b.battery answer answered)
          (battery_life-lasting engine turns b1 b2 s2 p2 lived))
  battery_life-lasting engine (register w ∷ turns) b b' served posted e =
      let (phase', calls) = register_step (battery_registration_at b.id) b.registering w in
      let b1 : BatteryBoard floats = record b { registering = phase' } in
      let ((b2, s2, p2), lived, done) =
        >>=-eq-some (battery_life floats engine turns b1)
          (λ (b'', served', posted'). some (b'', served', calls ++ posted')) e in
      let all : s2 ≡ served = ap (λ t. t.1) (some-injective _ _ done) in
      rw (← all) (battery_life-lasting engine turns b1 b2 s2 p2 lived)
