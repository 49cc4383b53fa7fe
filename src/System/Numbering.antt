-- ===== src/System/Numbering.antt =====
-- The sequence numbers of the messages that a node publishes, over a whole run.
use io_t_project.Prelude.{
  ℕ, ◌+◌, ◌%◌, ◌^◌, ◌≡◌, refl, ap, ◌∙◌, inl, inr, Bool-cases, some, List, [], ◌∷◌, ◌++◌, map, Bytes,
  length, arith, if◌then◌else◌,
}
use io_t_project.Config.{Config, IsConfig}
use io_t_project.Device.{Ctimer}
use io_t_project.Mqtt.{Etimer, Mqtt, start}
use io_t_project.Mqtt.Published.{due}
use io_t_project.Power.{Power, powered_on, powered_off}
use io_t_project.Reader.{HasNoQuote}
use io_t_project.Resources.Leds.{Leds}
use io_t_project.System.{
  Step, wake, event, put_sampling, put_status, startup, elapse, Reach, here, next,
}
use io_t_project.System.Refinement.{power_after}
use io_t_project.System.Reports.{report, reports, sent-reports}
use io_t_project.System.Sent.{IsTidyRun, sent}
use io_t_project.Telemetry.{Random}
use io_t_project.Telemetry.Decode.{Fields, decode}

-- The payloads read back with the sequence numbers from `n` on, modulo 2 ^ 32.
abbrev pub IsNumbered : ℕ → List Bytes → Type 0
IsNumbered n [] = Unit
IsNumbered n (payload ∷ payloads) =
    ((f : Fields) × (decode payload ≡ some f) × (f.seq ≡ n % 2 ^ 32)) × IsNumbered (n + 1) payloads

abbrev AreNumbered : ℕ → List Fields → Type 0
AreNumbered n [] = Unit
AreNumbered n (f ∷ fields) = (f.seq ≡ n % 2 ^ 32) × AreNumbered (n + 1) fields

AreNumbered-append :
    (n m : ℕ) (xs ys : List Fields)
    → n + length xs ≡ m
    → AreNumbered n xs
    → AreNumbered m ys
    → AreNumbered n (xs ++ ys)
AreNumbered-append n m [] ys e hx hy = let same : n ≡ m = omega arith in rw same hy
AreNumbered-append n m (x ∷ xs) ys e hx hy =
    (hx.0, AreNumbered-append (n + 1) m xs ys (omega arith) hx.1 hy)

IsNumbered-decode :
    (n : ℕ) (payloads : List Bytes) (fields : List Fields)
    → map decode payloads ≡ map some fields
    → AreNumbered n fields
    → IsNumbered n payloads
IsNumbered-decode n [] fields e h = tt
IsNumbered-decode n (payload ∷ payloads) [] e h = cc
IsNumbered-decode n (payload ∷ payloads) (f ∷ fields) e h =
    ((f, cc, h.0), IsNumbered-decode (n + 1) payloads fields (cc) h.1)

same_length :
    (payloads : List Bytes) (fields : List Fields)
    → map decode payloads ≡ map some fields
    → length fields ≡ length payloads
same_length [] [] e = refl
same_length [] (f ∷ fields) e = cc
same_length (payload ∷ payloads) [] e = cc
same_length (payload ∷ payloads) (f ∷ fields) e = omega (arith, same_length payloads fields (cc))

module _ {timers : Ctimer} {random : Random} {etimers : Etimer} where
  report-AreNumbered :
      {c : Config} {clock_second : ℕ} {leds : Leds} {m m' : Mqtt timers random etimers}
      (turn : Step c clock_second leds m m') (n : ℕ) (p : Power)
      → AreNumbered n (report turn n p)
  unfolding report
  report-AreNumbered {m = m} (wake w) n p = elim (Bool-cases (due w m)) [
    | inl now ↦ rw now (refl, tt)
    | inr still ↦ rw still tt
  ]
  report-AreNumbered (event e r done) n p = tt
  report-AreNumbered (put_sampling payload) n p = tt
  report-AreNumbered (put_status payload r done) n p = tt
  report-AreNumbered (startup pending) n p = tt
  report-AreNumbered (elapse t) n p = tt

  reports-AreNumbered :
      {c : Config} {clock_second : ℕ} {leds : Leds} {m m' : Mqtt timers random etimers}
      (run : Reach c clock_second leds m m') (p : Power)
      → AreNumbered 0 (reports run p)
  unfolding reports
  reports-AreNumbered here p = tt
  reports-AreNumbered (next before turn) p =
      let n = length (reports before p) in
      AreNumbered-append 0 n (reports before p) (report turn n (power_after before p)) (omega arith)
        (reports-AreNumbered before p) (report-AreNumbered turn n (power_after before p))

  -- Over any run of a configured node from its start, in whatever order requests, events, timers and
  -- wake-ups come, the messages that it publishes read back with the sequence numbers 0, 1, 2 and so
  -- on, modulo 2 ^ 32, none skipped and none twice, and the node's counter is their number modulo
  -- 2 ^ 32. Ids and addresses are in range, and they and the type hold no quote.
  pub sent-IsNumbered :
      {c : Config} {clock_second : ℕ} {leds : Leds} (t : etimers.Timer) (rand : random.State)
      {m : Mqtt timers random etimers}
      (run : Reach c clock_second leds (start c clock_second t rand) m)
      → IsConfig c
      → HasNoQuote c.node_type
      → IsTidyRun run
      → IsNumbered 0 (sent run) × (m.sensor.mqtt_seq ≡ length (sent run) % 2 ^ 32)
  sent-IsNumbered {c} t rand run hc plain tidy =
      let p = if c.default_on then powered_on else powered_off in
      let (said, counted) = sent-reports t rand run hc plain tidy in
      (
        IsNumbered-decode 0 (sent run) (reports run p) said (reports-AreNumbered run p),
        counted ∙ ap (λ k. k % 2 ^ 32) (same_length (sent run) (reports run p) said),
      )
