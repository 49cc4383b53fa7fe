-- ===== src/Telemetry/Readings.antt =====
-- The simulated readings and what the decision tree says of them.
use io_t_project.Prelude.{
  ℕ, ◌+◌, ◌*◌, ◌/◌, ◌%◌, ◌≤◌, ◌<◌, ◌≡◌, refl, ◌⊎◌, inl, inr, Bool-cases, true, false, ltb, arith,
}
use io_t_project.Config.{Config, IsConfig}
use io_t_project.Anomaly.{detect_anomaly, tenths, detect_anomaly_iff}
use io_t_project.Telemetry.{
  Random, Reading, silence, judge, simulate, inject_fault, inject_or_judge, read_sensor,
}

-- The ranges that the configuration gives for normal readings.
pub record IsNormal (c : Config) (r : Reading) : Type 0 where
  pub v_low : c.v_base ≤ r.v_int
  pub v_high : r.v_int < c.v_base + c.v_range
  pub i_low : c.i_base ≤ r.i_int
  pub i_high : r.i_int < c.i_base + c.i_range
  pub v_frac_digit : r.v_frac < 10
  pub i_frac_digit : r.i_frac < 10

-- A quarter of the base voltage at three times the base current or more.
pub record IsFault (c : Config) (r : Reading) : Type 0 where
  pub v_quarter : r.v_int ≡ c.v_base / 4
  pub i_low : c.i_base * 3 ≤ r.i_int
  pub i_high : r.i_int < c.i_base * 3 + c.i_range
  pub v_frac_digit : r.v_frac < 10
  pub i_frac_digit : r.i_frac < 10
  pub marked : r.anomaly ≡ true

-- Ranges at which the decision tree finds nothing: a voltage of at least one volt, and currents
-- below 72.9, the threefold ones too.
pub record IsQuiet (c : Config) : Type 0 where
  pub v_some : 4 ≤ c.v_base
  pub i_below : c.i_base * 3 + c.i_range ≤ 72

mod_bound : (a n : ℕ) → 0 < n → a % n < n
mod_bound a n h = grind arith

judge_quiet : (r : Reading) → 1 ≤ r.v_int → r.i_int ≤ 71 → r.i_frac < 10 → (judge r).anomaly ≡ false
unfolding judge
judge_quiet r hv hi hf =
    elim (Bool-cases
      (detect_anomaly (tenths (r.v_int * 10 + r.v_frac)) (tenths (r.i_int * 10 + r.i_frac)))) [
        | inl e ↦ absurd (
            omega
              (arith, (detect_anomaly_iff (r.v_int * 10 + r.v_frac) (r.i_int * 10 + r.i_frac)).0 e))
        | inr e ↦ e
      ]

module _ (random : Random) where
  open random use {State, random_rand}

  simulate-IsNormal : {c : Config} (s : State) → IsConfig c → IsNormal c (simulate random c s).0
  unfolding simulate
  simulate-IsNormal {c} s h =
      let v = (random_rand s).0 in
      let s2 = (random_rand (random_rand s).1).1 in
      let i = (random_rand s2).0 in
      record {
        v_low = omega arith;
        v_high = omega (arith, mod_bound v c.v_range h.v_some);
        i_low = omega arith;
        i_high = omega (arith, mod_bound i c.i_range h.i_some);
        v_frac_digit = omega arith;
        i_frac_digit = omega arith;
      }

  inject_fault-IsFault :
      {c : Config} (s : State) → IsConfig c → IsFault c (inject_fault random c s).0
  unfolding inject_fault
  inject_fault-IsFault {c} s h =
      let i = (random_rand (random_rand s).1).0 in
      record {
        v_quarter = refl;
        i_low = omega arith;
        i_high = omega (arith, mod_bound i c.i_range h.i_some);
        v_frac_digit = omega arith;
        i_frac_digit = omega arith;
        marked = refl;
      }

  inject_or_judge_cases :
      {c : Config} (draw : ℕ) (normal : Reading) (s : State)
      → IsConfig c
      → IsNormal c normal
      → ((inject_or_judge random c draw normal s).0 ≡ judge normal
          ⊎ IsFault c (inject_or_judge random c draw normal s).0 × (0 < c.anomaly_inject_percent))
  unfolding inject_or_judge
  inject_or_judge_cases {c} draw normal s h n =
      elim (Bool-cases (ltb (draw % 100) c.anomaly_inject_percent)) [
        | inl e ↦ rw e (inr (inject_fault-IsFault s h, ground arith))
        | inr e ↦ rw e (inl refl)
      ]

  -- Each reading of a device that is on is a normal one, judged by the decision tree, or an injected
  -- fault, which happens only at a positive injection percentage. A device that is off reads zeros,
  -- no anomaly, and draws no random number.
  pub read_sensor_cases :
      {c : Config} (s : State)
      → IsConfig c
      → (read_sensor random c false s ≡ (silence, s))
        × ((normal : Reading) × IsNormal c normal
            × ((read_sensor random c true s).0 ≡ judge normal
                ⊎ IsFault c (read_sensor random c true s).0 × (0 < c.anomaly_inject_percent)))
  unfolding read_sensor
  read_sensor_cases {c} s h =
      let (normal, s1) = simulate random c s in
      let (draw, s2) = random_rand s1 in
      let n = simulate-IsNormal s h in (refl, (normal, n, inject_or_judge_cases draw normal s2 h n))

-- Within quiet ranges the decision tree takes every injected fault for normal.
pub judge_fault : {c : Config} (r : Reading) → IsQuiet c → IsFault c r → (judge r).anomaly ≡ false
judge_fault r q f = judge_quiet r (omega arith) (omega arith) f.i_frac_digit

module _ (random : Random) where
  open random use {State}

  -- Within quiet ranges, which all three producers have, an anomaly is always an injected fault: a
  -- reading that is marked as one is a fault by its values, the injection percentage is positive, and
  -- the decision tree itself takes that reading for normal.
  pub anomaly_only_injected :
      {c : Config} (s : State)
      → IsConfig c
      → IsQuiet c
      → (read_sensor random c true s).0.anomaly ≡ true
      → IsFault c (read_sensor random c true s).0
        × (0 < c.anomaly_inject_percent)
        × ((judge (read_sensor random c true s).0).anomaly ≡ false)
  anomaly_only_injected {c} s h q marked =
      let r = (read_sensor random c true s).0 in
      let (normal, n, source) = (read_sensor_cases random s h).1 in
      elim source [
        | inl e ↦
            let quiet = judge_quiet normal (omega arith) (omega arith) n.i_frac_digit in
            absurd (ground (arith, e, quiet, marked))
        | inr f ↦ (f.0, f.1, judge_fault r q f.0)
      ]
