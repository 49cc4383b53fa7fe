-- ===== src/Anomaly.antt =====
-- sensors/coap-mqtt-sensor/detect_anomaly.h, the decision tree. Voltages, currents, thresholds and
-- scores are exact decimals in units of 10 ^ -17, the last digit of the longest threshold: the
-- readings are whole tenths, and no threshold lies so near to a tenth that single precision would
-- compare otherwise.
use io_t_project.Prelude.{
  ℕ, ◌*◌, ◌≤◌, ◌<◌, ◌≡◌, ◌⊎◌, ◌↔◌, Bool, true, ltb, leb, if◌then◌else◌, arith,
}

-- The two scores, normal and anomalous.
unfoldable pub anomaly_score : (v i : ℕ) → ℕ × ℕ
anomaly_score v i =
    if leb i 7290320587158203000
    then if leb v 50865760445594790
      then if leb i 1978038406372070300
        then (15139442231075698, 84860557768924300)
        else (81248407643312100, 18751592356687900)
      else if leb v 51850044727325440
      then (97272727272727280, 2727272727272727)
      else (100000000000000000, 0)
    else if leb i 8365932083129883000
    then if leb v 7334069348871708
      then (0, 100000000000000000)
      else (61904761904761910, 38095238095238093)
    else if leb i 9039396667480469000
    then (8333333333333333, 91666666666666660)
    else (58754406580493, 99941245593419500)

unfoldable pub detect_anomaly : (v i : ℕ) → Bool
unfolding anomaly_score
detect_anomaly v i = ltb 50000000000000000 (anomaly_score v i).1

-- A reading in tenths, as the tree takes it.
abbrev pub tenths : ℕ → ℕ
tenths n = n * 10000000000000000

-- At readings in tenths the tree finds an anomaly exactly for a current above 83.6, for a current
-- above 72.9 at 0.0 volts, and for a current of at most 19.7 at at most 0.5 volts.
pub detect_anomaly_iff :
    (v i : ℕ)
    → (detect_anomaly (tenths v) (tenths i) ≡ true)
      ↔ ((836 < i) ⊎ (729 < i) × (v ≡ 0) ⊎ (i ≤ 197) × (v ≤ 5))
unfolding detect_anomaly
detect_anomaly_iff v i = (ground arith, ground arith)
