-- ===== src/Resources/Sampling/Put.antt =====
-- A PUT of actuators/sampling applies a number that it has read in full and checked, and a GET is read
-- back by a PUT.
use io_t_project.Prelude.{
  ℕ, ◌-◌, ◌^◌, ◌≤◌, ◌<◌, ◌≡◌, refl, ap, ◌∙◌, ◌≢◌, ◌⊎◌, inl, inr, Option, none, some, List, [], ◌∷◌,
  ◌++◌, Bytes, length, pair_path, ltb, leb, ◌||◌, Bool-cases, take_all, arith,
}
use io_t_project.CLib.Decimal.{print_lu, length-print_lu}
use io_t_project.CLib.Strtoul.{c_string, strtoul}
use io_t_project.CLib.RoundTrip.{
  c_string-digits, print_lu-All, print_lu-ne-nil, strtoul-print_lu, strtoul-minus, value-print_lu,
}
use io_t_project.Calls.{
  IsRefusal, Call, set_status_code, set_local_payload, set_header_content_format, text_plain,
  changed_2_04,
}
use io_t_project.Coap.{Payload, payload_bytes}
use io_t_project.Config.{Config, IsConfig}
use io_t_project.Sampling.{
  Sampling, get_publish_interval_ms, set_publish_interval_ms, clamp_interval,
}
use io_t_project.Sampling.Bounds.{
  IsInRange, set_publish_interval_ms-IsInRange, set_publish_interval_ms_same, clamp_interval_lem,
}
use io_t_project.Resources.Sampling.{res_get_handler, copy_to_tmp, put_number, res_put_handler}

-- The calls of a PUT that is taken with the text `tmp` and the number `n`.
abbrev pub Taken : Config → Bytes → ℕ → Sampling → Sampling × List Call → Type 0
Taken c tmp n s r =
    (r.0 ≡ (set_publish_interval_ms c n s).0)
    × (r.1
        ≡ (set_publish_interval_ms c n s).1
          ++ (set_status_code changed_2_04 ∷ set_local_payload tmp (length tmp) ∷ []))

-- The reply begins with 4.00, and nothing has changed.
abbrev pub Refused : Sampling → Sampling × List Call → Type 0
Refused s r = (r.0 ≡ s) × IsRefusal r.1

put_number-Taken :
    (c : Config) (tmp : Bytes) (n : ℕ) (s : Sampling)
    → 0 < n
    → n ≤ 60000
    → Taken c tmp n s (put_number c tmp (some (n, [])) s)
unfolding put_number
put_number-Taken c tmp n s p q = ground arith

put_number_cases :
    (c : Config) (tmp : Bytes) (r : Option (ℕ × Bytes)) (s : Sampling)
    → (Refused s (put_number c tmp r s)
        ⊎ ((n : ℕ) × (r ≡ some (n, []))
            × (0 < n)
            × (n ≤ 60000)
            × Taken c tmp n s (put_number c tmp r s)))
unfolding put_number
put_number_cases c tmp none s = inl (refl, refl)
put_number_cases c tmp (some (n, d ∷ rest)) s = inl (refl, refl)
put_number_cases c tmp (some (n, [])) s = elim (Bool-cases (ltb n 1 || ltb 60000 n)) [
  | inl e ↦ inl (rw e (refl, refl))
  | inr e ↦
      let low : 0 < n = ground arith in
      let high : n ≤ 60000 = ground arith in
      inr (n, refl, low, high, put_number-Taken c tmp n s low high)
]

-- Every PUT is either refused, with a 4.00 reply and the state as it was, or `strtoul` has read the
-- copied text to its end as a number from 1 to 60000, the interval is set to that number, and the
-- reply is 2.04 with the text.
pub res_put_handler_cases :
    (c : Config) (payload : Payload) (s : Sampling)
    → let tmp = copy_to_tmp (payload_bytes payload) in
      (Refused s (res_put_handler c payload s)
        ⊎ ((n : ℕ) × (strtoul tmp ≡ some (n, []))
            × (0 < n)
            × (n ≤ 60000)
            × Taken c tmp n s (res_put_handler c payload s)))
unfolding res_put_handler
res_put_handler_cases c none s = inl (refl, refl)
res_put_handler_cases c (some []) s = inl (refl, refl)
res_put_handler_cases c (some (b ∷ bytes)) s =
    put_number_cases c (copy_to_tmp (b ∷ bytes)) (strtoul (copy_to_tmp (b ∷ bytes))) s

put-strtoul :
    (c : Config) (bytes : Bytes) (n : ℕ) (s : Sampling)
    → bytes ≢ []
    → copy_to_tmp bytes ≡ bytes
    → strtoul bytes ≡ some (n, [])
    → res_put_handler c (some bytes) s ≡ put_number c bytes (some (n, [])) s
unfolding res_put_handler
put-strtoul c [] n s ne h e = absurd (ne refl)
put-strtoul c (b ∷ bytes) n s ne h e = rw (h, e)

copy_to_tmp-short : (bytes : Bytes) → length bytes ≤ 31 → copy_to_tmp bytes ≡ c_string bytes
unfolding copy_to_tmp
copy_to_tmp-short bytes h = elim (Bool-cases (leb 32 (length bytes))) [
  | inl e ↦ absurd (ground arith)
  | inr e ↦ rw (e, take_all (length bytes) bytes (omega arith))
]

copy_to_tmp-print_lu : (n : ℕ) → copy_to_tmp (print_lu n) ≡ print_lu n
copy_to_tmp-print_lu n =
    copy_to_tmp-short (print_lu n) (omega (arith, length-print_lu n))
    ∙ c_string-digits (print_lu n) (print_lu-All n)

-- A PUT of the decimal text of a number from 1 to 60000 sets the interval to that number (clamped to
-- the stressed interval by `set_publish_interval_ms`) and echoes the text with 2.04.
pub put-print_lu :
    (c : Config) (n : ℕ) (s : Sampling)
    → 0 < n
    → n ≤ 60000
    → Taken c (print_lu n) n s (res_put_handler c (some (print_lu n)) s)
put-print_lu c n s p q =
    let e =
      put-strtoul c (print_lu n) n s (print_lu-ne-nil n) (copy_to_tmp-print_lu n)
        (strtoul-print_lu n (omega arith)) in
    rw e (put_number-Taken c (print_lu n) n s p q)

minus-print_lu : (n : ℕ) → copy_to_tmp (b'-' ∷ print_lu n) ≡ b'-' ∷ print_lu n
unfolding c_string
minus-print_lu n =
    copy_to_tmp-short (b'-' ∷ print_lu n) (omega (arith, length-print_lu n))
    ∙ ap (λ l. b'-' ∷ l) (c_string-digits (print_lu n) (print_lu-All n))

-- The negative number n - 2 ^ 32, whose text has up to eleven bytes, is taken as n for n from 1 to
-- 60000, because `strtoul` negates modulo 2 ^ 32.
pub put-negative :
    (c : Config) (n : ℕ) (s : Sampling)
    → 0 < n
    → n ≤ 60000
    → let text = b'-' ∷ print_lu (2 ^ 32 - n) in Taken c text n s (res_put_handler c (some text) s)
put-negative c n s p q =
    let m : ℕ = 2 ^ 32 - n in
    let read : strtoul (b'-' ∷ print_lu m) ≡ some (n, []) =
      strtoul-minus (print_lu m) (print_lu-ne-nil m) (print_lu-All m)
      ∙ rw (value-print_lu m (omega arith)) (ground arith) in
    rw (put-strtoul c (b'-' ∷ print_lu m) n s (cc) (minus-print_lu m) read)
      (put_number-Taken c (b'-' ∷ print_lu m) n s p q)

-- In a state in range, PUT of the text that GET returns changes nothing, polls nothing and replies
-- 2.04 with that text.
pub get-put :
    {c : Config} {s : Sampling}
    → IsConfig c
    → IsInRange c s
    → let text = print_lu (get_publish_interval_ms s) in
      (res_get_handler s
        ≡ set_header_content_format text_plain ∷ set_local_payload text (length text) ∷ [])
      × (res_put_handler c (some text) s
          ≡ (s, set_status_code changed_2_04 ∷ set_local_payload text (length text) ∷ []))
unfolding res_get_handler
get-put {c} {s} hc hs =
    let n = get_publish_interval_ms s in
    let (t, calls) = put-print_lu c n s hs.interval_pos (omega arith) in
    let same : clamp_interval c n ≡ n =
      (clamp_interval_lem n hc).1 hs.interval_pos hs.interval_le in
    let quiet = set_publish_interval_ms_same c n s same in
    (refl, pair_path (t ∙ quiet.0) (calls ∙ rw quiet.1))

-- Whatever its payload, a PUT keeps the interval in range.
pub res_put_handler-IsInRange :
    {c : Config} {s : Sampling} (payload : Payload)
    → IsConfig c
    → IsInRange c s
    → IsInRange c (res_put_handler c payload s).0
res_put_handler-IsInRange {c} {s} payload hc hs = elim (res_put_handler_cases c payload s) [
  | inl refused ↦ rw refused.0 hs
  | inr (n, _, _, _, taken) ↦ rw taken.0 (set_publish_interval_ms-IsInRange n hc hs)
]
