-- ===== src/Resources/Push.antt =====
-- resources/res-push.c: the observable test resource and its event counter.
use io_t_project.Prelude.{
  ℕ, ◌+◌, ◌-◌, ◌/◌, ◌^◌, ◌≤◌, ◌≡◌, ◌↔◌, refl, inl, inr, Bool-cases, Option, none, some, List, [],
  ◌∷◌, ◌++◌, Bytes, codes, length, length-append, length-take, take, if◌then◌else◌, ◌==◌, arith,
}
use io_t_project.CLib.Decimal.{print_lu, length-print_lu}
use io_t_project.CLib.RoundTrip.{print_lu-ne-nil}
use io_t_project.CLib.Snprintf.{snprintf, snprintf_whole}
use io_t_project.Calls.{
  Call, set_payload, set_header_content_format, set_header_max_age, notify_observers, text_plain,
  AllInBounds,
}

unfoldable pub push_text : (event_counter : ℕ) → Bytes
push_text event_counter = codes "VERY LONG EVENT " ++ print_lu event_counter

-- The buffer behind `snprintf`: the text as far as it fits, and its NUL.
unfoldable pub push_buffer : (preferred_size event_counter : ℕ) → Bytes
push_buffer preferred_size event_counter =
    if preferred_size == 0
    then []
    else snprintf preferred_size (push_text event_counter) ++ (0 ∷ [])

-- The payload's length is what `snprintf` returns, the length of the whole text.
unfoldable pub res_get_handler : (period clock_second preferred_size event_counter : ℕ) → List Call
unfolding push_buffer
res_get_handler period clock_second preferred_size event_counter =
    set_header_content_format text_plain
    ∷ set_header_max_age (period / clock_second)
    ∷ set_payload (push_buffer preferred_size event_counter) (length (push_text event_counter))
    ∷ []

-- `++event_counter` on an `int32_t`: `none` is its overflow, which C leaves undefined.
unfoldable pub res_periodic_handler : ℕ → Option (ℕ × List Call)
res_periodic_handler event_counter =
    if event_counter == 2 ^ 31 - 1 then none else some (event_counter + 1, notify_observers ∷ [])

push_text_bounds :
    (event_counter : ℕ)
    → (17 ≤ length (push_text event_counter)) × (length (push_text event_counter) ≤ 26)
unfolding push_text
push_text_bounds event_counter = (
  omega (arith, nonempty (print_lu event_counter) (print_lu-ne-nil event_counter)),
  omega (arith, length-print_lu event_counter),
)
  where
    nonempty : (s : Bytes) → (s ≡ [] → ⊥) → 1 ≤ length s
    nonempty [] h = absurd (h refl)
    nonempty (c ∷ s) h = omega arith

length-push_buffer :
    (preferred_size event_counter : ℕ)
    → length (push_buffer preferred_size event_counter) ≤ preferred_size
unfolding push_buffer snprintf
length-push_buffer preferred_size event_counter =
    let text = push_text event_counter in
    ground (
      arith,
      length-append (take (preferred_size - 1) text) (0 ∷ []),
      length-take (preferred_size - 1) text,
    )

push_buffer_room :
    (preferred_size event_counter : ℕ)
    → length (push_text event_counter) ≤ preferred_size
    → length (push_text event_counter) ≤ length (push_buffer preferred_size event_counter)
unfolding push_buffer snprintf
push_buffer_room preferred_size event_counter room =
    let text = push_text event_counter in
    ground (
      arith,
      length-append (take (preferred_size - 1) text) (0 ∷ []),
      length-take (preferred_size - 1) text,
    )

-- The payload is within what was written for it exactly if the preferred size has room for the whole
-- text, at any counter.
pub res_get_handler-AllInBounds :
    (period clock_second preferred_size event_counter : ℕ)
    → AllInBounds (res_get_handler period clock_second preferred_size event_counter)
      ↔ (length (push_text event_counter) ≤ preferred_size)
unfolding res_get_handler
res_get_handler-AllInBounds period clock_second preferred_size event_counter = (
  λ h. omega (arith, length-push_buffer preferred_size event_counter, h.1.1.0),
  λ room. (tt, (tt, (push_buffer_room preferred_size event_counter room, tt))),
)

push_buffer_whole :
    (preferred_size event_counter : ℕ)
    → 27 ≤ preferred_size
    → push_buffer preferred_size event_counter ≡ push_text event_counter ++ (0 ∷ [])
unfolding push_buffer
push_buffer_whole preferred_size event_counter room =
    let (low, high) = push_text_bounds event_counter in
    let whole = snprintf_whole preferred_size (push_text event_counter) (omega (arith, high)) in
    elim (Bool-cases (preferred_size == 0)) [
      | inl e ↦ absurd (ground arith)
      | inr e ↦ rw (e, whole)
    ]

-- With a preferred size of at least 27 bytes the payload is the whole text, which is in the buffer
-- with its NUL behind it.
pub res_get_handler_whole :
    (period clock_second preferred_size event_counter : ℕ)
    → 27 ≤ preferred_size
    → (push_buffer preferred_size event_counter ≡ push_text event_counter ++ (0 ∷ []))
      × AllInBounds (res_get_handler period clock_second preferred_size event_counter)
unfolding res_get_handler
res_get_handler_whole period clock_second preferred_size event_counter room =
    let whole = push_buffer_whole preferred_size event_counter room in
    (whole, rw whole (omega (arith, length-append (push_text event_counter) (0 ∷ []))))

-- With a preferred size of at most 16 bytes, CoAP's smallest block, the payload's length is greater
-- than the number of bytes that were written for it, at every value of the counter.
pub res_get_handler_cut :
    (period clock_second preferred_size event_counter : ℕ)
    → preferred_size ≤ 16
    → ¬ AllInBounds (res_get_handler period clock_second preferred_size event_counter)
unfolding res_get_handler
res_get_handler_cut period clock_second preferred_size event_counter small h =
    let (low, high) = push_text_bounds event_counter in
    let cut = length-push_buffer preferred_size event_counter in
    absurd (omega (arith, low, cut, h.1.1.0))
