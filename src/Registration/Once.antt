-- ===== src/Registration/Once.antt =====
-- What the register process has posted, by the first wait that ends with connectivity.
use io_t_project.Prelude.{
  ℕ, ◌≡◌, refl, append_assoc, append-nil, ◌≢◌, inl, inr, Bool-cases, Option, none, some,
  if◌then◌else◌, List, [], ◌∷◌, ◌++◌, Bytes, All,
}
use io_t_project.Calls.{Call}
use io_t_project.Node.{Network, have_connectivity}
use io_t_project.Registration.Process.{
  Phase, waiting, requesting, finished, Wakeup, delay_over, response, request_over, posts,
  posts-append, posts-handler, register_step, register_run,
}

-- A wait ends with a network of this kind.
abbrev pub Wakes : (Network → Type 0) → Wakeup → Type 0
Wakes meets (delay_over net clock_seconds) = meets net
Wakes meets (response r) = Unit
Wakes meets request_over = Unit

-- The first wait that ends with connectivity, with its network and time; `none` is before it.
abbrev pub Moment : Type 0
Moment = Option (Network × ℕ)

unfoldable pub moment_after : Moment → Wakeup → Moment
unfolding have_connectivity
moment_after (some m) w = some m
moment_after none (delay_over net clock_seconds) =
    if have_connectivity net then some (net, clock_seconds) else none
moment_after none (response r) = none
moment_after none request_over = none

unfoldable pub moment_of_run : Moment → List Wakeup → Moment
unfolding moment_after
moment_of_run m [] = m
moment_of_run m (w ∷ ws) = moment_of_run (moment_after m w) ws

module _ (says : Network → (clock_seconds : ℕ) → Bytes → Type 0) where
  -- Before that wait the process waits and nothing is posted, and from then on one payload, which says
  -- what it has to of the network and the time of that wait.
  abbrev pub IsRegistered : Moment → Phase → List Bytes → Type 0
  IsRegistered none phase posted = (phase ≡ waiting) × (posted ≡ [])
  IsRegistered (some (net, clock_seconds)) phase posted =
      (phase ≢ waiting)
      × ((payload : Bytes) × (posted ≡ payload ∷ []) × says net clock_seconds payload)

  stays-IsRegistered :
      (m : Network × ℕ) (phase phase' : Phase) (posted more : List Bytes)
      → phase' ≢ waiting
      → more ≡ []
      → IsRegistered (some m) phase posted
      → IsRegistered (some m) phase' (posted ++ more)
  stays-IsRegistered m phase phase' posted more past' quiet (_, (payload, one, read)) =
      (past', (payload, rw (quiet, one) refl, read))

  module _ (meets : Network → Type 0) (payload_at : Network → (clock_seconds : ℕ) → Bytes)
      (reads : (net : Network) (clock_seconds : ℕ)
        → meets net
        → says net clock_seconds (payload_at net clock_seconds)) where
    step-IsRegistered :
        (m : Moment) (phase : Phase) (w : Wakeup) (posted : List Bytes)
        → Wakes meets w
        → IsRegistered m phase posted
        → let (phase', calls) = register_step payload_at phase w in
          IsRegistered (moment_after m w) phase' (posted ++ posts calls)
    unfolding register_step posts moment_after
    step-IsRegistered none waiting (delay_over net clock_seconds) posted met (_, none_yet) =
        elim (Bool-cases (have_connectivity net)) [
          | inl up ↦ rw up (λ e. cc, (_, rw none_yet refl, reads net clock_seconds met))
          | inr down ↦ rw down (refl, rw none_yet refl)
        ]
    step-IsRegistered none waiting (response r) posted met (_, none_yet) = (refl, rw none_yet refl)
    step-IsRegistered none waiting request_over posted met (_, none_yet) = (refl, rw none_yet refl)
    step-IsRegistered none requesting w posted met (still, _) = cc
    step-IsRegistered none finished w posted met (still, _) = cc
    step-IsRegistered (some m) waiting w posted met (past, _) = absurd (past refl)
    step-IsRegistered (some m) requesting (delay_over net clock_seconds) posted met h =
        stays-IsRegistered m requesting requesting posted [] (λ e. cc) refl h
    step-IsRegistered (some m) requesting (response r) posted met h =
        stays-IsRegistered m requesting requesting posted _ (λ e. cc) (posts-handler r) h
    step-IsRegistered (some m) requesting request_over posted met h =
        stays-IsRegistered m requesting finished posted [] (λ e. cc) refl h
    step-IsRegistered (some m) finished w posted met h =
        stays-IsRegistered m finished finished posted [] (λ e. cc) refl h

    -- The calls that the process makes next keep it.
    pub next-IsRegistered :
        (m : Moment) (phase : Phase) (w : Wakeup) (calls : List Call)
        → Wakes meets w
        → IsRegistered m phase (posts calls)
        → let (phase', more) = register_step payload_at phase w in
          IsRegistered (moment_after m w) phase' (posts (calls ++ more))
    next-IsRegistered m phase w calls met h =
        rw (posts-append calls (register_step payload_at phase w).1)
          (step-IsRegistered m phase w (posts calls) met h)

    pub run-IsRegistered :
        (m : Moment) (phase : Phase) (ws : List Wakeup) (calls : List Call)
        → All (Wakes meets) ws
        → IsRegistered m phase (posts calls)
        → let (phase', more) = register_run payload_at phase ws in
          IsRegistered (moment_of_run m ws) phase' (posts (calls ++ more))
    unfolding register_run moment_of_run
    run-IsRegistered m phase [] calls met h = rw (append-nil calls) h
    run-IsRegistered m phase (w ∷ ws) calls met h =
        let (phase', more) = register_step payload_at phase w in
        let (phase'', rest) = register_run payload_at phase' ws in
        rw (← append_assoc calls more rest) (
          run-IsRegistered (moment_after m w) phase' ws (calls ++ more) met.1
            (next-IsRegistered m phase w calls met.0 h))
