-- ===== src/System/Session.antt =====
-- The connection of a producer node over its runs, against the automaton of Link.
use io_t_project.Prelude.{ℕ, ◌≡◌, refl, ap, ◌∙◌, List, [], ◌++◌}
use io_t_project.Config.{Config, IsConfig}
use io_t_project.Device.{Ctimer}
use io_t_project.Link.{Link, down, News, nothing, next_link, Ask, asks}
use io_t_project.Mqtt.{Etimer, Mqtt, start, round}
use io_t_project.Mqtt.Linked.{
  connection_asks, link, news_of_event, news_of_wake, event_asks, round-Follows, event-Follows,
}
use io_t_project.Resources.Leds.{Leds}
use io_t_project.System.{
  Step, wake, event, put_sampling, put_status, startup, elapse, Reach, here, next, IsSound,
}
use io_t_project.System.Safety.{Reach-IsSound}
use io_t_project.Telemetry.{Random}

module _ {timers : Ctimer} {random : Random} {etimers : Etimer} where
  -- The news of a turn.
  unfoldable pub news_of :
      {c : Config} {clock_second : ℕ} {leds : Leds} {m m' : Mqtt timers random etimers}
      → Step c clock_second leds m m'
      → News
  unfolding news_of_wake news_of_event
  news_of {m = m} (wake w) = news_of_wake w m
  news_of (event e r done) = news_of_event e
  news_of (put_sampling payload) = nothing
  news_of (put_status payload r done) = nothing
  news_of (startup pending) = nothing
  news_of (elapse t) = nothing

  -- What the wake-ups of the MQTT process ask of its stack.
  unfoldable pub asked_of :
      {c : Config} {clock_second : ℕ} {leds : Leds} {m m' : Mqtt timers random etimers}
      → Step c clock_second leds m m'
      → List Ask
  unfolding connection_asks round
  asked_of {c} {clock_second} {leds} {m} (wake w) = connection_asks (round c clock_second w m).1
  asked_of (event e r done) = []
  asked_of (put_sampling payload) = []
  asked_of (put_status payload r done) = []
  asked_of (startup pending) = []
  asked_of (elapse t) = []

  Step-Follows :
      {c : Config} {clock_second : ℕ} {leds : Leds} {m m' : Mqtt timers random etimers}
      (turn : Step c clock_second leds m m')
      → IsSound c m
      → (link m' ≡ next_link (news_of turn) (link m))
        × (asked_of turn ≡ asks (news_of turn) (link m))
  unfolding news_of asked_of next_link asks
  Step-Follows {c} {clock_second} {leds} {m} (wake w) h = round-Follows c clock_second w m h.counted
  Step-Follows {c} {clock_second} {leds} {m} (event e r done) h =
      (event-Follows leds e m r done, event_asks e (link m))
  Step-Follows (put_sampling payload) h = (refl, refl)
  Step-Follows (put_status payload r done) h = (refl, refl)
  Step-Follows (startup pending) h = (refl, refl)
  Step-Follows (elapse t) h = (refl, refl)

  -- The automaton after the news of a run, and what it has asked for.
  unfoldable pub link_after :
      {c : Config} {clock_second : ℕ} {leds : Leds} {m m' : Mqtt timers random etimers}
      → Reach c clock_second leds m m'
      → Link
  unfolding news_of next_link
  link_after here = down
  link_after (next before turn) = next_link (news_of turn) (link_after before)

  unfoldable pub asks_after :
      {c : Config} {clock_second : ℕ} {leds : Leds} {m m' : Mqtt timers random etimers}
      → Reach c clock_second leds m m'
      → List Ask
  unfolding news_of asks link_after
  asks_after here = []
  asks_after (next before turn) = asks_after before ++ asks (news_of turn) (link_after before)

  -- What the wake-ups of the MQTT process have asked of its stack over a run.
  unfoldable pub asked_in :
      {c : Config} {clock_second : ℕ} {leds : Leds} {m m' : Mqtt timers random etimers}
      → Reach c clock_second leds m m'
      → List Ask
  unfolding asked_of
  asked_in here = []
  asked_in (next before turn) = asked_in before ++ asked_of turn

  -- A configured node's connection refines the automaton of down, asked and up. After any run from
  -- its start, in whatever order requests, events, timers and wake-ups come, its state is the one that
  -- the automaton reaches from down through the news of the turns: a CONNACK brings it up, a
  -- disconnect event down, a wake-up with an expired timer and connectivity is a chance, at which a
  -- connection that is down is dialled and the fourth wait without an answer gives it up, and all else
  -- is nothing. And what the wake-ups have asked of the MQTT stack, to connect or to disconnect, is
  -- in its order what the automaton asks on its way.
  pub Reach-connects :
      {c : Config} {clock_second : ℕ} {leds : Leds} (t : etimers.Timer) (rand : random.State)
      {m : Mqtt timers random etimers}
      (run : Reach c clock_second leds (start c clock_second t rand) m)
      → IsConfig c
      → (link m ≡ link_after run) × (asked_in run ≡ asks_after run)
  unfolding link_after asks_after asked_in start
  Reach-connects t rand here hc = (refl, refl)
  Reach-connects t rand (next before turn) hc =
      let (shown, same) = Reach-connects t rand before hc in
      let (moves, asks_it) = Step-Follows turn (Reach-IsSound t rand hc before) in
      (moves ∙ ap (next_link (news_of turn)) shown, rw (same, asks_it, shown) refl)
