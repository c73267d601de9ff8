-- ===== src/Startup/Receivers.antt =====
-- main.rs: who hears the connection's events.
use uswarm_unitctl.Base.{
  ◌≡◌, Bool, true, false, not, ◌&&◌, all, Option, some, ◌⊎◌, List, [], ◌∷◌, if◌then◌else◌,
}
use uswarm_unitctl.Config.{Config}
use uswarm_unitctl.Mqtt.Transport.{MqttEvent}
use uswarm_unitctl.Startup.{
  Step, processor_new, commands_subscribed, status_publisher_new, restart_completion_new,
  transport_run, MainExit, failed_start, panicked, serving,
}
use uswarm_unitctl.Startup.Bus.{Bus, silent, take_step, Moment, step, event}

-- The moments are steps of the list, from the first on and in their order, with events between them.
abbrev pub IsSchedule : List Moment → List Step → Type 0
IsSchedule [] steps = Unit
IsSchedule (event e ∷ ms) steps = IsSchedule ms steps
IsSchedule (step s ∷ ms) [] = ⊥
IsSchedule (step s ∷ ms) (s' ∷ steps) = (s ≡ s') × IsSchedule ms steps

-- The steps of a run of `main`.
abbrev pub taken_steps : MainExit → List Step
taken_steps failed_start = []
taken_steps (panicked steps) = steps
taken_steps (serving steps) = steps

-- The subscription was tried, and every receiver has all events that were sent.
pub record HasAll (taken : Bool) (b : Bus) : Type 0 where
  pub subscription : b.subscription ≡ some taken
  pub processor : b.processor ≡ some b.sent
  pub status : b.status ≡ some b.sent
  pub completion : b.completion ≡ some b.sent

-- No event loop and no event, or every receiver has all events.
abbrev pub IsHeard : Bool → Bus → Type 0
IsHeard taken b = ((b.running ≡ false) × (b.sent ≡ [])) ⊎ HasAll taken b

abbrev is_run : Step → Bool
is_run transport_run = true
is_run _ = false

-- A step that neither creates a receiver nor subscribes nor runs the transport.
abbrev is_quiet : Step → Bool
is_quiet processor_new = false
is_quiet (commands_subscribed taken) = false
is_quiet status_publisher_new = false
is_quiet restart_completion_new = false
is_quiet transport_run = false
is_quiet _ = true

abbrev is_open : Option (List MqttEvent) → Bool
is_open (some []) = true
is_open _ = false

abbrev is_tried : Bool → Option Bool → Bool
is_tried true (some true) = true
is_tried false (some false) = true
is_tried _ _ = false

abbrev is_ready : Bool → Bus → Bool
is_ready taken b =
    is_tried taken b.subscription
    && (is_open b.processor && (is_open b.status && is_open b.completion))

-- Up to the run of the transport nothing runs; then all is ready, and quiet steps follow.
abbrev is_safe : Bool → Bus → List Step → Bool
is_safe taken b [] = not b.running
is_safe taken b (s ∷ steps) =
    let rest = is_safe taken (take_step s b) steps in
    not b.running && (if is_run s then is_ready taken b && all is_quiet steps else rest)

-- The steps of a run of `main` are safe, from the start on.
abbrev IsSafe : Bool → MainExit → Type 0
IsSafe taken exit = is_safe taken silent (taken_steps exit) ≡ true
