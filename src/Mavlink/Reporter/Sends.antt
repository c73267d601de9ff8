-- ===== src/Mavlink/Reporter/Sends.antt =====
-- mavlink/telemetry_reporter.rs: the messages of a tick are built without a panic, and enter the queue
-- in pairs.
use uswarm_unitctl.Base.{
  ℕ, zero, suc, ◌+◌, ◌-◌, ◌*◌, ◌/◌, ◌≤◌, ◌<◌, ◌≡◌, ◌≢◌, refl, sym, ap, ◌∙◌, Bool, true, false,
  Bool-cases, Option-cases, inl, inr, Option, none, some, List, [], ◌∷◌, ◌++◌, append_assoc,
  append-nil, length, length-append, take, length-take, ltb, ltb-true, ltb-false, arith,
}
use uswarm_unitctl.Config.{MavlinkConfig}
use uswarm_unitctl.Messages.Telemetry.{
  LteReading, LteNeighborCell, PingTelemetry, default_ping, default_reading, cells,
}
use uswarm_unitctl.Mavlink.Frames.{MavFrame, Route}
use uswarm_unitctl.Mavlink.Subcommands.{
  MavCmdUser1SubCmd, id_of, lte_ip_telemetry_neighbors_0, lte_ip_telemetry_neighbors_1,
  lte_ip_telemetry_neighbors_2, lte_ip_telemetry_neighbors_3, lte_ip_telemetry_neighbors_4,
  lte_ip_telemetry_neighbors_5, lte_ip_telemetry_neighbors_6, lte_ip_telemetry_neighbors_7,
  lte_ip_telemetry_neighbors_8, lte_ip_telemetry_neighbors_9,
}
use uswarm_unitctl.Mavlink.Outgoing.{Outgoing, outgoing_capacity, enqueue}
use uswarm_unitctl.Mavlink.Reporter.{
  Link, Other, others, try_send, send_frames, send_to_both, both_frames, if_sent, Message,
  Interference, build_neighbor_telemetry, neighbor_subcommand, neighbor_messages, tick_messages,
  send_messages, report_tick, sort_by_pcid, unwrap_or,
}

-- A message that is built for every receiver.
abbrev IsBuilt : Message → Type 0
IsBuilt m = (sys comp : ℕ) → m sys comp ≢ none

abbrev AreBuilt : List Message → Type 0
AreBuilt [] = Unit
AreBuilt (m ∷ ms) = IsBuilt m × AreBuilt ms

some_ne_none : {A : Type 0} {a : A} → some a ≢ none
some_ne_none h = cc

-- A slot below 10 has a subcommand, and its number is 31040 and the slot.
pub neighbor_subcommand_lem :
    (slot : ℕ)
    → slot < 10
    → (s : MavCmdUser1SubCmd) × (neighbor_subcommand slot ≡ some s) × (id_of s ≡ 31040 + slot)
unfolding neighbor_subcommand id_of
neighbor_subcommand_lem zero h = (lte_ip_telemetry_neighbors_0, refl, refl)
neighbor_subcommand_lem (suc zero) h = (lte_ip_telemetry_neighbors_1, refl, refl)
neighbor_subcommand_lem (suc (suc zero)) h = (lte_ip_telemetry_neighbors_2, refl, refl)
neighbor_subcommand_lem (suc (suc (suc zero))) h = (lte_ip_telemetry_neighbors_3, refl, refl)
neighbor_subcommand_lem (suc (suc (suc (suc zero)))) h = (lte_ip_telemetry_neighbors_4, refl, refl)
neighbor_subcommand_lem (suc (suc (suc (suc (suc zero))))) h =
    (lte_ip_telemetry_neighbors_5, refl, refl)
neighbor_subcommand_lem (suc (suc (suc (suc (suc (suc zero)))))) h =
    (lte_ip_telemetry_neighbors_6, refl, refl)
neighbor_subcommand_lem (suc (suc (suc (suc (suc (suc (suc zero))))))) h =
    (lte_ip_telemetry_neighbors_7, refl, refl)
neighbor_subcommand_lem (suc (suc (suc (suc (suc (suc (suc (suc zero)))))))) h =
    (lte_ip_telemetry_neighbors_8, refl, refl)
neighbor_subcommand_lem (suc (suc (suc (suc (suc (suc (suc (suc (suc zero))))))))) h =
    (lte_ip_telemetry_neighbors_9, refl, refl)
neighbor_subcommand_lem (suc (suc (suc (suc (suc (suc (suc (suc (suc (suc n)))))))))) h =
    absurd (omega (arith, h))

build_neighbor_telemetry-built :
    (route : Route) (slot : ℕ) (n : LteNeighborCell)
    → slot < 10
    → build_neighbor_telemetry route slot n ≢ none
unfolding build_neighbor_telemetry
build_neighbor_telemetry-built route slot n h =
    let (s, found, number) = neighbor_subcommand_lem slot h in
    rw (build_neighbor_telemetry, found) some_ne_none

neighbor_messages-built :
    (sysid compid slot : ℕ) (ns : List LteNeighborCell)
    → slot + length ns ≤ 10
    → AreBuilt (neighbor_messages sysid compid slot ns)
unfolding neighbor_messages
neighbor_messages-built sysid compid slot [] h = tt
neighbor_messages-built sysid compid slot (n ∷ ns) h = (
  λ sys comp. build_neighbor_telemetry-built _ slot n (omega (arith, h)),
  neighbor_messages-built sysid compid (suc slot) ns (omega (arith, h)),
)

tick_messages-built :
    (sysid compid : ℕ) (ping : PingTelemetry) (lte : LteReading)
    → AreBuilt (tick_messages sysid compid ping lte)
unfolding tick_messages
tick_messages-built sysid compid ping lte =
    let sorted = sort_by_pcid (cells lte.neighbors) in
    (
      λ sys comp. some_ne_none,
      (
        λ sys comp. some_ne_none,
        neighbor_messages-built sysid compid 0 (take 10 sorted)
            (omega (arith, length-take 10 sorted)),
      ),
    )

if_sent_some :
    (o : Option (Bool × Link MavFrame)) (next : Link MavFrame → Option (Bool × Link MavFrame))
    → o ≢ none
    → ((link : Link MavFrame) → next link ≢ none)
    → if_sent o next ≢ none
if_sent_some none next h k = absurd (h refl)
if_sent_some (some (true, link)) next h k = k link
if_sent_some (some (false, link)) next h k = some_ne_none

both_frames_some :
    (gcs bs : Option MavFrame) (between : List (Other MavFrame) × List (Other MavFrame))
    (link : Link MavFrame)
    → gcs ≢ none
    → bs ≢ none
    → both_frames gcs bs between link ≢ none
both_frames_some none bs between link h k = absurd (h refl)
both_frames_some (some gcs) none between link h k = absurd (k refl)
both_frames_some (some gcs) (some bs) between link h k = some_ne_none

module _ (config : MavlinkConfig) (between : Interference) where
  send_messages_total :
      (k : ℕ) (ms : List Message) (link : Link MavFrame)
      → AreBuilt ms
      → send_messages config between k ms link ≢ none
  unfolding send_messages send_to_both
  send_messages_total k [] link built = some_ne_none
  send_messages_total k (m ∷ ms) link built =
      if_sent_some _ _
        (both_frames_some (m config.gcs_sysid 0) (m config.bs_sysid 0) (between k) link
          (built.0 config.gcs_sysid 0) (built.0 config.bs_sysid 0))
        (λ link'. send_messages_total (suc k) ms link' built.1)

  -- A tick does not panic, whatever the readings are and whatever other tasks do with the queue: the
  -- slot of a neighbour cell is always at most 9.
  pub report_tick_total :
      (self_sysid : Option ℕ) (ping : Option PingTelemetry) (lte : Option LteReading)
      (link : Link MavFrame)
      → report_tick config between self_sysid ping lte link ≢ none
  unfolding report_tick
  report_tick_total none ping lte link = some_ne_none
  report_tick_total (some id) ping lte link =
      let ping' = unwrap_or default_ping ping in
      let lte' = unwrap_or default_reading lte in
      send_messages_total 0 (tick_messages id config.self_compid ping' lte') link
        (tick_messages-built id config.self_compid ping' lte')

abbrev listed : Option MavFrame → List MavFrame
listed none = []
listed (some f) = f ∷ []

-- The frames of the messages for the two receivers, in pairs.
abbrev pub frames_for : ℕ → ℕ → List Message → List MavFrame
frames_for gcs bs [] = []
frames_for gcs bs (m ∷ ms) = listed (m gcs 0) ++ (listed (m bs 0) ++ frames_for gcs bs ms)

abbrev pub quiet : Interference
quiet k = ([], [])

abbrev pub open_link : Outgoing MavFrame → Link MavFrame
open_link s = record { outgoing = s; is_open = true }

abbrev pub add_frames : List MavFrame → Outgoing MavFrame → Outgoing MavFrame
add_frames fs s = record s { queue = s.queue ++ fs }

-- The frames that fit, an even number of them.
abbrev pub fitting : Outgoing MavFrame → ℕ
fitting s = 2 * ((outgoing_capacity - length s.queue) / 2)

add_frames_add :
    (xs ys : List MavFrame) (s : Outgoing MavFrame)
    → add_frames ys (add_frames xs s) ≡ add_frames (xs ++ ys) s
add_frames_add xs ys s = ap (λ q. record s { queue = q }) (append_assoc s.queue xs ys)

take_nothing : (n : ℕ) → take {A = MavFrame} n [] ≡ []
take_nothing zero = refl
take_nothing (suc n) = refl

add_frames_none : (s : Outgoing MavFrame) → add_frames [] s ≡ s
add_frames_none s = ap (λ q. record s { queue = q }) (append-nil s.queue)

enqueue_room :
    (f : MavFrame) (s : Outgoing MavFrame)
    → length s.queue < outgoing_capacity
    → enqueue f s ≡ (add_frames (f ∷ []) s, true)
unfolding enqueue
enqueue_room f s h = elim (Bool-cases (ltb (length s.queue) outgoing_capacity)) [
  | inl room ↦ rw room refl
  | inr full ↦ absurd (omega (arith, ltb-false _ _ full))
]

send_frames_room :
    (g b : MavFrame) (s : Outgoing MavFrame)
    → ltb (outgoing_capacity - length s.queue) 2 ≡ false
    → send_frames g b ([], []) (open_link s) ≡ (true, open_link (add_frames (g ∷ b ∷ []) s))
unfolding send_frames try_send others
send_frames_room g b s room =
    let two : 2 ≤ outgoing_capacity - length s.queue = ltb-false _ _ room in
    rw
      (
        room,
        enqueue_room g s (omega (arith, two)),
        enqueue_room b (add_frames (g ∷ []) s) (omega (arith, two, length-append s.queue (g ∷ []))),
      )
      (ap (λ s'. (true, open_link s')) (add_frames_add (g ∷ []) (b ∷ []) s))

send_frames_full :
    (g b : MavFrame) (s : Outgoing MavFrame)
    → ltb (outgoing_capacity - length s.queue) 2 ≡ true
    → send_frames g b ([], []) (open_link s) ≡ (true, open_link s)
unfolding send_frames
send_frames_full g b s full = rw (send_frames, full) refl

module _ (config : MavlinkConfig) where
  -- What is sent of a row of messages.
  abbrev Sent : ℕ → List Message → Outgoing MavFrame → Type 0
  Sent k ms s =
      send_messages config quiet k ms (open_link s)
      ≡ some (
        true,
        open_link
            (add_frames (take (fitting s) (frames_for config.gcs_sysid config.bs_sysid ms)) s),
      )

  Sent-full :
      (k : ℕ) (m : Message) (ms : List Message) (s : Outgoing MavFrame) (g b : MavFrame)
      → m config.gcs_sysid 0 ≡ some g
      → m config.bs_sysid 0 ≡ some b
      → ltb (outgoing_capacity - length s.queue) 2 ≡ true
      → Sent (suc k) ms s
      → Sent k (m ∷ ms) s
  unfolding send_messages send_to_both
  Sent-full k m ms s g b hg hb full later =
      let none_fit : fitting s ≡ 0 = omega (arith, ltb-true _ _ full) in
      rw (send_messages, hg, hb, send_frames_full g b s full, later, none_fit) refl

  Sent-room :
      (k : ℕ) (m : Message) (ms : List Message) (s : Outgoing MavFrame) (g b : MavFrame)
      → m config.gcs_sysid 0 ≡ some g
      → m config.bs_sysid 0 ≡ some b
      → ltb (outgoing_capacity - length s.queue) 2 ≡ false
      → Sent (suc k) ms (add_frames (g ∷ b ∷ []) s)
      → Sent k (m ∷ ms) s
  unfolding send_messages send_to_both
  Sent-room k m ms s g b hg hb room later =
      let two_fit : fitting s ≡ suc (suc (fitting (add_frames (g ∷ b ∷ []) s))) =
        omega (arith, ltb-false _ _ room, length-append s.queue (g ∷ b ∷ [])) in
      rw (send_messages, hg, hb, send_frames_room g b s room, later, two_fit)
        (ap (λ s'. some (true, open_link s')) (add_frames_add (g ∷ b ∷ []) _ s))

  send_messages_quiet :
      (k : ℕ) (ms : List Message) (s : Outgoing MavFrame) → AreBuilt ms → Sent k ms s
  unfolding send_messages
  send_messages_quiet k [] s built =
      ap (λ s'. some (true, open_link s'))
        (sym (add_frames_none s) ∙ ap (λ fs. add_frames fs s) (sym (take_nothing (fitting s))))
  send_messages_quiet k (m ∷ ms) s built = elim (Option-cases (m config.gcs_sysid 0)) [
    | inl e ↦ absurd (built.0 config.gcs_sysid 0 e)
    | inr (g, hg) ↦ elim (Option-cases (m config.bs_sysid 0)) [
      | inl e ↦ absurd (built.0 config.bs_sysid 0 e)
      | inr (b, hb) ↦ elim (Bool-cases (ltb (outgoing_capacity - length s.queue) 2)) [
        | inl full ↦ Sent-full k m ms s g b hg hb full (send_messages_quiet (suc k) ms s built.1)
        | inr room ↦
            Sent-room k m ms s g b hg hb room
              (send_messages_quiet (suc k) ms (add_frames (g ∷ b ∷ []) s) built.1)
      ]
    ]
  ]

  -- A tick with a known system id, while no other task touches the queue and its receiver exists, puts
  -- the frames of its messages at the queue's end, each for the ground station and then for the base
  -- station, as many as there is room for with both frames of a message, and goes on.
  pub report_tick-pairs :
      (self_sysid : ℕ) (ping : Option PingTelemetry) (lte : Option LteReading)
      (s : Outgoing MavFrame)
      → report_tick config quiet (some self_sysid) ping lte (open_link s)
        ≡ some (
          true,
          open_link (
              add_frames
                (take (fitting s) (
                  frames_for config.gcs_sysid config.bs_sysid (
                    tick_messages self_sysid config.self_compid
                      (unwrap_or default_ping ping)
                      (unwrap_or default_reading lte))))
                s),
        )
  unfolding report_tick
  report_tick-pairs id ping lte s =
      let ping' = unwrap_or default_ping ping in
      let lte' = unwrap_or default_reading lte in
      send_messages_quiet 0 (tick_messages id config.self_compid ping' lte') s
        (tick_messages-built id config.self_compid ping' lte')
