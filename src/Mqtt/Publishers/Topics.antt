-- ===== src/Mqtt/Publishers/Topics.antt =====
-- services/mqtt/status.rs and services/mqtt/telemetry.rs: what is published when, and that the node does
-- not take it for a command.
use mathlib.Core.Option
use uswarm_unitctl.Base.{
  ℕ, ◌+◌, suc, ◌≡◌, ◌≢◌, refl, ◌∙◌, true, false, Option, none, some, Option-cases, inl, inr, List,
  [], ◌∷◌, ◌++◌, Text, codes, All, length, length-append, strip_prefix, ==-refl, arith,
}
use uswarm_unitctl.Messages.Telemetry.{
  TelemetryEnvelope, TelemetryData, lte_data, ping_data, system_data, lte_telemetry,
  NodeStatusEnvelope, cells,
}
use uswarm_unitctl.Mqtt.Topics.{
  Node, node_path, status_topic, telemetry_topic, command_topic, extract_command_name,
}
use uswarm_unitctl.Mqtt.Processor.{Publish, at_least_once, at_most_once}
use uswarm_unitctl.Mqtt.Publishers.{
  StatusEvent, connected, message, lagged, channel_closed, cancelled, StatusPublisher,
  online_status, publish_online, run_status, SensorValues, publish_one, publish_telemetry,
  publish_data,
}

-- A common beginning is skipped.
strip_prefix-common : (w s p : Text) → strip_prefix (w ++ s) (w ++ p) ≡ strip_prefix s p
unfolding strip_prefix
strip_prefix-common [] s p = refl
strip_prefix-common (c ∷ w) s p = rw (==-refl c) (strip_prefix-common w s p)

node_path-common :
    (t : Node) (s p : Text) → strip_prefix (node_path t s) (node_path t p) ≡ strip_prefix s p
node_path-common t s p =
    strip_prefix-common t.env_prefix _ _
    ∙ strip_prefix-common (codes "/nodes/") (t.node_id ++ b'/' ∷ s) (t.node_id ++ b'/' ∷ p)
    ∙ strip_prefix-common t.node_id _ _
    ∙ strip_prefix-common (b'/' ∷ []) s p

-- A topic of the node with another first level is not a command's.
not_command :
    (t : Node) (rest : Text)
    → strip_prefix rest (codes "cmnd/") ≡ none
    → extract_command_name (node_path t rest) (command_topic t [] []) ≡ none
unfolding extract_command_name command_topic
not_command t rest h =
    let apart : strip_prefix (node_path t rest) (node_path t (codes "cmnd/")) ≡ none =
      node_path-common t rest (codes "cmnd/") ∙ h in
    rw apart refl

All-append : (P : Publish → Type 0) (xs ys : List Publish) → All P xs → All P ys → All P (xs ++ ys)
All-append P [] ys hx hy = hy
All-append P (x ∷ xs) ys hx hy = (hx.0, All-append P xs ys hx.1 hy)

-- The processor of commands reads no name from the topic.
abbrev pub IsNoCommand : Node → Publish → Type 0
IsNoCommand t p = extract_command_name p.topic (command_topic t [] []) ≡ none

-- A retained message on the status topic that is delivered at least once.
abbrev pub IsStatus : Node → Publish → Type 0
IsStatus t p = (p.topic ≡ status_topic t) × ((p.qos ≡ at_least_once) × (p.retain ≡ true))

-- A message that is not retained and delivered at most once, and not a command.
abbrev pub IsTelemetry : Node → Publish → Type 0
IsTelemetry t p = (p.qos ≡ at_most_once) × ((p.retain ≡ false) × IsNoCommand t p)

-- The connections, and the losses of events that may have hidden one, up to the task's end.
abbrev pub announcements : List StatusEvent → ℕ
announcements [] = 0
announcements (connected ∷ events) = suc (announcements events)
announcements (message ∷ events) = announcements events
announcements (lagged skipped ∷ events) = suc (announcements events)
announcements (channel_closed ∷ events) = 0
announcements (cancelled ∷ events) = 0

module _ (p : StatusPublisher) (printed : (e : NodeStatusEnvelope) → p.serialize e ≢ none) where
  publish_online-one :
      (n : ℕ)
      → (length (publish_online p n) ≡ 1)
        × All (λ m. IsStatus p.node m × IsNoCommand p.node m) (publish_online p n)
  unfolding publish_online status_topic strip_prefix
  publish_online-one n = elim (Option-cases (p.serialize (online_status p n))) [
    | inl e ↦ absurd (printed (online_status p n) e)
    | inr (payload, e) ↦
        rw (publish_online, e)
          (refl, (((refl, (refl, refl)), not_command p.node (codes "status") refl), tt))
  ]

  -- Where every status can be serialized, the status publisher publishes once for each connection and
  -- each loss of events before its end, and every publication is retained, of QoS 1, on the node's
  -- status topic, which the command processor reads no command from.
  pub run_status-once :
      (n : ℕ) (events : List StatusEvent)
      → (length (run_status p n events) ≡ announcements events)
        × All (λ m. IsStatus p.node m × IsNoCommand p.node m) (run_status p n events)
  unfolding run_status
  run_status-once n [] = (refl, tt)
  run_status-once n (connected ∷ events) =
      let (one, first) = publish_online-one n in
      let (count, rest) = run_status-once (suc n) events in
      (
        omega (arith, length-append (publish_online p n) (run_status p (suc n) events), one, count),
        All-append _ _ _ first rest,
      )
  run_status-once n (message ∷ events) = run_status-once n events
  run_status-once n (lagged skipped ∷ events) =
      let (one, first) = publish_online-one n in
      let (count, rest) = run_status-once (suc n) events in
      (
        omega (arith, length-append (publish_online p n) (run_status p (suc n) events), one, count),
        All-append _ _ _ first rest,
      )
  run_status-once n (channel_closed ∷ events) = (refl, tt)
  run_status-once n (cancelled ∷ events) = (refl, tt)

abbrev pub one_if : {A : Type 0} → Option A → ℕ
one_if none = 0
one_if (some a) = 1

one_if-map : {A B : Type 0} (f : A → B) (o : Option A) → one_if (Option.map f o) ≡ one_if o
one_if-map f none = refl
one_if-map f (some a) = refl

-- The number of readings that there are.
abbrev pub available : SensorValues → ℕ
available v = one_if v.lte + (one_if v.ping + one_if v.system)

abbrev pub named :
    {A : Type 0} → Text → (A → TelemetryData) → Option A → List (Text × TelemetryData)
named name f none = []
named name f (some a) = (name, f a) ∷ []

-- The readings that there are, with the last level of their topics.
abbrev pub readings : SensorValues → List (Text × TelemetryData)
readings v =
    named (codes "lte")
      (λ r. lte_data (record { imsi = r.imsi; signal = r.signal; neighbors = cells r.neighbors }))
      v.lte
    ++ (named (codes "ping") ping_data v.ping ++ named (codes "system") system_data v.system)

module _ (t : Node) (serialize : TelemetryEnvelope → Option Text) where
  -- The messages are those of the readings, one each and in their order: the payload is what serde_json
  -- prints for the reading with the instant `ts`, and the topic
  -- `<env_prefix>/nodes/<node_id>/telemetry/<name>`.
  abbrev pub Carries : ℕ → List (Text × TelemetryData) → List Publish → Type 0
  Carries ts [] [] = Unit
  Carries ts [] (m ∷ ms) = ⊥
  Carries ts (d ∷ ds) [] = ⊥
  Carries ts ((name, content) ∷ ds) (m ∷ ms) =
      (serialize (record { ts = ts; content = content }) ≡ some m.payload)
      × ((m.topic
            ≡ t.env_prefix ++ (codes "/nodes/" ++ (t.node_id ++ (codes "/telemetry/" ++ name))))
          × Carries ts ds ms)

  Carries-append :
      (ts : ℕ) (ds es : List (Text × TelemetryData)) (ms ns : List Publish)
      → Carries ts ds ms
      → Carries ts es ns
      → Carries ts (ds ++ es) (ms ++ ns)
  Carries-append ts [] es [] ns h k = k
  Carries-append ts [] es (m ∷ ms) ns h k = absurd h
  Carries-append ts (d ∷ ds) es [] ns h k = absurd h
  Carries-append ts ((name, content) ∷ ds) es (m ∷ ms) ns h k =
      (h.0, (h.1.0, Carries-append ts ds es ms ns h.1.1 k))

  publish_data-Carries :
      {A : Type 0} (ts : ℕ) (name : Text) (f : A → TelemetryData) (o : Option A)
      → ((e : TelemetryEnvelope) → serialize e ≢ none)
      → Carries ts (named name f o) (publish_data t serialize ts name (Option.map f o))
  unfolding publish_one telemetry_topic
  publish_data-Carries ts name f none printed = tt
  publish_data-Carries ts name f (some a) printed =
      elim (Option-cases (serialize (record { ts = ts; content = f a }))) [
        | inl e ↦ absurd (printed _ e)
        | inr (payload, e) ↦ rw (publish_one, e) (e, (refl, tt))
      ]

module _ (t : Node) (serialize : TelemetryEnvelope → Option Text)
    (printed : (e : TelemetryEnvelope) → serialize e ≢ none) where
  publish_data-one :
      (ts : ℕ) (name : Text) (o : Option TelemetryData)
      → (length (publish_data t serialize ts name o) ≡ one_if o)
        × All (IsTelemetry t) (publish_data t serialize ts name o)
  unfolding publish_one telemetry_topic strip_prefix
  publish_data-one ts name none = (refl, tt)
  publish_data-one ts name (some d) =
      elim (Option-cases (serialize (record { ts = ts; content = d }))) [
        | inl e ↦ absurd (printed _ e)
        | inr (payload, e) ↦
            rw (publish_one, e)
              (refl, ((refl, (refl, not_command t (codes "telemetry/" ++ name) refl)), tt))
      ]

  -- Where every envelope can be serialized, each reading in the context is published once, in the order
  -- LTE, ping, system, with the payload that the reading is serialized to at the instant `ts`, on the
  -- topic of the node's telemetry with the reading's name as the last level, with QoS 0 and not
  -- retained, and the command processor reads no command from that topic.
  pub publish_telemetry-once :
      (ts : ℕ) (v : SensorValues)
      → (length (publish_telemetry t serialize ts v) ≡ available v)
        × All (IsTelemetry t) (publish_telemetry t serialize ts v)
        × Carries t serialize ts (readings v) (publish_telemetry t serialize ts v)
  unfolding publish_telemetry lte_telemetry
  publish_telemetry-once ts v =
      let (a, lte) =
        publish_data-one ts (codes "lte") (Option.map (λ r. lte_data (lte_telemetry r)) v.lte) in
      let (b, ping) = publish_data-one ts (codes "ping") (Option.map ping_data v.ping) in
      let (c, system) = publish_data-one ts (codes "system") (Option.map system_data v.system) in
      let late = publish_data t serialize ts (codes "system") (Option.map system_data v.system) in
      let middle = publish_data t serialize ts (codes "ping") (Option.map ping_data v.ping) in
      let early =
        publish_data t serialize ts (codes "lte")
          (Option.map (λ r. lte_data (lte_telemetry r)) v.lte) in
      (
        omega (
          arith,
          length-append early (middle ++ late),
          length-append middle late,
          a ∙ one_if-map _ v.lte,
          b ∙ one_if-map ping_data v.ping,
          c ∙ one_if-map system_data v.system,
        ),
        All-append _ early _ lte (All-append _ middle late ping system),
        Carries-append t serialize ts _ _ early _
            (publish_data-Carries t serialize ts (codes "lte") (λ r. lte_data (lte_telemetry r))
              v.lte printed)
            (Carries-append t serialize ts _ _ middle late
              (publish_data-Carries t serialize ts (codes "ping") ping_data v.ping printed)
              (publish_data-Carries t serialize ts (codes "system") system_data v.system printed)),
      )
