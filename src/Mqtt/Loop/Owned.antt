-- ===== src/Mqtt/Loop/Owned.antt =====
-- The loop publishes on the topics of its own commands only.
use mathlib.Core.Path.{subst}
use uswarm_unitctl.Base.{
  ℕ, ◌+◌, ◌≡◌, ◌⊎◌, refl, sym, ◌∙◌, inl, inr, Bool, true, false, Option, none, some, List, [], ◌∷◌,
  ◌++◌, map, Text, codes, All, ok, err, Bool-cases, Option-cases,
}
use uswarm_unitctl.Messages.{
  CommandEnvelope, CommandState, in_progress, accepted, rejected, expired, completed, failed,
  CommandResultData,
}
use uswarm_unitctl.Handlers.Defs.{HandlerExit, finished, parked, Handler}
use uswarm_unitctl.Mqtt.Topics.{Node, command_topic, extract_command_name}
use uswarm_unitctl.Mqtt.Topics.Commands.{IsCommandName, extract_command_name_iff}
use uswarm_unitctl.Mqtt.Dedup.{record_uuid}
use uswarm_unitctl.Mqtt.Processor.{
  Publish, Outside, Processor, Exit, returned, panicked, blocked, send, publish_status,
  publish_result, complete, execute, run_handler, process_fresh, process_envelope, process_command,
  subscribe_commands,
}
use uswarm_unitctl.Mqtt.Processor.Lifecycle.{
  Prints, Message, status, result, wire, process_command-Lifecycle,
}
use uswarm_unitctl.Mqtt.Loop.{
  BridgeEvent, message, connected, disconnected, channel_closed, cancelled, LoopExit, after_message,
  handle_message, drain_commands,
}

-- A status or a result of a command of the node.
pub record IsOwned (node : Node) (p : Publish) : Type 0 where
  pub name : Text
  pub valid : IsCommandName name
  pub topic :
      (p.topic ≡ command_topic node name (codes "status"))
      ⊎ (p.topic ≡ command_topic node name (codes "result"))

All-append : {A : Type 0} (P : A → Type 0) (xs ys : List A) → All P xs → All P ys → All P (xs ++ ys)
All-append P [] ys h k = k
All-append P (x ∷ xs) ys h k = (h.0, All-append P xs ys h.1 k)

module _ {V S : Type 0} (out : Outside V) where
  send_node :
      (topic : Text) (json : Option Text) (p : Processor V S)
      → (send out topic json p).node ≡ p.node
  unfolding send
  send_node topic none p = refl
  send_node topic (some j) p = refl

  publish_status_node :
      (cmd uuid : Text) (state : CommandState) (p : Processor V S)
      → (publish_status out cmd uuid state p).node ≡ p.node
  unfolding publish_status
  publish_status_node cmd uuid state p =
      send_node (command_topic p.node cmd (codes "status")) (out.status_json _)
        (record p { readings = p.readings + 1 })

  publish_result_node :
      (cmd uuid : Text) (success : Bool) (error : Option Text) (content : Option CommandResultData)
      (p : Processor V S)
      → (publish_result out cmd uuid success error content p).node ≡ p.node
  unfolding publish_result
  publish_result_node cmd uuid success error content p =
      send_node (command_topic p.node cmd (codes "result")) (out.result_json _)
        (record p { readings = p.readings + 1 })

  complete_node :
      (cmd uuid : Text) (exit : HandlerExit) (p : Processor V S)
      → (complete out cmd uuid exit p).1.node ≡ p.node
  unfolding complete
  complete_node cmd uuid (finished (ok content)) p =
      publish_result_node cmd uuid true none (some content)
        (publish_status out cmd uuid completed p)
      ∙ publish_status_node cmd uuid completed p
  complete_node cmd uuid (finished (err m)) p =
      publish_result_node cmd uuid false (some m) none (publish_status out cmd uuid failed p)
      ∙ publish_status_node cmd uuid failed p
  complete_node cmd uuid parked p = refl

  run_handler_node :
      (cmd : Text) (e : CommandEnvelope V) (handler : Option (Handler V S)) (shutdown : Option S)
      (p : Processor V S)
      → (run_handler out cmd e handler shutdown p).1.node ≡ p.node
  unfolding run_handler execute
  run_handler_node cmd e none shutdown p = publish_status_node cmd e.uuid rejected p
  run_handler_node cmd e (some h) (some world) p = publish_status_node cmd e.uuid in_progress p
  run_handler_node cmd e (some h) none p =
      let q = publish_status out cmd e.uuid in_progress p in
      let (exit, world) = h e q.world in
      complete_node cmd e.uuid exit (record q { world = world })
      ∙ publish_status_node cmd e.uuid in_progress p

  process_fresh_node :
      (cmd : Text) (e : CommandEnvelope V) (late : Option Bool) (shutdown : Option S)
      (p : Processor V S)
      → (process_fresh out cmd e late shutdown p).1.node ≡ p.node
  unfolding process_fresh
  process_fresh_node cmd e none shutdown p = refl
  process_fresh_node cmd e (some true) shutdown p = publish_status_node cmd e.uuid expired p
  process_fresh_node cmd e (some false) shutdown p =
      run_handler_node cmd e _ shutdown (publish_status out cmd e.uuid accepted p)
      ∙ publish_status_node cmd e.uuid accepted p

  process_command_node :
      (cmd : Text) (payload : List ℕ) (shutdown : Option S) (p : Processor V S)
      → (process_command out cmd payload shutdown p).1.node ≡ p.node
  unfolding process_command process_envelope
  process_command_node cmd payload shutdown p = elim (Option-cases (out.parse_envelope payload)) [
    | inl e ↦ rw (e, process_command) refl
    | inr (e, parsed) ↦
        rw (parsed, process_command)
          (elim (Bool-cases (record_uuid p.dedup e.uuid).1) [
            | inl fresh ↦ rw fresh (process_fresh_node cmd e _ shutdown _)
            | inr known ↦ rw known refl
          ])
  ]

  handle_message_node :
      (cmd : Option Text) (payload : List ℕ) (shutdown : Option S) (p : Processor V S)
      → (handle_message out cmd payload shutdown p).1.node ≡ p.node
  unfolding handle_message
  handle_message_node none payload shutdown p = refl
  handle_message_node (some cmd) payload shutdown p = process_command_node cmd payload shutdown p

module _ {V : Type 0} {out : Outside V} (prints : Prints out) where
  wire-IsOwned :
      (node : Node) (cmd uuid : Text) (m : Message)
      → IsCommandName cmd
      → IsOwned node (wire prints node cmd uuid m)
  unfolding wire
  wire-IsOwned node cmd uuid (status state t) v = record { name = cmd; valid = v; topic = inl refl }
  wire-IsOwned node cmd uuid (result success error content t) v = record {
    name = cmd;
    valid = v;
    topic = inr refl;
  }

  map-IsOwned :
      (node : Node) (cmd uuid : Text) (ms : List Message)
      → IsCommandName cmd
      → All (IsOwned node) (map (wire prints node cmd uuid) ms)
  map-IsOwned node cmd uuid [] v = tt
  map-IsOwned node cmd uuid (m ∷ ms) v =
      (wire-IsOwned node cmd uuid m v, map-IsOwned node cmd uuid ms v)

module _ {V S : Type 0} {out : Outside V} (prints : Prints out) where
  process_command-IsOwned :
      (cmd : Text) (payload : List ℕ) (shutdown : Option S) (p : Processor V S)
      → IsCommandName cmd
      → All (IsOwned p.node) p.sent
      → All (IsOwned p.node) (process_command out cmd payload shutdown p).1.sent
  process_command-IsOwned cmd payload shutdown p v owned =
      let (ignored, published) = process_command-Lifecycle prints cmd payload shutdown p in
      elim (Option-cases (out.parse_envelope payload)) [
        | inl e ↦ subst (λ run. All (IsOwned p.node) run.1.sent) (sym (ignored e)) owned
        | inr (e, parsed) ↦
            let (ms, life, added) = published e parsed in
            subst (All (IsOwned p.node)) (sym added) (
              All-append (IsOwned p.node) p.sent (map (wire prints p.node cmd e.uuid) ms) owned
                (map-IsOwned prints p.node cmd e.uuid ms v))
      ]

  handle_message-IsOwned :
      (name : Option Text) (topic : Text) (payload : List ℕ) (shutdown : Option S)
      (p : Processor V S)
      → extract_command_name topic (command_topic p.node [] []) ≡ name
      → All (IsOwned p.node) p.sent
      → All (IsOwned p.node) (handle_message out name payload shutdown p).1.sent
  unfolding handle_message
  handle_message-IsOwned none topic payload shutdown p e owned = owned
  handle_message-IsOwned (some cmd) topic payload shutdown p e owned =
      process_command-IsOwned cmd payload shutdown p
        ((extract_command_name_iff p.node topic cmd).0 e).1 owned

  after_exit-IsOwned :
      (exit : Exit) (node : Node) (q : Processor V S) (rest : LoopExit × Processor V S)
      → All (IsOwned node) q.sent
      → All (IsOwned node) rest.1.sent
      → All (IsOwned node) (after_message exit q rest).1.sent
  unfolding after_message
  after_exit-IsOwned returned node q rest h k = k
  after_exit-IsOwned panicked node q rest h k = h
  after_exit-IsOwned blocked node q rest h k = h

  -- If the messages can be printed as JSON, and whatever arrives from the broker and however the
  -- handlers end, the loop adds nothing to what was published but statuses and results of commands,
  -- on the topics of its own node, each under a name of one level with no wildcard.
  pub drain_commands-IsOwned :
      (events : List (BridgeEvent S)) (p : Processor V S)
      → All (IsOwned p.node) p.sent
      → All (IsOwned p.node) (drain_commands out events p).1.sent
  unfolding drain_commands subscribe_commands
  drain_commands-IsOwned [] p owned = owned
  drain_commands-IsOwned (message topic payload shutdown ∷ events) p owned =
      let name = extract_command_name topic (command_topic p.node [] []) in
      let q = (handle_message out name payload shutdown p).1 in
      let same = handle_message_node out name payload shutdown p in
      let handled = handle_message-IsOwned name topic payload shutdown p refl owned in
      after_exit-IsOwned (handle_message out name payload shutdown p).0 p.node q
        (drain_commands out events q) handled
        (subst (λ n. All (IsOwned n) (drain_commands out events q).1.sent) same
          (drain_commands-IsOwned events q
            (subst (λ n. All (IsOwned n) q.sent) (sym same) handled)))
  drain_commands-IsOwned (connected true ∷ events) p owned =
      drain_commands-IsOwned events (subscribe_commands true p) owned
  drain_commands-IsOwned (connected false ∷ events) p owned = drain_commands-IsOwned events p owned
  drain_commands-IsOwned (disconnected ∷ events) p owned = drain_commands-IsOwned events p owned
  drain_commands-IsOwned (channel_closed ∷ events) p owned = owned
  drain_commands-IsOwned (cancelled ∷ events) p owned = owned
