-- ===== src/Mqtt/Processor/Lifecycle.antt =====
-- What the processor publishes of one command.

use uswarm_unitctl.Base.{
  ℕ, ◌+◌, ◌≡◌, refl, sym, ap, ◌∙◌, Bool, true, false, Option, none, some, List, [], ◌∷◌, ◌++◌, map,
  append_assoc, append-nil, Text, codes, ok, err, inl, inr, Bool-cases,
}
use uswarm_unitctl.Messages.{
  CommandEnvelope, CommandState, accepted, in_progress, completed, failed, rejected, expired,
  CommandStatus, CommandResultMsg, CommandResultData,
}
use uswarm_unitctl.Handlers.Defs.{HandlerExit, finished, parked, Handler}
use uswarm_unitctl.Mqtt.Topics.{Node, command_topic}
use uswarm_unitctl.Mqtt.Dedup.{record_uuid}
use uswarm_unitctl.Mqtt.Processor.{
  at_least_once, Publish, Outside, Processor, Exit, returned, panicked, blocked, send,
  publish_status, publish_result, complete, execute, run_handler, process_fresh, process_envelope,
  process_command,
}

pub data Message : Type 0 where
  status : CommandState → ℕ → Message
  result : Bool → Option Text → Option CommandResultData → ℕ → Message

-- The messages of one call, in their order, beside the way in which the call ends. An instant is
-- that of the clock's reading for the message.
pub data Lifecycle : Exit → List Message → Type 0 where
  ignored : Lifecycle returned []
  aborted : Lifecycle panicked []
  too_late : (t : ℕ) → Lifecycle returned (status expired t ∷ [])
  unknown : (t u : ℕ) → Lifecycle returned (status accepted t ∷ status rejected u ∷ [])
  interrupted : (t u : ℕ) → Lifecycle returned (status accepted t ∷ status in_progress u ∷ [])
  waiting : (t u : ℕ) → Lifecycle blocked (status accepted t ∷ status in_progress u ∷ [])
  succeeded :
      (t u v w : ℕ) (content : CommandResultData)
      → Lifecycle returned (
          status accepted t
          ∷ status in_progress u
          ∷ status completed v
          ∷ result true none (some content) w
          ∷ [])
  went_wrong :
      (t u v w : ℕ) (message : Text)
      → Lifecycle returned (
          status accepted t
          ∷ status in_progress u
          ∷ status failed v
          ∷ result false (some message) none w
          ∷ [])

-- Both printers print every message: `serde_json::to_string` on these types has no failing case.
pub record Prints {V : Type 0} (out : Outside V) : Type 0 where
  pub status_text : CommandStatus → Text
  pub status_prints : (s : CommandStatus) → out.status_json s ≡ some (status_text s)
  pub result_text : CommandResultMsg → Text
  pub result_prints : (r : CommandResultMsg) → out.result_json r ≡ some (result_text r)

-- The call of the client for a message.
unfoldable pub wire :
    {V : Type 0} {out : Outside V} → Prints out → Node → Text → Text → Message → Publish
wire prints node cmd uuid (status state t) = record {
  topic = command_topic node cmd (codes "status");
  payload = prints.status_text (record { uuid = uuid; state = state; ts = t });
  qos = at_least_once;
  retain = false;
}
wire prints node cmd uuid (result success error content t) = record {
  topic = command_topic node cmd (codes "result");
  payload =
      prints.result_text
        (record { uuid = uuid; succeeded = success; ts = t; error = error; content = content });
  qos = at_least_once;
  retain = false;
}

module _ {V S : Type 0} {out : Outside V} (prints : Prints out) where
  publish_status-sent :
      (cmd uuid : Text) (state : CommandState) (p : Processor V S)
      → publish_status out cmd uuid state p ≡ record p {
        sent = p.sent ++ wire prints p.node cmd uuid (status state (out.clock p.readings)) ∷ [];
        readings = p.readings + 1;
      }
  unfolding publish_status wire
  publish_status-sent cmd uuid state p = rw (prints.status_prints _, send)

  publish_result-sent :
      (cmd uuid : Text) (success : Bool) (error : Option Text) (content : Option CommandResultData)
      (p : Processor V S)
      → publish_result out cmd uuid success error content p ≡ record p {
        sent =
            p.sent
            ++ wire prints p.node cmd uuid (result success error content (out.clock p.readings))
              ∷ [];
        readings = p.readings + 1;
      }
  unfolding publish_result wire
  publish_result-sent cmd uuid success error content p = rw (prints.result_prints _, send)

  -- The run from `p` published a lifecycle, behind what was published before.
  abbrev Follows : Text → Text → Processor V S → Exit × Processor V S → Type 0
  Follows cmd uuid p run =
      (ms : List Message) × Lifecycle run.0 ms
      × (run.1.sent ≡ p.sent ++ map (wire prints p.node cmd uuid) ms)

  complete-Follows :
      (cmd uuid : Text) (exit : HandlerExit) (p : Processor V S) (before : List Publish) (t u : ℕ)
      → p.sent
        ≡ before
          ++ map (wire prints p.node cmd uuid) (status accepted t ∷ status in_progress u ∷ [])
      → (ms : List Message) × Lifecycle (complete out cmd uuid exit p).0 ms
        × ((complete out cmd uuid exit p).1.sent ≡ before ++ map (wire prints p.node cmd uuid) ms)
  unfolding complete
  complete-Follows cmd uuid (finished (ok content)) p before t u e = (
    status accepted t
        ∷ status in_progress u
        ∷ status completed (out.clock p.readings)
        ∷ result true none (some content) (out.clock (p.readings + 1))
        ∷ [],
    succeeded t u (out.clock p.readings) (out.clock (p.readings + 1)) content,
    rw (publish_status-sent cmd uuid completed p) (
        ap (λ q. q.sent) (publish_result-sent cmd uuid true none (some content) _)
        ∙ rw e (simp append_assoc)),
  )
  complete-Follows cmd uuid (finished (err message)) p before t u e = (
    status accepted t
        ∷ status in_progress u
        ∷ status failed (out.clock p.readings)
        ∷ result false (some message) none (out.clock (p.readings + 1))
        ∷ [],
    went_wrong t u (out.clock p.readings) (out.clock (p.readings + 1)) message,
    rw (publish_status-sent cmd uuid failed p) (
        ap (λ q. q.sent) (publish_result-sent cmd uuid false (some message) none _)
        ∙ rw e (simp append_assoc)),
  )
  complete-Follows cmd uuid parked p before t u e =
      (status accepted t ∷ status in_progress u ∷ [], waiting t u, e)

  run_handler-Follows :
      (cmd : Text) (e : CommandEnvelope V) (handler : Option (Handler V S)) (shutdown : Option S)
      (p : Processor V S) (before : List Publish) (t : ℕ)
      → p.sent ≡ before ++ map (wire prints p.node cmd e.uuid) (status accepted t ∷ [])
      → let run = run_handler out cmd e handler shutdown p in
        (ms : List Message) × Lifecycle run.0 ms
        × (run.1.sent ≡ before ++ map (wire prints p.node cmd e.uuid) ms)
  unfolding run_handler execute
  run_handler-Follows cmd e none shutdown p before t h = (
    status accepted t ∷ status rejected (out.clock p.readings) ∷ [],
    unknown t (out.clock p.readings),
    rw (publish_status-sent cmd e.uuid rejected p, h) (simp append_assoc),
  )
  run_handler-Follows cmd e (some handler) (some world) p before t h = (
    status accepted t ∷ status in_progress (out.clock p.readings) ∷ [],
    interrupted t (out.clock p.readings),
    rw (publish_status-sent cmd e.uuid in_progress p, h) (simp append_assoc),
  )
  run_handler-Follows cmd e (some handler) none p before t h =
      rw (publish_status-sent cmd e.uuid in_progress p) (
        let (exit, world) = handler e p.world in
        complete-Follows cmd e.uuid exit _ before t (out.clock p.readings)
          (rw h (simp append_assoc)))

  process_fresh-Follows :
      (cmd : Text) (e : CommandEnvelope V) (late : Option Bool) (shutdown : Option S)
      (p : Processor V S)
      → Follows cmd e.uuid p (process_fresh out cmd e late shutdown p)
  unfolding process_fresh
  process_fresh-Follows cmd e none shutdown p = ([], aborted, sym (append-nil p.sent))
  process_fresh-Follows cmd e (some true) shutdown p = (
    status expired (out.clock p.readings) ∷ [],
    too_late (out.clock p.readings),
    rw (publish_status-sent cmd e.uuid expired p),
  )
  process_fresh-Follows cmd e (some false) shutdown p =
      rw (publish_status-sent cmd e.uuid accepted p)
        (run_handler-Follows cmd e _ shutdown _ p.sent (out.clock p.readings) refl)

  process_envelope-Follows :
      (cmd : Text) (e : CommandEnvelope V) (shutdown : Option S) (p : Processor V S)
      → Follows cmd e.uuid p (process_envelope out cmd e shutdown p)
  unfolding process_envelope
  process_envelope-Follows cmd e shutdown p = elim (Bool-cases (record_uuid p.dedup e.uuid).1) [
    | inl fresh ↦ rw fresh (process_fresh-Follows cmd e _ shutdown _)
    | inr known ↦ rw known ([], ignored, sym (append-nil p.sent))
  ]

  -- A message that is no envelope changes nothing. For an envelope, if the messages can be printed
  -- as JSON and whatever the clock, the handler and the shutdown do, the calls of the client that
  -- `process_command` adds are the wire forms of one lifecycle: nothing; `expired`; `accepted`,
  -- `rejected`; or `accepted`, `in_progress` and then, where the handler returns, `completed` with
  -- a positive result or `failed` with a negative one, each on the command's topics and under the
  -- uuid of the envelope. The lifecycle is one for the way in which the call ends.
  pub process_command-Lifecycle :
      (cmd : Text) (payload : List ℕ) (shutdown : Option S) (p : Processor V S)
      → let run = process_command out cmd payload shutdown p in
        (out.parse_envelope payload ≡ none → run ≡ (returned, p))
        × ((e : CommandEnvelope V)
            → out.parse_envelope payload ≡ some e
            → (ms : List Message) × Lifecycle run.0 ms
              × (run.1.sent ≡ p.sent ++ map (wire prints p.node cmd e.uuid) ms))
  unfolding process_command
  process_command-Lifecycle cmd payload shutdown p = (
    λ h. rw (h, process_command),
    λ e h. rw (h, process_command) (process_envelope-Follows cmd e shutdown p),
  )
