-- ===== src/Restart/Completion.antt =====
-- `RestartCompletionPublisher` of services/mqtt/handlers/restart.rs: after a start of the service it
-- publishes the completion of the restarts whose files it finds. A file that is listed is there when
-- it is read, and the removal of an empty file, a task of its own in the source, comes first.
pub mod Delivery
pub mod Roundtrip
mod Tests
use uswarm_unitctl.Base.{
  ℕ, suc, ◌+◌, Bool, true, false, ◌&&◌, Option, none, some, List, [], ◌∷◌, ◌++◌, Text, codes, trim,
  is_empty, starts_with, if◌then◌else◌,
}
use uswarm_unitctl.Messages.{
  CommandStatus, CommandResultMsg, CommandState, completed, unitctl, restart_result,
}
use uswarm_unitctl.Mqtt.Topics.{Node, command_topic}
use uswarm_unitctl.Mqtt.Processor.{Publish, at_least_once}
use uswarm_unitctl.Restart.Files.{Files, read, write, delete}
use uswarm_unitctl.Restart.Handler.{pending_file_name}

abbrev pub inflight_prefix : Text
inflight_prefix = codes "pending-restart-uuid.in-flight."

-- What the publisher does not implement: the printers of serde_json, the clock, whether the client
-- takes the n-th call, the process and time that stand in a name of its own, and which operations on the
-- directory succeed.
pub record Outlet : Type 0 where
  pub node : Node
  pub status_json : CommandStatus → Option Text
  pub result_json : CommandResultMsg → Option Text
  pub clock : ℕ → ℕ
  pub accepts : ℕ → Bool
  pub unique_suffix : Text
  pub can_list : Bool
  pub can_rename : Bool
  pub can_read : Text → Bool
  pub can_remove : Text → Bool

-- `unique_inflight_path`
abbrev pub unique_inflight_path : Outlet → Text
unique_inflight_path o = inflight_prefix ++ o.unique_suffix

-- `delivered` are the calls that the client took, `attempts` all of them.
pub record Publisher : Type 0 where
  pub files : Files
  pub delivered : List Publish
  pub attempts : ℕ
  pub readings : ℕ

-- What the `select!` of the waiting loop can yield.
pub data Wake : Type 0 where
  cancelled connected other_event lagged closed : Wake

-- The loop before the publishing: true if it is left by `break`.
unfoldable pub wait_connected : List Wake → Bool
wait_connected [] = false
wait_connected (cancelled ∷ wakes) = false
wait_connected (connected ∷ wakes) = true
wait_connected (other_event ∷ wakes) = wait_connected wakes
wait_connected (lagged ∷ wakes) = wait_connected wakes
wait_connected (closed ∷ wakes) = false

module _ (o : Outlet) where
  -- The loop over the directory; `none` is its error.
  unfoldable pub orphans : Files → Option (List (Text × Text))
  orphans [] = some []
  orphans ((name, content) ∷ files) =
      let rest = orphans files in
      if starts_with name inflight_prefix
      then (if o.can_read name
          then elim rest [ none ↦ none | some found ↦ some ((name, trim content) ∷ found) ]
          else none)
      else rest

  -- `collect_orphan_inflight(..).unwrap_or_else(..)`
  unfoldable pub collect_orphan_inflight : Files → List (Text × Text)
  unfolding orphans
  collect_orphan_inflight files =
      if o.can_list then elim (orphans files) [ none ↦ [] | some found ↦ found ] else []

  unfoldable pub claim_content : Option Text → Files → List (Text × Text) × Files
  claim_content none files = ([], files)
  claim_content (some content) files =
      if o.can_rename
      then (
        if o.can_read (unique_inflight_path o)
            then ((unique_inflight_path o), trim content) ∷ []
            else [],
        write (delete files pending_file_name) (unique_inflight_path o) content,
      )
      else ([], files)

  -- `claim_main_pending`, an error as no entry.
  unfoldable pub claim_main_pending : Files → List (Text × Text) × Files
  unfolding claim_content
  claim_main_pending files = claim_content (read files pending_file_name) files

  -- `remove_path_logging`
  unfoldable pub remove_path_logging : Text → Files → Files
  remove_path_logging path files = if o.can_remove path then delete files path else files

  -- `entries.retain(..)`
  unfoldable pub retain_named : List (Text × Text) → Files → List (Text × Text) × Files
  unfolding remove_path_logging
  retain_named [] files = ([], files)
  retain_named ((path, uuid) ∷ entries) files =
      let (kept, rest) = retain_named entries files in
      if is_empty uuid then (kept, remove_path_logging path rest) else ((path, uuid) ∷ kept, rest)

  -- One serialization and, where it succeeds, one call of the client.
  unfoldable pub publish_one : Text → Option Text → Publisher → Bool × Publisher
  publish_one topic none p = (false, p)
  publish_one topic (some json) p =
      if o.accepts p.attempts
      then (
        true,
        record p {
          delivered =
              p.delivered
              ++ record { topic = topic; payload = json; qos = at_least_once; retain = false } ∷ [];
          attempts = suc p.attempts;
        },
      )
      else (false, record p { attempts = suc p.attempts })

  abbrev pub completed_status : Text → ℕ → CommandStatus
  completed_status uuid n = record { uuid = uuid; state = completed; ts = o.clock n }

  abbrev pub completed_result : Text → ℕ → CommandResultMsg
  completed_result uuid n = record {
    uuid = uuid;
    succeeded = true;
    ts = o.clock n;
    error = none;
    content = some (restart_result unitctl);
  }

  -- The body of the loop over the entries.
  unfoldable pub publish_entry : Text → Text → Publisher → Publisher
  unfolding publish_one remove_path_logging
  publish_entry path uuid p =
      let (status_ok, q) =
        publish_one (command_topic o.node (codes "restart") (codes "status"))
          (o.status_json (completed_status uuid p.readings))
          (record p { readings = suc p.readings }) in
      let (result_ok, r) =
        publish_one (command_topic o.node (codes "restart") (codes "result"))
          (o.result_json (completed_result uuid q.readings))
          (record q { readings = suc q.readings }) in
      if status_ok && result_ok then record r { files = remove_path_logging path r.files } else r

  unfoldable pub publish_entries : List (Text × Text) → Publisher → Publisher
  unfolding publish_entry
  publish_entries [] p = p
  publish_entries ((path, uuid) ∷ entries) p = publish_entries entries (publish_entry path uuid p)

  -- The entries that are found, and the directory when the waiting begins.
  unfoldable pub collect_entries : Files → List (Text × Text) × Files
  unfolding collect_orphan_inflight claim_main_pending retain_named
  collect_entries files =
      let (claimed, files') = claim_main_pending files in
      retain_named (collect_orphan_inflight files ++ claimed) files'

  -- From the test for entries on.
  unfoldable pub publish_found : List Wake → List (Text × Text) → Publisher → Publisher
  unfolding wait_connected publish_entries
  publish_found wakes [] p = p
  publish_found wakes (entry ∷ more) p =
      if wait_connected wakes then publish_entries (entry ∷ more) p else p

  -- `RestartCompletionPublisher::run`
  unfoldable pub run_completion : List Wake → Publisher → Publisher
  unfolding collect_entries publish_found
  run_completion wakes p =
      let (entries, files) = collect_entries p.files in
      publish_found wakes entries (record p { files = files })
