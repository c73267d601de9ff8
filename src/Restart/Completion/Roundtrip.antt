-- ===== src/Restart/Completion/Roundtrip.antt =====
-- A restart of the service that was recorded is completed on its next start.
use mathlib.Core.Path.{subst}
use uswarm_unitctl.Base.{
  ℕ, suc, ◌≡◌, refl, ap, ◌∙◌, inl, inr, true, false, some, List, [], ◌∷◌, ◌++◌, append_assoc, Text,
  codes, is_empty, trim, trim_line, Bool-cases,
}
use uswarm_unitctl.Messages.{CommandStatus, CommandResultMsg}
use uswarm_unitctl.Mqtt.Topics.{command_topic}
use uswarm_unitctl.Restart.Files.{Files, read}
use uswarm_unitctl.Restart.Handler.{pending_file_name}
use uswarm_unitctl.Restart.Completion.{
  Outlet, Publisher, Wake, wait_connected, unique_inflight_path, completed_status, completed_result,
  publish_one, publish_entry, publish_entries, retain_named, claim_main_pending, claim_content,
  collect_orphan_inflight, collect_entries, publish_found, run_completion,
}
use uswarm_unitctl.Restart.Completion.Delivery.{
  Some, IsDelivered, message, entries_sound, IsDelivered-append,
}

-- The printers print, the client takes what it is given, and the pending file can be renamed and read.
pub record Works (o : Outlet) : Type 0 where
  pub status_text : CommandStatus → Text
  pub status_prints : (s : CommandStatus) → o.status_json s ≡ some (status_text s)
  pub result_text : CommandResultMsg → Text
  pub result_prints : (r : CommandResultMsg) → o.result_json r ≡ some (result_text r)
  pub accepts : (n : ℕ) → o.accepts n ≡ true
  pub renames : o.can_rename ≡ true
  pub reads : o.can_read (unique_inflight_path o) ≡ true

abbrev Names : Text → List (Text × Text) → Type 0
Names uuid entries = Some (λ (path, u). u ≡ uuid) entries

module _ {o : Outlet} (w : Works o) where
  publish_one-Works :
      (topic text : Text) (p : Publisher)
      → publish_one o topic (some text) p ≡ (
        true,
        record p { delivered = p.delivered ++ message topic text ∷ []; attempts = suc p.attempts },
      )
  unfolding publish_one
  publish_one-Works topic text p = rw (w.accepts p.attempts) refl

  publish_entry-delivered :
      (path uuid : Text) (p : Publisher)
      → IsDelivered o (publish_entry o path uuid p).delivered uuid
  unfolding publish_entry
  publish_entry-delivered path uuid p =
      let status_topic = command_topic o.node (codes "restart") (codes "status") in
      let result_topic = command_topic o.node (codes "restart") (codes "result") in
      let status = w.status_text (completed_status o uuid p.readings) in
      let result = w.result_text (completed_result o uuid (suc p.readings)) in
      let p' : Publisher = record p { readings = suc p.readings } in
      let q : Publisher = record p' {
        delivered = p.delivered ++ message status_topic status ∷ [];
        attempts = suc p.attempts;
        readings = suc (suc p.readings);
      } in
      rw
        (
          w.status_prints (completed_status o uuid p.readings),
          publish_one-Works status_topic status p',
          w.result_prints (completed_result o uuid (suc p.readings)),
          publish_one-Works result_topic result q,
        )
        (record {
          before = p.delivered;
          after = [];
          status_at = p.readings;
          result_at = suc p.readings;
          status_text = status;
          result_text = result;
          status_printed = w.status_prints (completed_status o uuid p.readings);
          result_printed = w.result_prints (completed_result o uuid (suc p.readings));
          found =
              append_assoc p.delivered (message status_topic status ∷ [])
                (message result_topic result ∷ []);
        })

  entries-delivered :
      (entries : List (Text × Text)) (uuid : Text) (p : Publisher)
      → Names uuid entries
      → IsDelivered o (publish_entries o entries p).delivered uuid
  unfolding publish_entries
  entries-delivered [] uuid p h = absurd h
  entries-delivered ((path, u) ∷ entries) uuid p (inr h) =
      entries-delivered entries uuid (publish_entry o path u p) h
  entries-delivered ((path, u) ∷ entries) uuid p (inl same) =
      let (more, e, kept) = entries_sound o entries (publish_entry o path u p) [] in
      subst (IsDelivered o (publish_entries o entries (publish_entry o path u p)).delivered) same
        (IsDelivered-append o more (publish_entry-delivered path u p) e)

  -- An entry with a uuid is kept.
  retain-Names :
      (entries : List (Text × Text)) (path uuid : Text) (files : Files)
      → is_empty uuid ≡ false
      → Names uuid (retain_named o (entries ++ (path, uuid) ∷ []) files).0
  unfolding retain_named
  retain-Names [] path uuid files h = rw h (inl refl)
  retain-Names ((name, u) ∷ entries) path uuid files h = elim (Bool-cases (is_empty u)) [
    | inl blank ↦ rw blank (retain-Names entries path uuid files h)
    | inr given ↦ rw given (inr (retain-Names entries path uuid files h))
  ]

  claim-Works :
      (uuid : Text) (files : Files)
      → trim uuid ≡ uuid
      → read files pending_file_name ≡ some (uuid ++ 10 ∷ [])
      → (claim_main_pending o files).0 ≡ (unique_inflight_path o, uuid) ∷ []
  unfolding claim_main_pending claim_content
  claim-Works uuid files trimmed h =
      rw (h, claim_content, w.renames, w.reads)
        (ap (λ u. (unique_inflight_path o, u) ∷ []) (trim_line uuid ∙ trimmed))

  collect-Names :
      (uuid : Text) (files : Files)
      → trim uuid ≡ uuid
      → is_empty uuid ≡ false
      → read files pending_file_name ≡ some (uuid ++ 10 ∷ [])
      → Names uuid (collect_entries o files).0
  unfolding collect_entries
  collect-Names uuid files trimmed given h =
      rw (claim-Works uuid files trimmed h)
        (retain-Names (collect_orphan_inflight o files) (unique_inflight_path o) uuid _ given)

  found-delivered :
      (uuid : Text) (wakes : List Wake) (entries : List (Text × Text)) (p : Publisher)
      → Names uuid entries
      → wait_connected wakes ≡ true
      → IsDelivered o (publish_found o wakes entries p).delivered uuid
  unfolding publish_found
  found-delivered uuid wakes [] p h up = absurd h
  found-delivered uuid wakes (entry ∷ more) p h up =
      rw up (entries-delivered (entry ∷ more) uuid p h)

  -- When the pending file holds a uuid as the restart handler writes it, a uuid that is not empty
  -- and has no space around it, and the file can be renamed and read, the next start, once it is
  -- connected and if the client takes what it is given and the messages can be printed, publishes
  -- the completed status and the positive result for that uuid.
  pub run_completion-delivered :
      (uuid : Text) (wakes : List Wake) (p : Publisher)
      → trim uuid ≡ uuid
      → is_empty uuid ≡ false
      → read p.files pending_file_name ≡ some (uuid ++ 10 ∷ [])
      → wait_connected wakes ≡ true
      → IsDelivered o (run_completion o wakes p).delivered uuid
  unfolding run_completion
  run_completion-delivered uuid wakes p trimmed given h up =
      found-delivered uuid wakes (collect_entries o p.files).0 _
        (collect-Names uuid p.files trimmed given h) up
