-- ===== src/Restart/Completion/Tests.antt =====
-- Two recorded restarts, of which the client takes only the first one's completion.
use uswarm_unitctl.Base.{
  ◌≡◌, ◌⊎◌, refl, true, some, List, [], ◌∷◌, Text, codes, ltb, strip_prefix, trim, text_eq,
}
use uswarm_unitctl.Restart.Files.{Files, read, delete, write}
use uswarm_unitctl.Restart.Completion.{
  Outlet, Publisher, publish_entries, run_completion, other_event, connected, wait_connected,
}
use uswarm_unitctl.Restart.Completion.Roundtrip.{Works, run_completion-delivered}
use uswarm_unitctl.Restart.Completion.Delivery.{Some, IsDelivered, publish_entries_keep}

abbrev two_calls : Outlet
two_calls = record {
  node = record { env_prefix = codes "prod"; node_id = codes "n1" };
  status_json = λ s. some s.uuid;
  result_json = λ r. some r.uuid;
  clock = λ n. n;
  accepts = λ n. ltb n 2;
  unique_suffix = codes "7.1";
  can_list = true;
  can_rename = true;
  can_read = λ name. true;
  can_remove = λ name. true;
}

abbrev found_files : Files
found_files =
    (codes "pending-restart-uuid", codes "u2\n")
    ∷ (codes "pending-restart-uuid.in-flight.5.5", codes "u1\n")
    ∷ []

abbrev publisher : Publisher
publisher = record { files = found_files; delivered = []; attempts = 0; readings = 0 }

-- The second file waits for the next start, under its new name.
second_waits :
    (run_completion two_calls (other_event ∷ connected ∷ []) publisher).files
    ≡ (codes "pending-restart-uuid.in-flight.7.1", codes "u2\n") ∷ []
unfolding run_completion strip_prefix trim read text_eq delete write
second_waits = refl

abbrev entries : List (Text × Text)
entries = (codes "pending-restart-uuid.in-flight.5.5", codes "u1") ∷ []

publish_entries_keep_example :
    let q = publish_entries two_calls entries publisher in
    (read q.files (codes "pending-restart-uuid.in-flight.5.5") ≡ some (codes "u1\n"))
    ⊎ Some
        (λ (path, uuid).
          (path ≡ codes "pending-restart-uuid.in-flight.5.5")
          × IsDelivered two_calls q.delivered uuid)
        entries
unfolding read text_eq
publish_entries_keep_example =
    publish_entries_keep two_calls entries publisher (codes "pending-restart-uuid.in-flight.5.5")

abbrev all_calls : Outlet
all_calls = record two_calls { accepts = λ n. true }

all_calls-Works : Works all_calls
all_calls-Works = record {
  status_text = λ s. s.uuid;
  status_prints = λ s. refl;
  result_text = λ r. r.uuid;
  result_prints = λ r. refl;
  accepts = λ n. refl;
  renames = refl;
  reads = refl;
}

run_completion-delivered_example :
    IsDelivered all_calls
      (run_completion all_calls (other_event ∷ connected ∷ []) publisher).delivered
      (codes "u2")
unfolding trim read text_eq wait_connected
run_completion-delivered_example =
    run_completion-delivered all_calls-Works (codes "u2") (other_event ∷ connected ∷ []) publisher
      refl refl refl refl
