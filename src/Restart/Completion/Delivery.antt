-- ===== src/Restart/Completion/Delivery.antt =====
-- No recorded restart is forgotten before its completion is delivered.

use uswarm_unitctl.Base.{
  ℕ, suc, ◌≡◌, ◌⊎◌, refl, sym, ap, ◌∙◌, inl, inr, true, false, Option, none, some, List, [], ◌∷◌,
  ◌++◌, append_assoc, append-nil, Text, codes, text_eq, text_eq_iff, Bool-cases,
}
use uswarm_unitctl.Mqtt.Topics.{command_topic}
use uswarm_unitctl.Mqtt.Processor.{Publish, at_least_once}
use uswarm_unitctl.Restart.Files.{read, read-delete}
use uswarm_unitctl.Restart.Completion.{
  Outlet, Publisher, completed_status, completed_result, publish_one, publish_entry,
  publish_entries, remove_path_logging,
}

-- Something of the list has the property.
abbrev pub Some : {A : Type 0} → (A → Type 0) → List A → Type 0
Some P [] = ⊥
Some P (x ∷ xs) = P x ⊎ Some P xs

abbrev pub message : Text → Text → Publish
message topic text = record { topic = topic; payload = text; qos = at_least_once; retain = false }

-- The client took a completed status and, after it, a positive result for the uuid.
pub record IsDelivered (o : Outlet) (delivered : List Publish) (uuid : Text) : Type 0 where
  pub before : List Publish
  pub after : List Publish
  pub status_at : ℕ
  pub result_at : ℕ
  pub status_text : Text
  pub result_text : Text
  pub status_printed : o.status_json (completed_status o uuid status_at) ≡ some status_text
  pub result_printed : o.result_json (completed_result o uuid result_at) ≡ some result_text
  pub found :
      delivered
      ≡ before
        ++ message (command_topic o.node (codes "restart") (codes "status")) status_text
          ∷ message (command_topic o.node (codes "restart") (codes "result")) result_text
          ∷ after

module _ (o : Outlet) where
  -- Either nothing was taken, or the message was printed and stands at the end.
  publish_one_sound :
      (topic : Text) (json : Option Text) (p : Publisher)
      → let out = publish_one o topic json p in
        (out.1.files ≡ p.files)
        × (out.1.readings ≡ p.readings)
        × (((out.0 ≡ false) × (out.1.delivered ≡ p.delivered))
            ⊎ ((out.0 ≡ true)
                × (text : Text) × (json ≡ some text)
                × (out.1.delivered ≡ p.delivered ++ message topic text ∷ [])))
  unfolding publish_one
  publish_one_sound topic none p = (refl, refl, inl (refl, refl))
  publish_one_sound topic (some json) p = elim (Bool-cases (o.accepts p.attempts)) [
    | inl taken ↦ rw taken (refl, refl, inr (refl, json, refl, refl))
    | inr lost ↦ rw lost (refl, refl, inl (refl, refl))
  ]

  removed :
      {uuid : Text} {before : Option Text} (path name : Text) (r : Publisher)
      → IsDelivered o r.delivered uuid
      → read r.files name ≡ before
      → (read (remove_path_logging o path r.files) name ≡ before)
        ⊎ ((path ≡ name) × IsDelivered o r.delivered uuid)
  unfolding remove_path_logging
  removed path name r done kept = elim (Bool-cases (o.can_remove path)) [
    | inr stays ↦ rw stays (inl kept)
    | inl goes ↦ elim (Bool-cases (text_eq path name)) [
      | inl same ↦ inr ((text_eq_iff path name).0 same, done)
      | inr other ↦ rw goes (inl (read-delete r.files path name other ∙ kept))
    ]
  ]

  -- A file that an entry's publishing removes has its completion delivered.
  publish_entry_sound :
      (path uuid : Text) (p : Publisher) (name : Text)
      → let q = publish_entry o path uuid p in
        (more : List Publish) × (q.delivered ≡ p.delivered ++ more)
        × ((read q.files name ≡ read p.files name)
            ⊎ ((path ≡ name) × IsDelivered o q.delivered uuid))
  unfolding publish_entry remove_path_logging
  publish_entry_sound path uuid p name =
      let status_topic = command_topic o.node (codes "restart") (codes "status") in
      let result_topic = command_topic o.node (codes "restart") (codes "result") in
      let p' : Publisher = record p { readings = suc p.readings } in
      let status_json = o.status_json (completed_status o uuid p.readings) in
      let q = (publish_one o status_topic status_json p').1 in
      let q' : Publisher = record q { readings = suc q.readings } in
      let result_json = o.result_json (completed_result o uuid q.readings) in
      let r = (publish_one o result_topic result_json q').1 in
      let (fa, ra, sa) = publish_one_sound status_topic status_json p' in
      let (fb, rb, sb) = publish_one_sound result_topic result_json q' in
      let kept : read r.files name ≡ read p.files name = ap (λ f. read f name) (fb ∙ fa) in
      elim sa [
        | inl (no1, d) ↦ elim sb [
          | inl (no2, d') ↦ rw no1 ([], d' ∙ d ∙ sym (append-nil p.delivered), inl kept)
          | inr (yes2, text, printed, d') ↦ rw no1 (
            message result_topic text ∷ [],
            d' ∙ ap (λ ms. ms ++ message result_topic text ∷ []) d,
            inl kept,
          )
        ]
        | inr (yes1, text, printed, d) ↦ elim sb [
          | inl (no2, d') ↦ rw (yes1, no2) (message status_topic text ∷ [], d' ∙ d, inl kept)
          | inr (yes2, text', printed', d') ↦
              let whole =
                d'
                ∙ ap (λ ms. ms ++ message result_topic text' ∷ []) d
                ∙ append_assoc p.delivered (message status_topic text ∷ [])
                    (message result_topic text' ∷ []) in
              rw (yes1, yes2)
                (
                  message status_topic text ∷ message result_topic text' ∷ [],
                  whole,
                  removed path name r
                      (record {
                        before = p.delivered;
                        after = [];
                        status_at = p.readings;
                        result_at = q.readings;
                        status_text = text;
                        result_text = text';
                        status_printed = printed;
                        result_printed = printed';
                        found = whole;
                      })
                      kept,
                )
        ]
      ]

  -- What was delivered stays so.
  pub IsDelivered-append :
      {delivered later : List Publish} {uuid : Text} (more : List Publish)
      → IsDelivered o delivered uuid
      → later ≡ delivered ++ more
      → IsDelivered o later uuid
  IsDelivered-append more d e = record {
    before = d.before;
    after = d.after ++ more;
    status_at = d.status_at;
    result_at = d.result_at;
    status_text = d.status_text;
    result_text = d.result_text;
    status_printed = d.status_printed;
    result_printed = d.result_printed;
    found = e ∙ ap (λ ms. ms ++ more) d.found ∙ append_assoc d.before _ more;
  }

  pub entries_sound :
      (entries : List (Text × Text)) (p : Publisher) (name : Text)
      → let q = publish_entries o entries p in
        (more : List Publish) × (q.delivered ≡ p.delivered ++ more)
        × ((read q.files name ≡ read p.files name)
            ⊎ Some (λ (path, uuid). (path ≡ name) × IsDelivered o q.delivered uuid) entries)
  unfolding publish_entries
  entries_sound [] p name = ([], sym (append-nil p.delivered), inl refl)
  entries_sound ((path, uuid) ∷ entries) p name =
      let (one, e, first) = publish_entry_sound path uuid p name in
      let (more, f, rest) = entries_sound entries (publish_entry o path uuid p) name in
      (
        one ++ more,
        f ∙ ap (λ ms. ms ++ more) e ∙ append_assoc p.delivered one more,
        elim first [
          | inr (same, done) ↦ inr (inl (same, IsDelivered-append more done f))
          | inl kept ↦ elim rest [ inl stays ↦ inl (stays ∙ kept) | inr found ↦ inr (inr found) ]
        ],
      )

  -- The publishing of entries takes a file away only if the entry is one of them and the client took
  -- its completed status and its positive result: whatever calls of the client fail, the other files
  -- of restarts stay for the next start.
  pub publish_entries_keep :
      (entries : List (Text × Text)) (p : Publisher) (name : Text)
      → let q = publish_entries o entries p in
        (read q.files name ≡ read p.files name)
        ⊎ Some (λ (path, uuid). (path ≡ name) × IsDelivered o q.delivered uuid) entries
  publish_entries_keep entries p name = let (more, e, kept) = entries_sound entries p name in kept
