-- ===== src/Mqtt/Topics/Commands.antt =====
-- The topic of a command and the name that is read from it.
use mathlib.Core.Path.{subst, ap₂}
use mathlib.Core.Option
use mathlib.Core.List.{reverse-append, reverse-reverse}
use uswarm_unitctl.Base.{
  ◌≡◌, ◌≢◌, ◌↔◌, refl, sym, ap, ◌∙◌, true, false, inl, inr, none, some, [], ◌∷◌, ◌++◌, reverse,
  append_assoc, Text, codes, contains_char, starts_with, ends_with, strip_prefix, strip_suffix,
  strip_prefix-append, strip_prefix_sound, strip_suffix-append, drop-append, arith, Bool-cases,
  Option-cases,
}
use uswarm_unitctl.Mqtt.Topics.{Node, node_path, command_topic, extract_command_name, checked_name}

-- A command's name: one level of a topic, with no wildcard.
pub record IsCommandName (name : Text) : Type 0 where
  pub given : name ≢ []
  pub one_level : contains_char name b'/' ≡ false
  pub no_plus : contains_char name b'+' ≡ false
  pub no_hash : contains_char name b'#' ≡ false

checked_name_iff : (n name : Text) → (checked_name n ≡ some name) ↔ ((n ≡ name) × IsCommandName n)
unfolding checked_name
checked_name_iff [] name = (λ h. cc, λ h. absurd (h.1.given refl))
checked_name_iff (c ∷ n) name = (λ h. ground arith, λ h. ground arith)

starts_with-append : (p s : Text) → starts_with (p ++ s) p ≡ true
starts_with-append p s = rw (strip_prefix-append p s)

ends_with-append : (s p : Text) → ends_with (s ++ p) p ≡ true
ends_with-append s p = rw (reverse-append s p) (starts_with-append (reverse p) (reverse s))

starts_with_sound : (s p : Text) → starts_with s p ≡ true → (r : Text) × (s ≡ p ++ r)
starts_with_sound s p h = elim (Option-cases (strip_prefix s p)) [
  | inl e ↦ absurd (ground (arith, e))
  | inr (r, e) ↦ (r, strip_prefix_sound s p r e)
]

some_injective {ℓ} : {A : Type ℓ} {a b : A} → some a ≡ some b → a ≡ b
some_injective h = cc

none_ne_some {ℓ} : {A : Type ℓ} {a : A} → none ≡ some a → ⊥
none_ne_some h = cc

strip_suffix_sound : (s p r : Text) → strip_suffix s p ≡ some r → s ≡ r ++ p
strip_suffix_sound s p r h = elim (Option-cases (strip_prefix (reverse s) (reverse p))) [
  | inl e ↦ absurd (none_ne_some (ap (Option.map reverse) (sym e) ∙ h))
  | inr (q, e) ↦
      let found : reverse q ≡ r = some_injective (ap (Option.map reverse) (sym e) ∙ h) in
      let whole : reverse s ≡ reverse p ++ q = strip_prefix_sound (reverse s) (reverse p) q e in
      sym (reverse-reverse s)
      ∙ ap reverse whole
      ∙ reverse-append (reverse p) q
      ∙ ap₂ (λ a b. a ++ b) found (reverse-reverse p)
]

extract_append :
    (prefix name : Text)
    → extract_command_name (prefix ++ (name ++ codes "/in")) prefix ≡ checked_name name
unfolding extract_command_name
extract_append prefix name = rw (
  starts_with-append prefix (name ++ codes "/in"),
  sym (append_assoc prefix name (codes "/in")),
  ends_with-append (prefix ++ name) (codes "/in"),
  append_assoc prefix name (codes "/in"),
  drop-append prefix (name ++ codes "/in"),
  strip_suffix-append name (codes "/in"),
)

-- The part of a command's topic before the command's name.
command_prefix : (t : Node) → command_topic t [] [] ≡ node_path t (codes "cmnd/")
unfolding command_topic
command_prefix t = refl

command_topic_split :
    (t : Node) (name : Text)
    → command_topic t name (codes "in") ≡ command_topic t [] [] ++ (name ++ codes "/in")
unfolding command_topic
command_topic_split t [] = simp append_assoc
command_topic_split t (c ∷ name) = simp append_assoc

-- Nor is one without the prefix.
extract_unprefixed :
    (topic prefix : Text)
    → starts_with topic prefix ≡ false
    → extract_command_name topic prefix ≡ none
unfolding extract_command_name
extract_unprefixed topic prefix e = rw e

-- Without the suffix no name is read.
extract_unsuffixed :
    (prefix r : Text)
    → strip_suffix r (codes "/in") ≡ none
    → extract_command_name (prefix ++ r) prefix ≡ none
unfolding extract_command_name
extract_unsuffixed prefix r e =
    rw (starts_with-append prefix r, drop-append prefix r, e)
      (elim (Bool-cases (ends_with (prefix ++ r) (codes "/in"))) [ inl h ↦ rw h | inr h ↦ rw h ])

-- A name that is read was found between the prefix and the suffix.
extract_sound :
    (topic prefix name : Text)
    → extract_command_name topic prefix ≡ some name
    → (topic ≡ prefix ++ (name ++ codes "/in")) × IsCommandName name
extract_sound topic prefix name h = elim (Bool-cases (starts_with topic prefix)) [
  | inr no_prefix ↦ absurd (none_ne_some (sym (extract_unprefixed topic prefix no_prefix) ∙ h))
  | inl has_prefix ↦
      let (r, whole) = starts_with_sound topic prefix has_prefix in
      elim (Option-cases (strip_suffix r (codes "/in"))) [
        | inl e ↦ absurd (none_ne_some (sym (extract_unsuffixed prefix r e) ∙ (rw whole at h)))
        | inr (n, e) ↦
            let r_split = strip_suffix_sound r (codes "/in") n e in
            let topic_split : topic ≡ prefix ++ (n ++ codes "/in") =
              whole ∙ ap (λ s. prefix ++ s) r_split in
            let read : checked_name n ≡ some name =
              sym (extract_append prefix n)
              ∙ ap (λ s. extract_command_name s prefix) (sym topic_split)
              ∙ h in
            let (same, valid) = (checked_name_iff n name).0 read in
            (
              topic_split ∙ ap (λ m. prefix ++ (m ++ codes "/in")) same,
              subst IsCommandName same valid,
            )
      ]
]

-- Of a message's topic the name `name` is read exactly if the topic is the one on which the node
-- takes the command `name`, and `name` is not empty and has no level separator and no wildcard.
pub extract_command_name_iff :
    (t : Node) (topic name : Text)
    → (extract_command_name topic (command_topic t [] []) ≡ some name)
      ↔ ((topic ≡ command_topic t name (codes "in")) × IsCommandName name)
extract_command_name_iff t topic name = (
  λ h.
      let (whole, valid) = extract_sound topic (command_topic t [] []) name h in
      (whole ∙ sym (command_topic_split t name), valid),
  λ (whole, valid).
      ap (λ s. extract_command_name s (command_topic t [] [])) (whole ∙ command_topic_split t name)
      ∙ extract_append (command_topic t [] []) name
      ∙ (checked_name_iff name name).1 (refl, valid),
)
