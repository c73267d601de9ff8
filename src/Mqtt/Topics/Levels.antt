-- ===== src/Mqtt/Topics/Levels.antt =====
-- The levels of a node's topics: its prefix and its id fill one level each.

use uswarm_unitctl.Base.{
  ◌≡◌, refl, sym, ap, ◌∙◌, true, false, ◌&&◌, inl, inr, none, List, [], ◌∷◌, ◌++◌, Text, codes,
  is_empty, split, split-append, split_whole, is_free_of, ok, arith, Bool-cases, Option-cases,
  &&_false,
}
use uswarm_unitctl.Mqtt.Topics.{
  Node, node_path, command_topic, telemetry_topic, status_topic, find_forbidden,
  validate_topic_segment,
}

-- Both segments of a node passed `validate_topic_segment` when its transport was made.
pub record IsNode (t : Node) : Type 0 where
  pub prefix : validate_topic_segment t.env_prefix (codes "env_prefix") ≡ ok tt
  pub id : validate_topic_segment t.node_id (codes "node_id (certificate CN)") ≡ ok tt

no_forbidden : (s : Text) → find_forbidden s ≡ none → is_free_of b'/' s ≡ true
unfolding find_forbidden
no_forbidden [] h = refl
no_forbidden (c ∷ s) h = ground (arith, no_forbidden s)

validated : (s name : Text) → validate_topic_segment s name ≡ ok tt → is_free_of b'/' s ≡ true
unfolding validate_topic_segment
validated s name h = elim (Option-cases (find_forbidden s)) [
  | inl e ↦ no_forbidden s e
  | inr (c, e) ↦ ground (arith, e)
]

-- The first three levels are the node's, whatever follows.
node_path-levels :
    {t : Node}
    → IsNode t
    → (rest : Text)
    → split b'/' (node_path t rest) ≡ t.env_prefix ∷ codes "nodes" ∷ t.node_id ∷ split b'/' rest
unfolding split
node_path-levels {t} v rest =
    split-append b'/' t.env_prefix (codes "nodes/" ++ (t.node_id ++ (b'/' ∷ rest)))
      (validated t.env_prefix _ v.prefix)
    ∙ ap (λ l. t.env_prefix ∷ l)
        (split-append b'/' (codes "nodes") (t.node_id ++ (b'/' ∷ rest)) refl
          ∙ ap (λ l. codes "nodes" ∷ l)
              (split-append b'/' t.node_id rest (validated t.node_id _ v.id)))

-- The topics that a node publishes to and listens on have one level for each part, in the order
-- of the documentation, when the names put into them have no separator.
pub topic_levels :
    {t : Node}
    → IsNode t
    → (name suffix : Text) → is_free_of b'/' name ≡ true
    → is_free_of b'/' suffix ≡ true
    → is_empty suffix ≡ false
    → (split b'/' (status_topic t) ≡ t.env_prefix ∷ codes "nodes" ∷ t.node_id ∷ codes "status" ∷ [])
      × (split b'/' (telemetry_topic t name)
          ≡ t.env_prefix ∷ codes "nodes" ∷ t.node_id ∷ codes "telemetry" ∷ name ∷ [])
      × (split b'/' (command_topic t name suffix)
          ≡ t.env_prefix ∷ codes "nodes" ∷ t.node_id ∷ codes "cmnd" ∷ name ∷ suffix ∷ [])
unfolding status_topic telemetry_topic command_topic
topic_levels {t} v name suffix hn hs given = (
  node_path-levels v (codes "status") ∙ ap own (split_whole b'/' (codes "status") refl),
  node_path-levels v (codes "telemetry/" ++ name)
      ∙ ap own (
          split-append b'/' (codes "telemetry") name refl
          ∙ ap (λ l. codes "telemetry" ∷ l) (split_whole b'/' name hn)),
  rw (given, &&_false (is_empty name))
      (node_path-levels v (codes "cmnd/" ++ (name ++ (b'/' ∷ suffix)))
        ∙ ap own (
            split-append b'/' (codes "cmnd") (name ++ (b'/' ∷ suffix)) refl
            ∙ ap (λ l. codes "cmnd" ∷ l)
                (split-append b'/' name suffix hn
                  ∙ ap (λ l. name ∷ l) (split_whole b'/' suffix hs)))),
)
  where
    own : List Text → List Text
    own l = t.env_prefix ∷ codes "nodes" ∷ t.node_id ∷ l

command_topic-path :
    (t : Node) (cmd suffix : Text) → (rest : Text) × (command_topic t cmd suffix ≡ node_path t rest)
unfolding command_topic
command_topic-path t cmd suffix = elim (Bool-cases (is_empty cmd && is_empty suffix)) [
  | inl e ↦ (codes "cmnd/", rw e)
  | inr e ↦ elim (Bool-cases (is_empty suffix)) [
    | inl f ↦ (codes "cmnd/" ++ cmd, rw (e, f))
    | inr f ↦ (codes "cmnd/" ++ (cmd ++ (b'/' ∷ suffix)), rw (e, f))
  ]
]

-- Two nodes whose segments were validated share no command topic.
pub command_topic-owner :
    {t u : Node}
    → IsNode t
    → IsNode u
    → (cmd suffix cmd' suffix' : Text) → command_topic t cmd suffix ≡ command_topic u cmd' suffix'
    → t ≡ u
command_topic-owner {t} {u} v w cmd suffix cmd' suffix' h =
    let (r, e) = command_topic-path t cmd suffix in
    let (r', e') = command_topic-path u cmd' suffix' in
    let same =
      sym (node_path-levels v r) ∙ ap (split b'/') (sym e ∙ h ∙ e') ∙ node_path-levels w r' in
    ground (arith, same)
