-- ===== src/Mqtt/Topics/Tests.antt =====
-- Topics of the node `prod/nodes/n1`.
use uswarm_unitctl.Base.{◌≡◌, refl, some, [], ◌∷◌, codes, split, arith}
use uswarm_unitctl.Mqtt.Topics.{
  Node, validate_topic_segment, extract_command_name, command_topic, telemetry_topic, status_topic,
  find_forbidden,
}
use uswarm_unitctl.Mqtt.Topics.Levels.{IsNode, topic_levels, command_topic-owner}
use uswarm_unitctl.Mqtt.Topics.Commands.{extract_command_name_iff}

abbrev sample_node : Node
sample_node = record { env_prefix = codes "prod"; node_id = codes "n1" }

sample_node-IsNode : IsNode sample_node
unfolding validate_topic_segment find_forbidden
sample_node-IsNode = record { prefix = refl; id = refl }

topic_levels_example :
    (split b'/' (status_topic sample_node)
      ≡ codes "prod" ∷ codes "nodes" ∷ codes "n1" ∷ codes "status" ∷ [])
    × (split b'/' (telemetry_topic sample_node (codes "restart"))
        ≡ codes "prod" ∷ codes "nodes" ∷ codes "n1" ∷ codes "telemetry" ∷ codes "restart" ∷ [])
    × (split b'/' (command_topic sample_node (codes "restart") (codes "in"))
        ≡ codes "prod"
          ∷ codes "nodes"
          ∷ codes "n1"
          ∷ codes "cmnd"
          ∷ codes "restart"
          ∷ codes "in"
          ∷ [])
topic_levels_example = topic_levels sample_node-IsNode (codes "restart") (codes "in") refl refl refl

extract_command_name_iff_example :
    extract_command_name (codes "prod/nodes/n1/cmnd/restart/in") (codes "prod/nodes/n1/cmnd/")
    ≡ some (codes "restart")
unfolding command_topic
extract_command_name_iff_example =
    (extract_command_name_iff sample_node (codes "prod/nodes/n1/cmnd/restart/in")
        (codes "restart")).1
      (
        refl,
        record { given = λ h. ground (arith, h); one_level = refl; no_plus = refl; no_hash = refl },
      )

command_topic-owner_example : sample_node ≡ sample_node
command_topic-owner_example =
    command_topic-owner sample_node-IsNode sample_node-IsNode (codes "restart") (codes "in")
      (codes "restart") (codes "in") refl
