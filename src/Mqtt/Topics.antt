-- ===== src/Mqtt/Topics.antt =====
-- The topics of services/mqtt/transport.rs, and the reading of a command's topic in
-- services/mqtt/commands.rs. A topic is compared and cut by characters; the source cuts at a byte
-- offset that `starts_with` has shown to be the end of the prefix.
pub mod Levels
pub mod Commands
mod Tests
use uswarm_unitctl.Base.{
  ℕ, Bool, true, false, not, ◌&&◌, ◌||◌, Option, none, some, List, [], ◌∷◌, ◌++◌, Text, codes,
  length, drop, any, is_empty, contains_char, starts_with, ends_with, strip_suffix, ◌==◌,
  if◌then◌else◌, Result, ok, err,
}

-- `TransportError::InvalidConfig`, with the values that its message names.
pub data TransportError : Type 0 where
  empty_segment : Text → TransportError
  forbidden_char : Text → ℕ → TransportError

-- `MQTT_TOPIC_FORBIDDEN_CHARS`
abbrev pub is_forbidden : ℕ → Bool
is_forbidden c = (c == b'+') || (c == b'#') || (c == b'/') || (c == 0)

-- `value.chars().find(..)`
unfoldable pub find_forbidden : Text → Option ℕ
find_forbidden [] = none
find_forbidden (c ∷ s) = if is_forbidden c then some c else find_forbidden s

abbrev found_forbidden : Text → Option ℕ → Result (Unit {0}) TransportError
found_forbidden name none = ok tt
found_forbidden name (some c) = err (forbidden_char name c)

unfoldable pub validate_topic_segment : Text → Text → Result (Unit {0}) TransportError
validate_topic_segment value name =
    if is_empty value then err (empty_segment name) else found_forbidden name (find_forbidden value)

-- The two parts of `MqttTransport` that its topics are built from.
pub record Node : Type 0 where
  pub env_prefix : Text
  pub node_id : Text

-- `"{}/nodes/{}/"`, the start of every topic.
abbrev pub node_path : Node → Text → Text
node_path t rest = t.env_prefix ++ (codes "/nodes/" ++ (t.node_id ++ (b'/' ∷ rest)))

-- `MqttTransport::telemetry_topic`
unfoldable pub telemetry_topic : Node → Text → Text
telemetry_topic t name = node_path t (codes "telemetry/" ++ name)

-- `MqttTransport::command_topic`
unfoldable pub command_topic : Node → Text → Text → Text
command_topic t cmd suffix =
    if is_empty cmd && is_empty suffix
    then node_path t (codes "cmnd/")
    else if is_empty suffix
    then node_path t (codes "cmnd/" ++ cmd)
    else node_path t (codes "cmnd/" ++ (cmd ++ (b'/' ∷ suffix)))

-- `MqttTransport::status_topic`
unfoldable pub status_topic : Node → Text
status_topic t = node_path t (codes "status")

-- The last test of `extract_command_name`.
unfoldable pub checked_name : Text → Option Text
checked_name name =
    if is_empty name
      || contains_char name b'/'
      || contains_char name b'+'
      || contains_char name b'#'
    then none
    else some name

abbrev checked_remainder : Option Text → Option Text
checked_remainder none = none
checked_remainder (some name) = checked_name name

-- `CommandProcessor::extract_command_name`
unfoldable pub extract_command_name : Text → Text → Option Text
unfolding checked_name
extract_command_name topic prefix =
    if not (starts_with topic prefix) || not (ends_with topic (codes "/in"))
    then none
    else checked_remainder (strip_suffix (drop (length prefix) topic) (codes "/in"))
