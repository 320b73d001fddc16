-- ===== src/Operator/Intents.antt =====
-- `parseOperatorIntent` of apps/orchestrator/src/operator/operator-intents.ts.
use Prim.Native.Char.{code}
use droid_swarm.Prelude.{
  String, not, ◌&&◌, ◌==◌, nat_eq, if◌then◌else◌, truthy, ◌<>◌, join, Option, none, some, List, [],
  ◌∷◌,
}
use droid_swarm.Prelude.Words.{trim, lower, split_spaces}
use droid_swarm.Runs.Records.{Priority, low, medium, high, urgent}

pub data ActionType : Type 0 where
  cancel_task request_review reprioritize : ActionType

pub record OperatorControlAction : Type 0 where
  pub type : ActionType
  pub task_id : Option String
  pub priority : Option Priority
  pub reason : Option String

pub data OperatorIntent : Type 0 where
  note : (raw : String) (referenced_task_id : Option String) → OperatorIntent
  command : (action : OperatorControlAction) (referenced_task_id : Option String) → OperatorIntent
  command_error : (message : String) (referenced_task_id : Option String) → OperatorIntent

abbrev pub fallback_command_help : String
fallback_command_help =
    "Usage: /cancel <task-id> [reason], /review <task-id> [reason], /priority <task-id> <level> [reason]."

-- `PRIORITY_LEVELS`, and the level of a text among them
abbrev pub priority_level : String → Option Priority
priority_level text =
    if text == "low"
    then some low
    else if text == "medium"
    then some medium
    else if text == "high"
    then some high
    else if text == "urgent"
    then some urgent
    else none

-- `sanitizeReason`
abbrev pub sanitize_reason : List String → Option String
sanitize_reason tokens =
    let content = trim (join " " tokens) in if content == "" then none else some content

-- `args[0] ?? fallbackTaskId`
abbrev pub target_of : List String → Option String → Option String
target_of [] fallback = fallback
target_of (arg ∷ args) fallback = some arg

abbrev pub tail : List String → List String
tail [] = []
tail (x ∷ xs) = xs

abbrev pub missing_task : Option String → OperatorIntent
missing_task fallback =
    command_error ("Missing task identifier. " <> fallback_command_help) fallback

abbrev pub action_of : ActionType → Option String → Option Priority → List String → OperatorIntent
action_of type target priority tokens =
    command
      (record {
        type = type;
        task_id = target;
        priority = priority;
        reason = sanitize_reason tokens;
      })
      target

-- The commands that need no level
abbrev pub simple_command : ActionType → List String → Option String → OperatorIntent
simple_command type args fallback =
    let target = target_of args fallback in
    if truthy target then action_of type target none (tail args) else missing_task fallback

abbrev pub with_level : Option String → List String → Option Priority → OperatorIntent
with_level target tokens none =
    command_error "Priority must be one of low, medium, high, urgent." target
with_level target tokens (some level) = action_of reprioritize target (some level) tokens

-- The rest of the arguments of a change of priority, from the level on
abbrev pub level_command : Option String → List String → OperatorIntent
level_command target [] = command_error ("Missing priority level. " <> fallback_command_help) target
level_command target (level ∷ tokens) =
    if level == ""
    then command_error ("Missing priority level. " <> fallback_command_help) target
    else with_level target tokens (priority_level (lower level))

abbrev pub priority_command : List String → Option String → OperatorIntent
priority_command args fallback =
    let target = target_of args fallback in
    if truthy target then level_command target (tail args) else missing_task fallback

-- The `switch` on the command, which is in small letters
abbrev pub dispatch : String → List String → Option String → OperatorIntent
dispatch name args fallback =
    if name == "cancel"
    then simple_command cancel_task args fallback
    else if name == "review"
    then simple_command request_review args fallback
    else if name == "priority"
    then priority_command args fallback
    else command_error ("Unknown command \"/" <> name <> "\". " <> fallback_command_help) fallback

-- A split has at least one part.
abbrev pub read_segments : List String → Option String → OperatorIntent
read_segments [] fallback = missing_task fallback
read_segments (name ∷ args) fallback = dispatch (lower name) args fallback

abbrev pub not_recognized : Option String → OperatorIntent
not_recognized fallback =
    command_error ("Command not recognized. " <> fallback_command_help) fallback

abbrev pub read_body : String → Option String → OperatorIntent
read_body body fallback =
    if body == "" then not_recognized fallback else read_segments (split_spaces body) fallback

abbrev pub read_trimmed : String → String → Option String → OperatorIntent
read_trimmed text String.[] task_id = note text task_id
read_trimmed text (String.◌∷◌ c rest) task_id =
    if nat_eq (code c) 47 && not (rest == "")
    then read_body (trim rest) task_id
    else note text task_id

-- `parseOperatorIntent`
unfoldable pub parse_operator_intent : String → Option String → OperatorIntent
parse_operator_intent text task_id = read_trimmed text (trim text) task_id
