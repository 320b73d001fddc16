-- ===== src/Operator/RoundTrip.antt =====
-- A command that is written out is read back
-- (apps/orchestrator/src/operator/operator-intents.ts).
use Prim.Native.String.{◌++◌}
use text.Mathlib.TextLemmas.{cons-append, nil-append}
use droid_swarm.Prelude.{
  String, not, ◌==◌, if◌then◌else◌, ◌<>◌, join, Option, none, some, List, [], ◌∷◌, All, ◌≡◌, refl,
  ap, ◌∙◌,
}
use droid_swarm.Prelude.Words.{trim, trim_start, trim_end, is_space, lower, split_spaces}
use droid_swarm.Prelude.Joined.{
  IsWord, split_spaces-join, trim-join, trim_end-join, join-eq-empty, word-eq-empty,
}
use droid_swarm.Runs.Records.{Priority, low, medium, high, urgent}
use droid_swarm.Operator.Intents.{
  ActionType, cancel_task, request_review, reprioritize, command, note, sanitize_reason, dispatch,
  read_segments, read_body, read_trimmed, parse_operator_intent, priority_level, not_recognized,
}

abbrev pub priority_text : Priority → String
priority_text low = "low"
priority_text medium = "medium"
priority_text high = "high"
priority_text urgent = "urgent"

-- The text of a command: its name, the task, the level where it has one, and the reason
abbrev pub print_command : ActionType → String → Priority → List String → String
print_command cancel_task id level reason = "/" <> join " " ("cancel" ∷ id ∷ reason)
print_command request_review id level reason = "/" <> join " " ("review" ∷ id ∷ reason)
print_command reprioritize id level reason =
    "/" <> join " " ("priority" ∷ id ∷ priority_text level ∷ reason)

abbrev pub level_of : ActionType → Priority → Option Priority
level_of reprioritize level = some level
level_of _ level = none

abbrev pub reason_of : List String → Option String
reason_of [] = none
reason_of (w ∷ ws) = some (join " " (w ∷ ws))

slash-append : (text : String) → "/" ++ text ≡ String.◌∷◌ "/" text
slash-append text = cons-append "/" "" text ∙ ap (λ s. String.◌∷◌ "/" s) (nil-append text)

trim_slash : (text : String) → trim_end text ≡ text → trim ("/" ++ text) ≡ String.◌∷◌ "/" text
unfolding trim trim_start trim_end is_space
trim_slash text kept = rw (slash-append text) (rw kept refl)

-- A slash before words is read as a command with arguments.
parse-words :
    (name : String) (args : List String) (fallback : Option String)
    → IsWord name
    → All IsWord args
    → parse_operator_intent ("/" <> join " " (name ∷ args)) fallback
      ≡ dispatch (lower name) args fallback
unfolding parse_operator_intent
parse-words name args fallback h hs =
    let text = join " " (name ∷ args) in
    let some_text = join-eq-empty name args h in
    ap (λ t. read_trimmed ("/" ++ text) t fallback) (trim_slash text (trim_end-join name args h hs))
    ∙ ap (λ b. if not b then read_body (trim text) fallback else note ("/" ++ text) fallback)
        some_text
    ∙ ap (λ t. read_body t fallback) (trim-join name args h hs)
    ∙ ap (λ b. if b then not_recognized fallback else read_segments (split_spaces text) fallback)
        some_text
    ∙ ap (λ parts. read_segments parts fallback) (split_spaces-join name args h hs)

sanitize_reason-words : (ws : List String) → All IsWord ws → sanitize_reason ws ≡ reason_of ws
sanitize_reason-words [] h = unfold trim join in refl
sanitize_reason-words (w ∷ ws) h =
    ap (λ t. if t == "" then none else some t) (trim-join w ws h.0 h.1)
    ∙ ap (λ b. if b then none else some (join " " (w ∷ ws))) (join-eq-empty w ws h.0)

priority_level-text : (level : Priority) → priority_level (lower (priority_text level)) ≡ some level
unfolding lower
priority_level-text low = refl
priority_level-text medium = refl
priority_level-text high = refl
priority_level-text urgent = refl

priority_text-IsWord : (level : Priority) → IsWord (priority_text level)
unfolding is_space
priority_text-IsWord low = (refl, (refl, (refl, tt)))
priority_text-IsWord medium = (refl, (refl, (refl, (refl, (refl, (refl, tt))))))
priority_text-IsWord high = (refl, (refl, (refl, (refl, tt))))
priority_text-IsWord urgent = (refl, (refl, (refl, (refl, (refl, (refl, tt))))))

-- Each command that is written out, for a task and with a reason whose words are joined by single
-- spaces, is read back as it was meant, whatever task the message stands at.
pub parse_operator_intent-print_command :
    (type : ActionType) (id : String) (level : Priority) (reason : List String)
    (fallback : Option String)
    → IsWord id
    → All IsWord reason
    → parse_operator_intent (print_command type id level reason) fallback
      ≡ command
          (record {
            type = type;
            task_id = some id;
            priority = level_of type level;
            reason = reason_of reason;
          })
          (some id)
unfolding lower is_space
parse_operator_intent-print_command cancel_task id level reason fallback h hs =
    parse-words "cancel" (id ∷ reason) fallback (refl, (refl, (refl, (refl, (refl, (refl, tt))))))
      (h, hs)
    ∙ rw (word-eq-empty id h, sanitize_reason-words reason hs) refl
parse_operator_intent-print_command request_review id level reason fallback h hs =
    parse-words "review" (id ∷ reason) fallback (refl, (refl, (refl, (refl, (refl, (refl, tt))))))
      (h, hs)
    ∙ rw (word-eq-empty id h, sanitize_reason-words reason hs) refl
parse_operator_intent-print_command reprioritize id level reason fallback h hs =
    parse-words "priority" (id ∷ priority_text level ∷ reason) fallback
      (refl, (refl, (refl, (refl, (refl, (refl, (refl, (refl, tt))))))))
      (h, (priority_text-IsWord level, hs))
    ∙ rw
        (
          word-eq-empty id h,
          word-eq-empty (priority_text level) (priority_text-IsWord level),
          priority_level-text level,
          sanitize_reason-words reason hs,
        )
        refl
