-- ===== src/Ralph/Signals.antt =====
-- The settings of a persistent worker, and the signals that it reads from its goal
-- (packages/shared-skills/src/ralph-loop.ts).
use Prim.Native.Nat.{max}
use droid_swarm.Prelude.{
  ℕ, String, Bool, true, false, ◌||◌, ◌==◌, if◌then◌else◌, get_or, ◌<>◌, decimal, Option, none,
  some, [], ◌∷◌, get,
}
use droid_swarm.Prelude.Words.{trim}
use droid_swarm.Router.Hints.{some_hint}
use droid_swarm.Ralph.Sessions.{MetaValue, text, number, flag, other, RalphMetadata}

pub record RalphLoopConfig : Type 0 where
  pub max_iterations : ℕ
  pub completion_signal : String
  pub sleep_ms : ℕ

pub record PartialLoopConfig : Type 0 where
  pub max_iterations : Option ℕ
  pub completion_signal : Option String
  pub sleep_ms : Option ℕ

abbrev pub default_loop_config : RalphLoopConfig
default_loop_config = record {
  max_iterations = 50;
  completion_signal = "<RALPH_DONE>";
  sleep_ms = 5000;
}

-- `value || fallback` of a text
abbrev pub or_default : String → String → String
or_default value fallback = if value == "" then fallback else value

-- `normalizeLoopConfig`
unfoldable pub normalize_loop_config : PartialLoopConfig → RalphLoopConfig
normalize_loop_config input = record {
  max_iterations = max 1 (get_or input.max_iterations default_loop_config.max_iterations);
  completion_signal =
      or_default (trim (get_or input.completion_signal "")) default_loop_config.completion_signal;
  sleep_ms = get_or input.sleep_ms default_loop_config.sleep_ms;
}

-- `metadata?.key === true`
abbrev pub is_set : Option MetaValue → Bool
is_set (some (flag true)) = true
is_set _ = false

-- `typeof metadata.key === 'number'`
abbrev pub number_of : Option MetaValue → Option ℕ
number_of (some (number n)) = some n
number_of _ = none

-- `String(metadata?.key ?? '')`
abbrev pub text_of : Option MetaValue → String
text_of none = ""
text_of (some (text s)) = s
text_of (some (number n)) = decimal n
text_of (some (flag true)) = "true"
text_of (some (flag false)) = "false"
text_of (some (other s)) = s

pub record RalphSignals : Type 0 where
  pub self_correction_needed : Bool
  pub long_horizon : Bool
  pub polishing_phase : Bool
  pub failure_recovery_mode : Bool
  pub expected_iterations : ℕ

-- `detectRalphSignals`; each pattern is a choice of words, which are looked for without regard to
-- case.
unfoldable pub detect_ralph_signals : String → RalphMetadata → RalphSignals
detect_ralph_signals goal metadata =
    let combined =
      goal <> " " <> text_of (get metadata "phase") <> " " <> text_of (get metadata "mode") in
    record {
      self_correction_needed =
          is_set (get metadata "selfCorrectionNeeded")
          || some_hint ("self-correct" ∷ "retry" ∷ "recover" ∷ "failure" ∷ "stabilize" ∷ [])
              combined;
      long_horizon =
          is_set (get metadata "longHorizon")
          || some_hint
              ("long-horizon" ∷ "multi-day" ∷ "multi-hour" ∷ "persistent" ∷ "iterative" ∷ [])
              combined;
      polishing_phase =
          is_set (get metadata "polishingPhase")
          || some_hint
              ("polish" ∷ "refine" ∷ "review follow-up" ∷ "research synthesis" ∷ "hardening" ∷ [])
              combined;
      failure_recovery_mode =
          is_set (get metadata "failureRecoveryMode")
          || some_hint ("recover" ∷ "postmortem" ∷ "failed" ∷ "retry" ∷ []) combined;
      expected_iterations = get_or (number_of (get metadata "expectedIterations")) (
          if some_hint ("iterative" ∷ "persistent" ∷ "refine" ∷ "polish" ∷ []) combined
          then 12
          else 4);
    }
