-- ===== src/Analytics/Breakdown.antt =====
-- packages/api/src/lib/interaction-analytics.ts: both summaries together, and the digits of sessions
-- without events.
use telephone_booth_operator.Common.{
  ℕ, ◌-◌, Bool, ◌&&◌, List, [], ◌∷◌, if◌then◌else◌, leb, ◌==◌, with_default,
}
use telephone_booth_operator.Common.Counter.{inc_record}
use telephone_booth_operator.Analytics.{
  InteractionSession, InteractionEvent, InteractionBreakdown, summarize_interaction_sessions,
  summarize_interaction_actions, empty_digits_dialed,
}

pub summarize_interaction_breakdown :
    List InteractionSession → List InteractionEvent → InteractionBreakdown
unfolding summarize_interaction_sessions summarize_interaction_actions
summarize_interaction_breakdown sessions events =
    let s = summarize_interaction_sessions sessions in
    let a = summarize_interaction_actions events in
    record {
      no_selection = s.no_selection;
      wrong_number_attempts = a.wrong_number_attempts;
      messages_left = s.messages_left;
      message_playback_starts = a.message_playback_starts;
      instruction_playback_starts = a.instruction_playback_starts;
    }

-- `char in digits`, for the code of a character.
digit_char : ℕ → Bool
digit_char c = leb b'0' c && leb c b'9'

tally_chars : List (ℕ × ℕ) → List ℕ → List (ℕ × ℕ)
unfolding digit_char inc_record
tally_chars digits [] = digits
tally_chars digits (c ∷ cs) =
    tally_chars (if digit_char c then inc_record ◌==◌ digits (c - 48) else digits) cs

tally_legacy : List (ℕ × ℕ) → List InteractionSession → List (ℕ × ℕ)
unfolding tally_chars
tally_legacy digits [] = digits
tally_legacy digits (s ∷ ss) =
    tally_legacy (tally_chars digits (with_default s.digits_dialed [])) ss

-- The histogram of dialled digits: from events where there are any, else from old session rows.
tally_legacy_digit_histogram : List InteractionSession → List InteractionEvent → List (ℕ × ℕ)
unfolding tally_legacy summarize_interaction_actions
tally_legacy_digit_histogram sessions [] = tally_legacy empty_digits_dialed sessions
tally_legacy_digit_histogram sessions (e ∷ es) =
    (summarize_interaction_actions (e ∷ es)).digits_dialed
