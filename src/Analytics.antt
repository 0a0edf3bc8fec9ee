-- ===== src/Analytics.antt =====
-- packages/api/src/lib/interaction-analytics.ts: what callers did, from call sessions and booth
-- events. A time is its number of milliseconds since 1970, a day its number of days, and a dialled
-- digit its number; a mean is kept as its numerator and denominator.
pub mod Breakdown
pub mod PerDay
pub mod Laws
use text.Mathlib.Text.{◌==◌ as str_eq}
use telephone_booth_operator.Common.{
  ℕ, ◌+◌, ◌-◌, max, String, Bool, true, false, ◌&&◌, Option, none, some, List, [], ◌∷◌,
  if◌then◌else◌, ltb, leb, ◌==◌, is_none, with_default, holds, length, sum_by, filter,
}
use telephone_booth_operator.Common.Json.{
  Json, null, bool, nat, negative, fraction, str, arr, obj, get_field,
}
use telephone_booth_operator.Common.Counter.{inc_record}

pub record InteractionSession : Type 0 where
  pub started_at : ℕ
  pub ended_at : Option ℕ
  pub outcome : Option String
  pub duration_ms : Option ℕ
  pub digits_dialed : Option (List ℕ)

pub data EventType : Type 0 where
  digit_dialed state_transition call_started call_ended other : EventType

pub record InteractionEvent : Type 0 where
  pub kind : EventType
  pub payload : Json

abbrev pub no_selection_outcome : String
no_selection_outcome = "hung_up_before_dial"

abbrev pub message_left_outcome : String
message_left_outcome = "recording_completed"

abbrev pub message_playback_state : String
message_playback_state = "playing_message"

abbrev pub instruction_playback_state : String
instruction_playback_state = "playing_instructions"

pub record InteractionSessionSummary : Type 0 where
  pub total : ℕ
  pub no_selection : ℕ
  pub messages_left : ℕ
  pub average_duration_ms : Option (ℕ × ℕ)
  pub longest_duration_ms : Option ℕ
  pub outcomes : List (String × ℕ)

pub record InteractionActionsSummary : Type 0 where
  pub digits_dialed : List (ℕ × ℕ)
  pub leave_message_selections : ℕ
  pub listen_message_selections : ℕ
  pub instruction_selections : ℕ
  pub wrong_number_attempts : ℕ
  pub message_playback_starts : ℕ
  pub instruction_playback_starts : ℕ

pub record InteractionBreakdown : Type 0 where
  pub no_selection : ℕ
  pub wrong_number_attempts : ℕ
  pub messages_left : ℕ
  pub message_playback_starts : ℕ
  pub instruction_playback_starts : ℕ

-- `outcome === k`
abbrev pub outcome_is : String → InteractionSession → Bool
outcome_is k s = holds (λ o. str_eq o k) s.outcome

-- The loop of `summarizeInteractionSessions` over its four variables.
record SessionTally : Type 0 where
  outcomes : List (String × ℕ)
  durations : List ℕ
  no_selection : ℕ
  messages_left : ℕ

push_duration : List ℕ → Option ℕ → List ℕ
push_duration ds none = ds
push_duration ds (some d) = d ∷ ds

tally_session : SessionTally → InteractionSession → SessionTally
unfolding inc_record push_duration
tally_session t s =
    let outcomes =
      if is_none s.ended_at && is_none s.outcome
      then t.outcomes
      else inc_record str_eq t.outcomes (with_default s.outcome "unknown") in
    record {
      outcomes = outcomes;
      durations = push_duration t.durations s.duration_ms;
      no_selection = t.no_selection + (if outcome_is no_selection_outcome s then 1 else 0);
      messages_left = t.messages_left + (if outcome_is message_left_outcome s then 1 else 0);
    }

tally_sessions : SessionTally → List InteractionSession → SessionTally
unfolding tally_session
tally_sessions t [] = t
tally_sessions t (s ∷ ss) = tally_sessions (tally_session t s) ss

abbrev empty_session_tally : SessionTally
empty_session_tally = record { outcomes = []; durations = []; no_selection = 0; messages_left = 0 }

-- `Math.max(...durations)` and the sum over the count, each null on no durations.
max_of : List ℕ → ℕ
max_of [] = 0
max_of (d ∷ ds) = max d (max_of ds)

longest_of : List ℕ → Option ℕ
unfolding max_of
longest_of [] = none
longest_of (d ∷ ds) = some (max_of (d ∷ ds))

average_of : List ℕ → Option (ℕ × ℕ)
average_of [] = none
average_of (d ∷ ds) = some (sum_by (λ n. n) (d ∷ ds), length (d ∷ ds))

unfoldable pub summarize_interaction_sessions : List InteractionSession → InteractionSessionSummary
unfolding tally_sessions longest_of average_of
summarize_interaction_sessions sessions =
    let t = tally_sessions empty_session_tally sessions in
    record {
      total = length sessions;
      no_selection = t.no_selection;
      messages_left = t.messages_left;
      average_duration_ms = average_of t.durations;
      longest_duration_ms = longest_of t.durations;
      outcomes = t.outcomes;
    }

-- `parseDigit`: an integer from 0 to 9 under the key "digit".
digit_of : Option Json → Option ℕ
digit_of (some (nat n)) = if ltb 9 n then none else some n
digit_of _ = none

pub parse_digit : Json → Option ℕ
unfolding digit_of get_field
parse_digit (obj fs) = digit_of (get_field "digit" fs)
parse_digit _ = none

pub data Selection : Type 0 where
  leave_message listen_message instruction wrong_number : Selection

pub digit_selection_key : ℕ → Option Selection
digit_selection_key digit =
    if digit == 1
    then some leave_message
    else if digit == 2
    then some listen_message
    else if digit == 0
    then some instruction
    else if leb 3 digit && leb digit 9
    then some wrong_number
    else none

pub data Playback : Type 0 where
  message_playback instruction_playback : Playback

playback_of : Option Json → Option Playback
playback_of (some (str to)) =
    if str_eq to message_playback_state
    then some message_playback
    else if str_eq to instruction_playback_state
    then some instruction_playback
    else none
playback_of _ = none

pub playback_selection_key : Json → Option Playback
unfolding playback_of get_field
playback_selection_key (obj fs) = playback_of (get_field "to" fs)
playback_selection_key _ = none

-- `summary[selection] += 1`
count_selection : Option Selection → InteractionActionsSummary → InteractionActionsSummary
count_selection none s = s
count_selection (some leave_message) s = record s {
  leave_message_selections = s.leave_message_selections + 1;
}
count_selection (some listen_message) s = record s {
  listen_message_selections = s.listen_message_selections + 1;
}
count_selection (some instruction) s = record s {
  instruction_selections = s.instruction_selections + 1;
}
count_selection (some wrong_number) s = record s {
  wrong_number_attempts = s.wrong_number_attempts + 1;
}

count_playback : Option Playback → InteractionActionsSummary → InteractionActionsSummary
count_playback none s = s
count_playback (some message_playback) s = record s {
  message_playback_starts = s.message_playback_starts + 1;
}
count_playback (some instruction_playback) s = record s {
  instruction_playback_starts = s.instruction_playback_starts + 1;
}

count_digit : Option ℕ → InteractionActionsSummary → InteractionActionsSummary
unfolding count_selection digit_selection_key inc_record
count_digit none s = s
count_digit (some digit) s =
    count_selection (digit_selection_key digit)
      (record s { digits_dialed = inc_record ◌==◌ s.digits_dialed digit })

count_event : InteractionEvent → EventType → InteractionActionsSummary → InteractionActionsSummary
unfolding count_digit count_playback parse_digit playback_selection_key
count_event e digit_dialed s = count_digit (parse_digit e.payload) s
count_event e state_transition s = count_playback (playback_selection_key e.payload) s
count_event e call_started s = s
count_event e call_ended s = s
count_event e other s = s

-- The keys "0" to "9", each at 0.
abbrev pub empty_digits_dialed : List (ℕ × ℕ)
empty_digits_dialed =
    (0, 0) ∷ (1, 0) ∷ (2, 0) ∷ (3, 0) ∷ (4, 0) ∷ (5, 0) ∷ (6, 0) ∷ (7, 0) ∷ (8, 0) ∷ (9, 0) ∷ []

abbrev empty_actions : InteractionActionsSummary
empty_actions = record {
  digits_dialed = empty_digits_dialed;
  leave_message_selections = 0;
  listen_message_selections = 0;
  instruction_selections = 0;
  wrong_number_attempts = 0;
  message_playback_starts = 0;
  instruction_playback_starts = 0;
}

count_events : InteractionActionsSummary → List InteractionEvent → InteractionActionsSummary
unfolding count_event
count_events s [] = s
count_events s (e ∷ es) = count_events (count_event e e.kind s) es

unfoldable pub summarize_interaction_actions : List InteractionEvent → InteractionActionsSummary
unfolding count_events
summarize_interaction_actions events = count_events empty_actions events
