-- ===== src/Analytics/Laws.antt =====
-- packages/api/src/lib/interaction-analytics.ts: the summaries agree with one another and with the
-- rows that they count.
use text.Mathlib.Text.{◌==◌ as str_eq}
use text.Mathlib.TextEquality.{eq_iff}
use telephone_booth_operator.Common.{
  ℕ, ◌+◌, ◌*◌, ◌≤◌, String, ◌≡◌, refl, ap, Bool, false, ◌&&◌, not, Option, none, some, List, [],
  ◌∷◌, ◌==◌, is_none, with_default, length, sum_by, arith, count,
}
use telephone_booth_operator.Common.Counter.{tally, tally-inc_record, total_of, total_of-inc_record}
use telephone_booth_operator.Common.Json.{Json, obj}
use telephone_booth_operator.Analytics.{
  InteractionSession, InteractionEvent, InteractionActionsSummary, SessionTally, tally_session,
  tally_sessions, empty_session_tally, outcome_is, no_selection_outcome, message_left_outcome,
  summarize_interaction_sessions, max_of, longest_of, average_of, digit_of, parse_digit,
  count_digit, count_playback, count_event, count_events, empty_actions,
  summarize_interaction_actions, EventType, digit_dialed, state_transition, call_started,
  call_ended, other, playback_selection_key, message_playback, instruction_playback, Playback,
}

-- A session that is neither ended nor has an outcome is still in progress.
abbrev pub in_progress : InteractionSession → Bool
in_progress s = is_none s.ended_at && is_none s.outcome

abbrev pub is_labelled : String → InteractionSession → Bool
is_labelled k s = not (in_progress s) && str_eq (with_default s.outcome "unknown") k

tally-tally_sessions :
    (t : SessionTally) (ss : List InteractionSession) (k : String)
    → tally str_eq (tally_sessions t ss).outcomes k
      ≡ tally str_eq t.outcomes k + count (is_labelled k) ss
unfolding tally_sessions tally_session
tally-tally_sessions t [] k = omega arith
tally-tally_sessions t (s ∷ ss) k = ground (
  arith,
  tally-tally_sessions (tally_session t s) ss k,
  tally-inc_record str_eq eq_iff t.outcomes (with_default s.outcome "unknown") k,
)

total-tally_sessions :
    (t : SessionTally) (ss : List InteractionSession)
    → total_of (tally_sessions t ss).outcomes + count in_progress ss
      ≡ total_of t.outcomes + length ss
unfolding tally_sessions tally_session
total-tally_sessions t [] = omega arith
total-tally_sessions t (s ∷ ss) = ground (
  arith,
  total-tally_sessions (tally_session t s) ss,
  total_of-inc_record str_eq t.outcomes (with_default s.outcome "unknown"),
)

no_selection-tally_sessions :
    (t : SessionTally) (ss : List InteractionSession)
    → (tally_sessions t ss).no_selection
      ≡ t.no_selection + count (outcome_is no_selection_outcome) ss
unfolding tally_sessions tally_session
no_selection-tally_sessions t [] = omega arith
no_selection-tally_sessions t (s ∷ ss) =
    omega (arith, no_selection-tally_sessions (tally_session t s) ss)

messages_left-tally_sessions :
    (t : SessionTally) (ss : List InteractionSession)
    → (tally_sessions t ss).messages_left
      ≡ t.messages_left + count (outcome_is message_left_outcome) ss
unfolding tally_sessions tally_session
messages_left-tally_sessions t [] = omega arith
messages_left-tally_sessions t (s ∷ ss) =
    omega (arith, messages_left-tally_sessions (tally_session t s) ss)

-- The outcome histogram counts, under each label, the settled sessions that bear it, and its counts
-- add up to all sessions but those in progress.
pub summarize-outcomes :
    (sessions : List InteractionSession) (k : String)
    → (tally str_eq (summarize_interaction_sessions sessions).outcomes k
        ≡ count (is_labelled k) sessions)
      × (total_of (summarize_interaction_sessions sessions).outcomes + count in_progress sessions
          ≡ (summarize_interaction_sessions sessions).total)
unfolding summarize_interaction_sessions tally
summarize-outcomes sessions k = (
  omega (arith, tally-tally_sessions empty_session_tally sessions k),
  omega (arith, total-tally_sessions empty_session_tally sessions),
)

count-labelled :
    (k : String) (ss : List InteractionSession)
    → str_eq "unknown" k ≡ false
    → count (outcome_is k) ss ≡ count (is_labelled k) ss
count-labelled k [] h = refl
count-labelled k (s ∷ ss) h = ground (arith, count-labelled k ss h)

-- The two headline counters are the histogram's counts for their outcomes.
pub summarize-counters :
    (sessions : List InteractionSession)
    → ((summarize_interaction_sessions sessions).no_selection
        ≡ tally str_eq (summarize_interaction_sessions sessions).outcomes no_selection_outcome)
      × ((summarize_interaction_sessions sessions).messages_left
          ≡ tally str_eq (summarize_interaction_sessions sessions).outcomes message_left_outcome)
unfolding summarize_interaction_sessions tally
summarize-counters sessions = (
  omega (
    arith,
    no_selection-tally_sessions empty_session_tally sessions,
    count-labelled no_selection_outcome sessions refl,
    tally-tally_sessions empty_session_tally sessions no_selection_outcome,
  ),
  omega (
    arith,
    messages_left-tally_sessions empty_session_tally sessions,
    count-labelled message_left_outcome sessions refl,
    tally-tally_sessions empty_session_tally sessions message_left_outcome,
  ),
)

-- What the two duration figures have to do with one another.
abbrev pub AreDurations : Option (ℕ × ℕ) → Option ℕ → Type 0
AreDurations none none = Unit
AreDurations (some (total, n)) (some longest) = (1 ≤ n) × (longest ≤ total) × (total ≤ n * longest)
AreDurations _ _ = ⊥

sum-le-max : (ds : List ℕ) → sum_by (λ n. n) ds ≤ length ds * max_of ds
unfolding max_of
sum-le-max [] = omega arith
sum-le-max (d ∷ ds) = grind (arith, sum-le-max ds)

max-le-sum : (ds : List ℕ) → max_of ds ≤ sum_by (λ n. n) ds
unfolding max_of
max-le-sum [] = omega arith
max-le-sum (d ∷ ds) = omega (arith, max-le-sum ds)

AreDurations-of : (ds : List ℕ) → AreDurations (average_of ds) (longest_of ds)
unfolding average_of longest_of
AreDurations-of [] = tt
AreDurations-of (d ∷ ds) = (omega arith, max-le-sum (d ∷ ds), sum-le-max (d ∷ ds))

-- Both duration figures are null or neither is, and the mean is at most the longest duration.
pub summarize-AreDurations :
    (sessions : List InteractionSession)
    → AreDurations
        (summarize_interaction_sessions sessions).average_duration_ms
        (summarize_interaction_sessions sessions).longest_duration_ms
unfolding summarize_interaction_sessions
summarize-AreDurations sessions =
    AreDurations-of (tally_sessions empty_session_tally sessions).durations

-- Actions ------------------------------------------------------------------

abbrev pub selections : InteractionActionsSummary → ℕ
selections s =
    s.leave_message_selections + s.listen_message_selections + s.instruction_selections
    + s.wrong_number_attempts

parse_digit-le : (j : Json) (d : ℕ) → parse_digit j ≡ some d → d ≤ 9
unfolding parse_digit digit_of
parse_digit-le (obj fs) d h = ground arith
parse_digit-le _ d h = ground arith

-- One digit counts once in the histogram and once among the selections.
count_digit-balance :
    (s : InteractionActionsSummary) (o : Option ℕ)
    → ((d : ℕ) → o ≡ some d → d ≤ 9)
    → total_of (count_digit o s).digits_dialed + selections s
      ≡ total_of s.digits_dialed + selections (count_digit o s)
unfolding count_digit
count_digit-balance s none h = omega arith
count_digit-balance s (some d) h = ground (arith, h d, total_of-inc_record ◌==◌ s.digits_dialed d)

count_playback-same :
    (s : InteractionActionsSummary) (o : Option Playback)
    → ((count_playback o s).digits_dialed ≡ s.digits_dialed)
      × (selections (count_playback o s) ≡ selections s)
unfolding count_playback
count_playback-same s none = (refl, refl)
count_playback-same s (some message_playback) = (refl, refl)
count_playback-same s (some instruction_playback) = (refl, refl)

count_event-balance :
    (e : InteractionEvent) (k : EventType) (s : InteractionActionsSummary)
    → total_of (count_event e k s).digits_dialed + selections s
      ≡ total_of s.digits_dialed + selections (count_event e k s)
unfolding count_event
count_event-balance e digit_dialed s =
    count_digit-balance s (parse_digit e.payload) (parse_digit-le e.payload)
count_event-balance e state_transition s =
    let (same, sum) = count_playback-same s (playback_selection_key e.payload) in
    omega (arith, ap total_of same, sum)
count_event-balance e call_started s = refl
count_event-balance e call_ended s = refl
count_event-balance e other s = refl

count_events-balance :
    (s : InteractionActionsSummary) (es : List InteractionEvent)
    → total_of (count_events s es).digits_dialed + selections s
      ≡ total_of s.digits_dialed + selections (count_events s es)
unfolding count_events
count_events-balance s [] = refl
count_events-balance s (e ∷ es) =
    omega (arith, count_event-balance e e.kind s, count_events-balance (count_event e e.kind s) es)

-- Every dialled digit is exactly one of the four selections: the counts of the digit histogram add
-- up to the four selection counters.
pub summarize_actions-balance :
    (events : List InteractionEvent)
    → total_of (summarize_interaction_actions events).digits_dialed
      ≡ selections (summarize_interaction_actions events)
unfolding summarize_interaction_actions
summarize_actions-balance events = omega (arith, count_events-balance empty_actions events)
