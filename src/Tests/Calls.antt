-- ===== src/Tests/Calls.antt =====
-- Interaction analytics, run on two calls and three events.
use telephone_booth_operator.Common.{List, [], ◌∷◌}
use telephone_booth_operator.Common.Json.{obj, nat, str, field, end as no_fields}
use telephone_booth_operator.Analytics.{InteractionEvent, digit_dialed, state_transition}

abbrev dialled : List InteractionEvent
dialled =
    record { kind = digit_dialed; payload = obj (field "digit" (nat 1) no_fields) }
    ∷ record { kind = digit_dialed; payload = obj (field "digit" (nat 7) no_fields) }
    ∷ record {
      kind = state_transition;
      payload = obj (field "to" (str "playing_message") no_fields);
    }
    ∷ []
