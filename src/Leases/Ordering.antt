-- ===== src/Leases/Ordering.antt =====
-- packages/api/src/routes/message-processing.ts, `POST /claim`: the oldest candidate comes first.
use telephone_booth_operator.Common.{◌≡◌, false, List, [], ◌∷◌, All}
use telephone_booth_operator.Leases.{is_before}
use telephone_booth_operator.Leases.Needs.{WorkMessage}

abbrev NotBefore : WorkMessage → WorkMessage → Type 0
NotBefore m x = is_before x m ≡ false

abbrev IsByAge : List WorkMessage → Type 0
IsByAge [] = Unit
IsByAge (x ∷ xs) = All (NotBefore x) xs × IsByAge xs
