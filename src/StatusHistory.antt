-- ===== src/StatusHistory.antt =====
-- packages/web/src/lib/status-history.ts: the history of the booth's statuses in the console, newest
-- first. A timestamp is a number of milliseconds, and null and undefined are written alike.
pub mod Collapsing
pub mod Merging
use text.Mathlib.Text.{◌==◌ as str_eq}
use telephone_booth_operator.Common.{
  ℕ, zero, suc, ◌+◌, ◌-◌, min, max, Bool, true, false, ◌&&◌, ◌||◌, not, Option, none, some, List,
  [], ◌∷◌, ◌++◌, String, if◌then◌else◌, ◌==◌, ◌==?◌, ltb, leb, with_default, take, drop, length,
}

pub record BoothStatus : Type 0 where
  pub id : Option ℕ
  pub state : String
  pub current_question_id : Option ℕ
  pub current_message_id : Option ℕ
  pub last_error : Option String
  pub runtime_mode : Option String
  pub updated_at : ℕ
  pub first_seen_at : Option ℕ
  pub repeat_count : Option ℕ

abbrev pub status_history_limit : ℕ
status_history_limit = 200

unfoldable pub same_text : Option String → Option String → Bool
same_text none none = true
same_text (some a) (some b) = str_eq a b
same_text _ _ = false

unfoldable pub is_same_status : BoothStatus → BoothStatus → Bool
unfolding same_text
is_same_status a b =
    str_eq a.state b.state
    && a.current_question_id ==? b.current_question_id
    && a.current_message_id ==? b.current_message_id
    && same_text a.last_error b.last_error
    && same_text a.runtime_mode b.runtime_mode

abbrev pub repeat_count_of : BoothStatus → ℕ
repeat_count_of s = with_default s.repeat_count 1

abbrev pub first_seen_at_of : BoothStatus → ℕ
first_seen_at_of s = with_default s.first_seen_at s.updated_at

unfoldable pub is_stale_frame : BoothStatus → BoothStatus → Bool
is_stale_frame head s =
    if not (s.updated_at == head.updated_at)
    then ltb s.updated_at head.updated_at
    else ltb (repeat_count_of s) (repeat_count_of head)

-- The rule of the windows, for rows of which one has no id.
unfoldable pub is_same_window : BoothStatus → BoothStatus → Bool
unfolding is_same_status
is_same_window a b =
    is_same_status a b
    && (leb (first_seen_at_of a) (first_seen_at_of b) && leb b.updated_at a.updated_at
        || leb (first_seen_at_of b) (first_seen_at_of a) && leb a.updated_at b.updated_at)

run_by_id : BoothStatus → BoothStatus → Option ℕ → Option ℕ → Bool
unfolding is_same_window
run_by_id a b (some i) (some j) = i == j
run_by_id a b _ _ = is_same_window a b

unfoldable pub is_same_run : BoothStatus → BoothStatus → Bool
unfolding run_by_id
is_same_run a b = run_by_id a b a.id b.id

-- `history.findIndex`, where none is the length.
unfoldable pub position_of : BoothStatus → List BoothStatus → ℕ
position_of s [] = 0
position_of s (x ∷ xs) =
    let rest = position_of s xs in if leb x.updated_at s.updated_at then 0 else suc rest

-- Whether the entry at a position, if there is one, is of the run.
unfoldable pub is_run_at : BoothStatus → List BoothStatus → ℕ → Bool
unfolding is_same_run
is_run_at s [] n = false
is_run_at s (x ∷ xs) zero = is_same_run x s
is_run_at s (x ∷ xs) (suc n) = is_run_at s xs n

unfoldable pub first_run : BoothStatus → List BoothStatus → Option ℕ
unfolding is_same_run
first_run s [] = none
first_run s (x ∷ xs) =
    let rest = first_run s xs in
    if is_same_run x s then some 0 else elim rest [ none ↦ none | some n ↦ some (suc n) ]

-- The two entries beside a position.
unfoldable pub beside : BoothStatus → List BoothStatus → ℕ → Option ℕ
unfolding is_run_at
beside s history zero = if is_run_at s history 0 then some 0 else none
beside s history (suc n) =
    if is_run_at s history n
    then some n
    else if is_run_at s history (suc n)
    then some (suc n)
    else none

-- The position of the cached copy.
unfoldable pub cached_at : BoothStatus → List BoothStatus → Option ℕ → Option ℕ
unfolding first_run beside position_of
cached_at s history none = beside s history (position_of s history)
cached_at s history (some id) = first_run s history

-- The entry at a position is replaced by a frame that is not stale.
unfoldable pub replace_at : BoothStatus → List BoothStatus → ℕ → List BoothStatus
unfolding is_stale_frame
replace_at s [] n = []
replace_at s (x ∷ xs) zero = if is_stale_frame x s then x ∷ xs else s ∷ xs
replace_at s (x ∷ xs) (suc n) = x ∷ replace_at s xs n

unfoldable pub merge_live_status : List BoothStatus → BoothStatus → ℕ → List BoothStatus
unfolding cached_at replace_at position_of
merge_live_status history s limit = elim (cached_at s history s.id) [
  | some n ↦ replace_at s history n
  | none ↦
      let index = position_of s history in take limit (take index history ++ s ∷ drop index history)
]

-- The last branches of `isNewerThan`, between two different instants or rows.
newer_by_id : BoothStatus → BoothStatus → Option ℕ → Option ℕ → Bool
unfolding is_same_status is_stale_frame
newer_by_id s current (some i) (some j) = ltb j i
newer_by_id s current _ _ =
    if not (is_same_status current s) then true else not (is_stale_frame current s)

same_row : Option ℕ → Option ℕ → Bool
same_row (some i) (some j) = i == j
same_row _ _ = false

unfoldable pub is_newer_than : BoothStatus → Option BoothStatus → Bool
unfolding newer_by_id same_row is_stale_frame
is_newer_than s none = true
is_newer_than s (some current) =
    if same_row s.id current.id
    then not (is_stale_frame current s)
    else if not (s.updated_at == current.updated_at)
    then ltb current.updated_at s.updated_at
    else newer_by_id s current s.id current.id

-- An entry that a run begins with, and the entry with one more snapshot of the run.
unfoldable pub begun : BoothStatus → BoothStatus
begun s = record s {
  first_seen_at = some (first_seen_at_of s);
  repeat_count = some (repeat_count_of s);
}

unfoldable pub joined : BoothStatus → BoothStatus → BoothStatus
joined previous s = record previous {
  first_seen_at = some (min (first_seen_at_of s) (first_seen_at_of previous));
  updated_at = max s.updated_at previous.updated_at;
  repeat_count = some (repeat_count_of previous + repeat_count_of s);
}

-- The loop, with the last entry of `collapsed`.
unfoldable pub collapse_onto : BoothStatus → List BoothStatus → List BoothStatus
unfolding joined begun is_same_status
collapse_onto previous [] = previous ∷ []
collapse_onto previous (s ∷ history) =
    let same = collapse_onto (joined previous s) history in
    let other = previous ∷ collapse_onto (begun s) history in
    if is_same_status previous s then same else other

unfoldable pub collapse_status_history : List BoothStatus → List BoothStatus
unfolding collapse_onto
collapse_status_history [] = []
collapse_status_history (s ∷ history) = collapse_onto (begun s) history
