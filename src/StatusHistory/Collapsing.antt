-- ===== src/StatusHistory/Collapsing.antt =====
-- packages/web/src/lib/status-history.ts, `collapseStatusHistory`: one entry per status.
use telephone_booth_operator.Common.{
  is_empty, ◌+◌, ◌≡◌, refl, ap, subst, ◌∙◌, true, false, Option, none, some, String, List, [], ◌∷◌,
  ◌++◌, sum_by, All, Bool-cases, inl, inr, arith, ==?_iff,
}
use text.Mathlib.TextEquality.{eq_iff}
use telephone_booth_operator.StatusHistory.{
  BoothStatus, same_text, is_same_status, repeat_count_of, begun, joined, collapse_onto,
  collapse_status_history,
}

-- No entry repeats the status of the one before it.
abbrev pub DiffersFrom : BoothStatus → List BoothStatus → Type 0
DiffersFrom s [] = Unit
DiffersFrom s (x ∷ xs) = is_same_status s x ≡ false

abbrev pub AreDifferent : List BoothStatus → Type 0
AreDifferent [] = Unit
AreDifferent (x ∷ xs) = DiffersFrom x xs × AreDifferent xs

-- An entry as the loop leaves it.
abbrev IsBegun : BoothStatus → Type 0
IsBegun s = begun s ≡ s

collapse_onto-total :
    (p : BoothStatus) (history : List BoothStatus)
    → sum_by repeat_count_of (collapse_onto p history)
      ≡ repeat_count_of p + sum_by repeat_count_of history
unfolding collapse_onto joined begun
collapse_onto-total p [] = refl
collapse_onto-total p (s ∷ history) = elim (Bool-cases (is_same_status p s)) [
  | inl e ↦ rw e (omega (arith, collapse_onto-total (joined p s) history))
  | inr e ↦ rw e (omega (arith, collapse_onto-total (begun s) history))
]

collapse_onto-DiffersFrom :
    (x p : BoothStatus) (history : List BoothStatus)
    → is_same_status x p ≡ false
    → DiffersFrom x (collapse_onto p history)
unfolding collapse_onto joined is_same_status
collapse_onto-DiffersFrom x p [] h = h
collapse_onto-DiffersFrom x p (s ∷ history) h = elim (Bool-cases (is_same_status p s)) [
  | inl e ↦ rw (collapse_onto, e) (collapse_onto-DiffersFrom x (joined p s) history h)
  | inr e ↦ rw (collapse_onto, e) h
]

collapse_onto-AreDifferent :
    (p : BoothStatus) (history : List BoothStatus) → AreDifferent (collapse_onto p history)
unfolding collapse_onto begun is_same_status
collapse_onto-AreDifferent p [] = (tt, tt)
collapse_onto-AreDifferent p (s ∷ history) = elim (Bool-cases (is_same_status p s)) [
  | inl e ↦ rw (collapse_onto, e) (collapse_onto-AreDifferent (joined p s) history)
  | inr e ↦
      rw (collapse_onto, e)
        (
          collapse_onto-DiffersFrom p (begun s) history e,
          collapse_onto-AreDifferent (begun s) history,
        )
]

collapse_onto-IsBegun :
    (p : BoothStatus) (history : List BoothStatus)
    → IsBegun p
    → All IsBegun (collapse_onto p history)
unfolding collapse_onto begun joined
collapse_onto-IsBegun p [] h = (h, tt)
collapse_onto-IsBegun p (s ∷ history) h = elim (Bool-cases (is_same_status p s)) [
  | inl e ↦ rw (collapse_onto, e) (collapse_onto-IsBegun (joined p s) history refl)
  | inr e ↦ rw (collapse_onto, e) (h, collapse_onto-IsBegun (begun s) history refl)
]

collapse_onto-same :
    (p : BoothStatus) (history : List BoothStatus)
    → AreDifferent (p ∷ history)
    → All IsBegun history
    → collapse_onto p history ≡ p ∷ history
unfolding collapse_onto
collapse_onto-same p [] d b = refl
collapse_onto-same p (s ∷ history) d b = rw d.0 (
    ap (λ x. p ∷ collapse_onto x history) b.0
    ∙ ap (λ xs. p ∷ xs) (collapse_onto-same s history d.1 b.1))

collapse_status_history-same :
    (history : List BoothStatus)
    → AreDifferent history
    → All IsBegun history
    → collapse_status_history history ≡ history
unfolding collapse_status_history
collapse_status_history-same [] d b = refl
collapse_status_history-same (s ∷ history) d b =
    ap (λ x. collapse_onto x history) b.0 ∙ collapse_onto-same s history d b.1

-- An entry stands for reports in a row: all of its status, and counted together.
abbrev pub StandsFor : BoothStatus → List BoothStatus → Type 0
StandsFor x run =
    (is_empty run ≡ false)
    × All (λ s. is_same_status x s ≡ true) run
    × (repeat_count_of x ≡ sum_by repeat_count_of run)

-- The history in runs of reports, with an entry for each.
pub data IsCollapsed : List BoothStatus → List BoothStatus → Type 0 where
  nothing : IsCollapsed [] []
  a_run :
      (x : BoothStatus) (run : List BoothStatus) {history entries : List BoothStatus}
      → StandsFor x run
      → IsCollapsed history entries
      → IsCollapsed (run ++ history) (x ∷ entries)

same_text_self : (o : Option String) → same_text o o ≡ true
unfolding same_text
same_text_self none = refl
same_text_self (some a) = (eq_iff a a).1 refl

is_same_status_self : (s : BoothStatus) → is_same_status (begun s) s ≡ true
unfolding is_same_status begun
is_same_status_self s = ground (
  arith,
  (eq_iff s.state s.state).1 refl,
  (==?_iff s.current_question_id s.current_question_id).1 refl,
  (==?_iff s.current_message_id s.current_message_id).1 refl,
  same_text_self s.last_error,
  same_text_self s.runtime_mode,
)

All-snoc :
    (P : BoothStatus → Type 0) (xs : List BoothStatus) (s : BoothStatus)
    → All P xs
    → P s
    → All P (xs ++ s ∷ [])
All-snoc P [] s h k = (k, tt)
All-snoc P (x ∷ xs) s h k = (h.0, All-snoc P xs s h.1 k)

sum-snoc :
    (xs : List BoothStatus) (s : BoothStatus)
    → sum_by repeat_count_of (xs ++ s ∷ []) ≡ sum_by repeat_count_of xs + repeat_count_of s
sum-snoc [] s = omega arith
sum-snoc (x ∷ xs) s = omega (arith, sum-snoc xs s)

snoc-append :
    (xs history : List BoothStatus) (s : BoothStatus)
    → (xs ++ s ∷ []) ++ history ≡ xs ++ s ∷ history
snoc-append [] history s = refl
snoc-append (x ∷ xs) history s = ap (λ ys. x ∷ ys) (snoc-append xs history s)

snoc-is_some : (xs : List BoothStatus) (s : BoothStatus) → is_empty (xs ++ s ∷ []) ≡ false
snoc-is_some [] s = refl
snoc-is_some (x ∷ xs) s = refl

joined-StandsFor :
    (p s : BoothStatus) (run : List BoothStatus)
    → StandsFor p run
    → is_same_status p s ≡ true
    → StandsFor (joined p s) (run ++ s ∷ [])
unfolding joined is_same_status
joined-StandsFor p s run h e = (
  snoc-is_some run s,
  All-snoc (λ y. is_same_status p y ≡ true) run s h.1 e,
  omega (arith, h.2, sum-snoc run s),
)

begun-StandsFor : (s : BoothStatus) → StandsFor (begun s) (s ∷ [])
unfolding begun
begun-StandsFor s = (refl, (is_same_status_self s, tt), omega arith)

collapse_onto-IsCollapsed :
    (p : BoothStatus) (run history : List BoothStatus)
    → StandsFor p run
    → IsCollapsed (run ++ history) (collapse_onto p history)
unfolding collapse_onto
collapse_onto-IsCollapsed p run [] h = a_run p run h nothing
collapse_onto-IsCollapsed p run (s ∷ history) h = elim (Bool-cases (is_same_status p s)) [
  | inl e ↦
      rw (collapse_onto, e)
        (subst (λ ss. IsCollapsed ss (collapse_onto (joined p s) history))
          (snoc-append run history s)
          (collapse_onto-IsCollapsed (joined p s) (run ++ s ∷ []) history
            (joined-StandsFor p s run h e)))
  | inr e ↦
      rw (collapse_onto, e)
        (a_run p run h (collapse_onto-IsCollapsed (begun s) (s ∷ []) history (begun-StandsFor s)))
]

-- A collapsed history has an entry for each run of reports of one status, which counts them all: no
-- two neighbours are of the same status, so that the runs are as long as can be, and collapsing it
-- again changes nothing.
pub collapse_status_history_lem :
    (history : List BoothStatus)
    → let collapsed = collapse_status_history history in
      IsCollapsed history collapsed
      × (sum_by repeat_count_of collapsed ≡ sum_by repeat_count_of history)
      × AreDifferent collapsed
      × (collapse_status_history collapsed ≡ collapsed)
unfolding collapse_status_history begun
collapse_status_history_lem [] = (nothing, refl, tt, refl)
collapse_status_history_lem (s ∷ history) =
    let different = collapse_onto-AreDifferent (begun s) history in
    (
      collapse_onto-IsCollapsed (begun s) (s ∷ []) history (begun-StandsFor s),
      collapse_onto-total (begun s) history,
      different,
      collapse_status_history-same (collapse_onto (begun s) history) different
          (collapse_onto-IsBegun (begun s) history refl),
    )
