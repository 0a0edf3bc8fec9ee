-- ===== src/Status/Beats.antt =====
-- packages/api/src/routes/status.ts, `PUT /`: each report is counted once, whether it is folded into a
-- run or starts one.
use text.Mathlib.TextEquality.{eq_iff}
use telephone_booth_operator.Common.{
  refl, String, ==?_iff, ℕ, ◌≡◌, ap, Bool, true, Option, none, some, List, ◌==◌, sum_by, arith,
  Bool-cases, Option-cases, inl, inr, subst,
}
use telephone_booth_operator.Status.{
  StatusSnapshot, StatusUpdate, same_text, is_repeat_of, repeat_in, run_of, enclosing, successor,
}

abbrev pub has_snapshot_id : ℕ → StatusSnapshot → Bool
has_snapshot_id i s = s.id == i

abbrev pub beats : List StatusSnapshot → ℕ
beats ss = sum_by (λ s. s.repeat_count) ss

repeat_in-same :
    (u : StatusUpdate) (o : Option StatusSnapshot) (s : StatusSnapshot)
    → repeat_in u o ≡ some s
    → (o ≡ some s) × (is_repeat_of s u ≡ true)
unfolding repeat_in
repeat_in-same u none s h = ground arith
repeat_in-same u (some x) s h = elim (Bool-cases (is_repeat_of x u)) [
  | inl k ↦ let same : x ≡ s = ground (arith, h, k) in (ap some same, ground (arith, k, same))
  | inr k ↦ ground (arith, h, k)
]

same_text-equal : (a b : Option String) → same_text a b ≡ true → a ≡ b
unfolding same_text
same_text-equal none none h = refl
same_text-equal none (some b) h = ground (arith, h)
same_text-equal (some a) none h = ground (arith, h)
same_text-equal (some a) (some b) h = ap some ((eq_iff a b).0 h)

-- The row has what the report says.
pub record Reports (u : StatusUpdate) (s : StatusSnapshot) : Type 0 where
  pub state : s.state ≡ u.state
  pub question : s.current_question_id ≡ u.current_question_id
  pub message : s.current_message_id ≡ u.current_message_id
  pub error : s.last_error ≡ u.last_error
  pub mode : s.runtime_mode ≡ u.runtime_mode

is_repeat_of-Reports :
    (s : StatusSnapshot) (u : StatusUpdate) → is_repeat_of s u ≡ true → Reports u s
unfolding is_repeat_of
is_repeat_of-Reports s u h = record {
  state = (eq_iff s.state u.state).0 (ground (arith, h));
  question = (==?_iff s.current_question_id u.current_question_id).0 (ground (arith, h));
  message = (==?_iff s.current_message_id u.current_message_id).0 (ground (arith, h));
  error = same_text-equal s.last_error u.last_error (ground (arith, h));
  mode = same_text-equal s.runtime_mode u.runtime_mode (ground (arith, h));
}

-- The run that a report is folded into is one that the report repeats.
pub run_of-Reports :
    (e t : ℕ) (u : StatusUpdate) (ss : List StatusSnapshot) (run : StatusSnapshot)
    → run_of e t u ss ≡ some run
    → Reports u run
unfolding run_of enclosing successor
run_of-Reports e t u ss run h = elim (Option-cases (repeat_in u (enclosing e t ss))) [
  | inr (s, k) ↦
      let same : s ≡ run = ground (arith, h, k) in
      let (found, repeats) = repeat_in-same u (enclosing e t ss) s k in
      subst (Reports u) same (is_repeat_of-Reports s u repeats)
  | inl k ↦
      let (found, repeats) = repeat_in-same u (successor e t ss) run (ground (arith, h, k)) in
      is_repeat_of-Reports run u repeats
]
