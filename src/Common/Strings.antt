-- ===== src/Common/Strings.antt =====
-- A text as the list of its characters' codes, with the methods of String.prototype that the code
-- calls on one.
use Prim.Native.Nat.{ℕ, zero, suc}
use mathlib.Core.Path.{◌≡◌, refl, ap}
use mathlib.Core.Logic.{◌↔◌, inl, inr}
use mathlib.Core.Bool.{Bool, true, false, ◌&&◌}
use mathlib.Core.Option.{Option, none, some}
use mathlib.Core.List.{List, [], ◌∷◌, ◌++◌}
use native.Mathlib.Omega.{arith}
use telephone_booth_operator.Common.Tests.{
  ◌==◌, ==_refl, if◌then◌else◌, or_else, Bool-cases, Option-cases,
}
use telephone_booth_operator.Common.Lists.{length, any, take, drop}

abbrev pub Text : Type 0
Text = List ℕ

abbrev pub text_eq : Text → Text → Bool
text_eq [] [] = true
text_eq (c ∷ s) (d ∷ t) = c == d && text_eq s t
text_eq _ _ = false

pub text_eq_iff : (s t : Text) → (text_eq s t ≡ true) ↔ (s ≡ t)
text_eq_iff [] [] = ground arith
text_eq_iff [] (d ∷ t) = ground arith
text_eq_iff (c ∷ s) [] = ground arith
text_eq_iff (c ∷ s) (d ∷ t) = ground (arith, text_eq_iff s t)

abbrev pub contains : ℕ → Text → Bool
contains c s = any (λ d. d == c) s

-- One place further on.
abbrev pub further : Option ℕ → Option ℕ
further none = none
further (some n) = some (suc n)

-- `indexOf` and `lastIndexOf` of one character, where none is -1.
abbrev pub index_of : ℕ → Text → Option ℕ
index_of c [] = none
index_of c (d ∷ s) = let rest = index_of c s in if d == c then some 0 else further rest

abbrev pub last_index_of : ℕ → Text → Option ℕ
last_index_of c [] = none
last_index_of c (d ∷ s) =
    let rest = further (last_index_of c s) in or_else rest (if d == c then some 0 else none)

pub take-length-append : (s t : Text) → take (length s) (s ++ t) ≡ s
take-length-append [] t = refl
take-length-append (c ∷ s) t = ap (λ u. c ∷ u) (take-length-append s t)

pub drop-length-append : (s t : Text) (c : ℕ) → drop (suc (length s)) (s ++ c ∷ t) ≡ t
drop-length-append [] t c = refl
drop-length-append (d ∷ s) t c = drop-length-append s t c

pub index_of-append :
    (c : ℕ) (s t : Text) → contains c s ≡ false → index_of c (s ++ c ∷ t) ≡ some (length s)
index_of-append c [] t h = ground arith
index_of-append c (d ∷ s) t h = ground (arith, index_of-append c s t)

last_index_of-none : (c : ℕ) (s : Text) → contains c s ≡ false → last_index_of c s ≡ none
last_index_of-none c [] h = refl
last_index_of-none c (d ∷ s) h = ground (arith, last_index_of-none c s)

pub last_index_of-append :
    (c : ℕ) (s t : Text) → contains c t ≡ false → last_index_of c (s ++ c ∷ t) ≡ some (length s)
last_index_of-append c [] t h = ground (arith, last_index_of-none c t h)
last_index_of-append c (d ∷ s) t h = ground (arith, last_index_of-append c s t h)

-- The text around a separator that was found.
pub index_of-split :
    (c : ℕ) (s : Text) (n : ℕ) → index_of c s ≡ some n → s ≡ take n s ++ c ∷ drop (suc n) s
index_of-split c [] n h = ground arith
index_of-split c (d ∷ s) zero h = elim (Bool-cases (d == c)) [
  | inl e ↦ ground (arith, e)
  | inr e ↦ elim (Option-cases (index_of c s)) [ inl k ↦ ground arith | inr (m, k) ↦ ground arith ]
]
index_of-split c (d ∷ s) (suc n) h = elim (Bool-cases (d == c)) [
  | inl e ↦ ground arith
  | inr e ↦ elim (Option-cases (index_of c s)) [
    | inl k ↦ ground arith
    | inr (m, k) ↦ ap (λ u. d ∷ u) (index_of-split c s n (ground arith))
  ]
]

pub last_index_of-split :
    (c : ℕ) (s : Text) (n : ℕ) → last_index_of c s ≡ some n → s ≡ take n s ++ c ∷ drop (suc n) s
last_index_of-split c [] n h = ground arith
last_index_of-split c (d ∷ s) zero h = elim (Option-cases (last_index_of c s)) [
  | inl k ↦ ground arith
  | inr (m, k) ↦ ground arith
]
last_index_of-split c (d ∷ s) (suc n) h = elim (Option-cases (last_index_of c s)) [
  | inl k ↦ ground arith
  | inr (m, k) ↦ ap (λ u. d ∷ u) (last_index_of-split c s n (ground arith))
]

-- `split(c)`: the parts, of which there is at least one.
abbrev pub split : ℕ → Text → Text × List Text
split c [] = ([], [])
split c (d ∷ s) =
    let (head, tail) = split c s in if d == c then ([], head ∷ tail) else (d ∷ head, tail)

pub split-append :
    (c : ℕ) (s t : Text)
    → contains c s ≡ false
    → split c (s ++ c ∷ t) ≡ (s, (split c t).0 ∷ (split c t).1)
split-append c [] t h = rw (==_refl c) refl
split-append c (d ∷ s) t h = ground (arith, split-append c s t)

pub split-whole : (c : ℕ) (s : Text) → contains c s ≡ false → split c s ≡ (s, [])
split-whole c [] h = refl
split-whole c (d ∷ s) h = ground (arith, split-whole c s)

-- The text on the two sides of a separator, where something stands before it.
abbrev pub around : Text → Option ℕ → Option (Text × Text)
around s (some (suc n)) = some (take (suc n) s, drop (suc (suc n)) s)
around s _ = none

pub around-index_of :
    (c d : ℕ) (s t : Text)
    → contains c (d ∷ s) ≡ false
    → around (d ∷ s ++ c ∷ t) (index_of c (d ∷ s ++ c ∷ t)) ≡ some (d ∷ s, t)
around-index_of c d s t h =
    rw (index_of-append c (d ∷ s) t h, take-length-append s (c ∷ t), drop-length-append s t c) refl

pub around-last_index_of :
    (c d : ℕ) (s t : Text)
    → contains c t ≡ false
    → around (d ∷ s ++ c ∷ t) (last_index_of c (d ∷ s ++ c ∷ t)) ≡ some (d ∷ s, t)
around-last_index_of c d s t h =
    rw (last_index_of-append c (d ∷ s) t h, take-length-append s (c ∷ t), drop-length-append s t c)
      refl

pub around-split :
    (c : ℕ) (s p t : Text) → around s (last_index_of c s) ≡ some (p, t) → s ≡ p ++ c ∷ t
around-split c s p t h = elim (Option-cases (last_index_of c s)) [
  | inl e ↦ ground arith
  | inr (zero, e) ↦ ground arith
  | inr (suc n, e) ↦ ground (arith, last_index_of-split c s (suc n) e)
]
