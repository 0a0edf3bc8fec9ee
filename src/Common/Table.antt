-- ===== src/Common/Table.antt =====
-- A database table as the list of its rows, and the queries that the code makes of one.
use Prim.Native.Nat.{ℕ, ◌+◌, ◌≤◌}
use mathlib.Core.Path.{◌≡◌, refl}
use mathlib.Core.Bool.{Bool, true, false, not}
use mathlib.Core.Logic.{inl, inr}
use mathlib.Core.Option.{Option, none, some}
use mathlib.Core.List.{List, [], ◌∷◌, ◌++◌}
use native.Mathlib.Omega.{arith}
use telephone_booth_operator.Common.Tests.{if◌then◌else◌, leb, Bool-cases, Option-cases}
use telephone_booth_operator.Common.Lists.{All, any, filter, length}

module _ {ℓ} {A : Type ℓ} where
  -- `updateMany({ where, data })`.
  abbrev pub update_many : (A → Bool) → (A → A) → List A → List A
  update_many p f [] = []
  update_many p f (x ∷ xs) = (if p x then f x else x) ∷ update_many p f xs

  -- `count({ where })`.
  abbrev pub count : (A → Bool) → List A → ℕ
  count p [] = 0
  count p (x ∷ xs) = (if p x then 1 else 0) + count p xs

  -- `findUnique({ where })` and `findFirst({ where })` without an order.
  abbrev pub find_first : (A → Bool) → List A → Option A
  find_first p [] = none
  find_first p (x ∷ xs) = let rest = find_first p xs in if p x then some x else rest

  -- `deleteMany({ where })`.
  abbrev pub delete_many : (A → Bool) → List A → List A
  delete_many p xs = filter (λ x. not (p x)) xs

  -- `findFirst({ where, orderBy: { key: "desc" } })`: a matching row with the greatest key.
  abbrev later_of : (A → ℕ) → A → Option A → Option A
  later_of key x none = some x
  later_of key x (some y) = if leb (key y) (key x) then some x else some y

  abbrev pub find_latest : (A → Bool) → (A → ℕ) → List A → Option A
  find_latest p key [] = none
  find_latest p key (x ∷ xs) =
      let rest = find_latest p key xs in if p x then later_of key x rest else rest

  pub find_first-holds :
      (p : A → Bool) (xs : List A) (x : A) → find_first p xs ≡ some x → p x ≡ true
  find_first-holds p [] x h = ground arith
  find_first-holds p (y ∷ xs) x h = ground (arith, find_first-holds p xs x)

  pub find_latest-holds :
      (p : A → Bool) (key : A → ℕ) (xs : List A) (x : A)
      → find_latest p key xs ≡ some x
      → p x ≡ true
  find_latest-holds p key [] x h = ground arith
  find_latest-holds p key (y ∷ xs) x h = elim (Option-cases (find_latest p key xs)) [
    | inl e ↦ ground arith
    | inr (z, e) ↦ ground (arith, find_latest-holds p key xs z e)
  ]

  pub count-update_many :
      (q p : A → Bool) (f : A → A) (xs : List A)
      → ((x : A) → p x ≡ true → q (f x) ≡ q x)
      → count q (update_many p f xs) ≡ count q xs
  count-update_many q p f [] h = refl
  count-update_many q p f (x ∷ xs) h = ground (arith, h x, count-update_many q p f xs h)

  -- Rows that an update neither matches nor brings in keep their place among the matching ones.
  pub filter-update_many :
      (q p : A → Bool) (f : A → A) (xs : List A)
      → ((x : A) → p x ≡ true → (q x ≡ false) × (q (f x) ≡ false))
      → filter q (update_many p f xs) ≡ filter q xs
  filter-update_many q p f [] h = refl
  filter-update_many q p f (x ∷ xs) h = ground (arith, h x, filter-update_many q p f xs h)

  pub filter-delete_many :
      (q p : A → Bool) (xs : List A)
      → ((x : A) → p x ≡ true → q x ≡ false)
      → filter q (delete_many p xs) ≡ filter q xs
  filter-delete_many q p [] h = refl
  filter-delete_many q p (x ∷ xs) h = ground (arith, h x, filter-delete_many q p xs h)

  pub count-eq-length-filter : (p : A → Bool) (xs : List A) → count p xs ≡ length (filter p xs)
  count-eq-length-filter p [] = refl
  count-eq-length-filter p (x ∷ xs) = ground (arith, count-eq-length-filter p xs)

  pub All-update_many {κ} :
      (P : A → Type κ) (p : A → Bool) (f : A → A) (xs : List A)
      → ((x : A) → P x → p x ≡ true → P (f x))
      → All P xs
      → All P (update_many p f xs)
  All-update_many P p f [] h a = tt
  All-update_many P p f (x ∷ xs) h a = elim (Bool-cases (p x)) [
    | inl e ↦ rw e (h x a.0 e, All-update_many P p f xs h a.1)
    | inr e ↦ rw e (a.0, All-update_many P p f xs h a.1)
  ]

  pub any-snoc_true :
      (p : A → Bool) (xs : List A) (x : A) → p x ≡ true → any p (xs ++ x ∷ []) ≡ true
  any-snoc_true p [] x h = ground arith
  any-snoc_true p (y ∷ xs) x h = ground (arith, any-snoc_true p xs x h)

  pub count-append : (p : A → Bool) (xs ys : List A) → count p (xs ++ ys) ≡ count p xs + count p ys
  count-append p [] ys = omega arith
  count-append p (x ∷ xs) ys = omega (arith, count-append p xs ys)

  pub find_latest-none :
      (p : A → Bool) (key : A → ℕ) (xs : List A) → find_latest p key xs ≡ none → count p xs ≡ 0
  find_latest-none p key [] h = refl
  find_latest-none p key (x ∷ xs) h = elim (Option-cases (find_latest p key xs)) [
    | inl e ↦ ground (arith, find_latest-none p key xs e)
    | inr (y, e) ↦ ground arith
  ]

  -- A row added to rows that do not match is the one that a query finds.
  pub find_latest-append :
      (p : A → Bool) (key : A → ℕ) (xs : List A) (x : A)
      → count p xs ≡ 0
      → p x ≡ true
      → find_latest p key (xs ++ x ∷ []) ≡ some x
  find_latest-append p key [] x h e = ground arith
  find_latest-append p key (y ∷ xs) x h e = ground (arith, find_latest-append p key xs x)

  pub find_latest-count :
      (p q : A → Bool) (key : A → ℕ) (xs : List A) (x : A)
      → find_latest p key xs ≡ some x
      → q x ≡ true
      → 1 ≤ count q xs
  find_latest-count p q key [] x h e = ground arith
  find_latest-count p q key (y ∷ xs) x h e = elim (Option-cases (find_latest p key xs)) [
    | inl k ↦ ground arith
    | inr (z, k) ↦ ground (arith, find_latest-count p q key xs z k)
  ]
