-- ===== src/Common/Lists.antt =====
-- Lists measured and indexed by native numbers, under the library's names, and predicates on them
-- by recursion.
use Prim.Native.Nat.{ℕ, zero, suc, ◌+◌}
use mathlib.Core.Path.{◌≡◌, refl, subst, sym}
use mathlib.Core.Logic.{◌≢◌}
use mathlib.Core.Bool.{Bool, true, false}
use mathlib.Core.List.{List, [], ◌∷◌, ◌++◌}
use mathlib.Core.Option.{Option, none, some}
use native.Mathlib.Omega.{arith}

module _ {ℓ} {A : Type ℓ} where
  abbrev pub length : List A → ℕ
  length [] = 0
  length (x ∷ xs) = suc (length xs)

  abbrev pub get_or : List A → ℕ → A → A
  get_or [] i d = d
  get_or (x ∷ xs) zero d = x
  get_or (x ∷ xs) (suc i) d = get_or xs i d

  -- A write out of bounds changes nothing.
  abbrev pub set : List A → ℕ → A → List A
  set [] i v = []
  set (x ∷ xs) zero v = v ∷ xs
  set (x ∷ xs) (suc i) v = x ∷ set xs i v

  abbrev pub take : ℕ → List A → List A
  take zero xs = []
  take (suc n) [] = []
  take (suc n) (x ∷ xs) = x ∷ take n xs

  abbrev pub drop : ℕ → List A → List A
  drop zero xs = xs
  drop (suc n) [] = []
  drop (suc n) (x ∷ xs) = drop n xs

  abbrev pub is_nil : List A → Bool
  is_nil [] = true
  is_nil (x ∷ xs) = false

  -- The last element, if there is one.
  abbrev pub last? : List A → Option A
  last? [] = none
  last? (x ∷ []) = some x
  last? (x ∷ y ∷ xs) = last? (y ∷ xs)

  pub length-append : (xs ys : List A) → length (xs ++ ys) ≡ length xs + length ys
  length-append [] ys = omega arith
  length-append (x ∷ xs) ys = omega (arith, length-append xs ys)

  pub last?-snoc : (xs : List A) (a : A) → last? (xs ++ a ∷ []) ≡ some a
  last?-snoc [] a = refl
  last?-snoc (x ∷ []) a = refl
  last?-snoc (x ∷ y ∷ xs) a = last?-snoc (y ∷ xs) a

  -- Every element of the list has the property.
  abbrev pub All {κ} : (A → Type κ) → List A → Type κ
  All P [] = Unit
  All P (x ∷ xs) = P x × All P xs

  pub All-append {κ} : (P : A → Type κ) (xs ys : List A) → All P xs → All P ys → All P (xs ++ ys)
  All-append P [] ys h k = k
  All-append P (x ∷ xs) ys h k = (h.0, All-append P xs ys h.1 k)

  pub All-map {κ μ} :
      (P : A → Type κ) (Q : A → Type μ) (xs : List A) → ((x : A) → P x → Q x) → All P xs → All Q xs
  All-map P Q [] f h = tt
  All-map P Q (x ∷ xs) f h = (f x h.0, All-map P Q xs f h.1)

  pub All-and {κ μ} :
      (P : A → Type κ) (Q : A → Type μ) (xs : List A)
      → All P xs
      → All Q xs
      → All (λ x. P x × Q x) xs
  All-and P Q [] h k = tt
  All-and P Q (x ∷ xs) h k = ((h.0, k.0), All-and P Q xs h.1 k.1)

  -- No two elements of the list are equal.
  abbrev pub Distinct : List A → Type ℓ
  Distinct [] = Unit
  Distinct (x ∷ xs) = All (λ y. y ≢ x) xs × Distinct xs

  pub Distinct-snoc :
      (xs : List A) (a : A) → Distinct xs → All (λ y. a ≢ y) xs → Distinct (xs ++ a ∷ [])
  Distinct-snoc [] a h k = (tt, tt)
  Distinct-snoc (x ∷ xs) a h k =
      (All-append _ xs (a ∷ []) h.0 (k.0, tt), Distinct-snoc xs a h.1 k.1)

  -- What is unequal to every element is not the last one.
  pub last?-ne : (x t : A) (xs : List A) → All (λ y. y ≢ x) xs → last? xs ≡ some t → t ≢ x
  last?-ne x t [] h l = cc
  last?-ne x t (y ∷ []) h l = λ e. h.0 (cc)
  last?-ne x t (y ∷ z ∷ xs) h l = last?-ne x t (z ∷ xs) h.1 l

  -- The elements but one.
  pub All-weaken {κ} :
      (P Q : A → Type κ) (xs : List A) (a : A)
      → ((x : A) → x ≢ a → P x → Q x)
      → All (λ y. y ≢ a) xs
      → All P xs
      → All Q xs
  All-weaken P Q [] a f n h = tt
  All-weaken P Q (x ∷ xs) a f n h = (f x n.0 h.0, All-weaken P Q xs a f n.1 h.1)

  pub last?-All {κ} : (P : A → Type κ) (t : A) (xs : List A) → All P xs → last? xs ≡ some t → P t
  last?-All P t [] h l = cc
  last?-All P t (y ∷ []) h l = subst P (cc) h.0
  last?-All P t (y ∷ z ∷ xs) h l = last?-All P t (z ∷ xs) h.1 l

  pub last?-cons : (x : A) (xs : List A) → (t : A) × (last? (x ∷ xs) ≡ some t)
  last?-cons x [] = (x, refl)
  last?-cons x (y ∷ xs) = last?-cons y xs

  pub last?-append : (xs : List A) (y : A) (ys : List A) → last? (xs ++ y ∷ ys) ≡ last? (y ∷ ys)
  last?-append [] y ys = refl
  last?-append (x ∷ []) y ys = refl
  last?-append (x ∷ z ∷ xs) y ys = last?-append (z ∷ xs) y ys

  -- What a property says of a list holds of the list without one of its elements.
  pub All-without {κ} :
      (P : A → Type κ) (xs : List A) (a : A) (ys : List A) → All P (xs ++ a ∷ ys) → All P (xs ++ ys)
  All-without P [] a ys h = h.1
  All-without P (x ∷ xs) a ys h = (h.0, All-without P xs a ys h.1)

  pub All-middle {κ} :
      (P : A → Type κ) (xs : List A) (a : A) (ys : List A) → All P (xs ++ a ∷ ys) → P a
  All-middle P [] a ys h = h.0
  All-middle P (x ∷ xs) a ys h = All-middle P xs a ys h.1

  pub Distinct-without :
      (xs : List A) (a : A) (ys : List A) → Distinct (xs ++ a ∷ ys) → Distinct (xs ++ ys)
  Distinct-without [] a ys d = d.1
  Distinct-without (x ∷ xs) a ys d = (All-without _ xs a ys d.0, Distinct-without xs a ys d.1)

  -- The element that is taken out is not among the rest.
  pub Distinct-apart :
      (xs : List A) (a : A) (ys : List A) → Distinct (xs ++ a ∷ ys) → All (λ y. y ≢ a) (xs ++ ys)
  Distinct-apart [] a ys d = d.0
  Distinct-apart (x ∷ xs) a ys d =
      ((λ e. All-middle _ xs a ys d.0 (sym e)), Distinct-apart xs a ys d.1)

  pub All-left {κ} : (P : A → Type κ) (xs ys : List A) → All P (xs ++ ys) → All P xs
  All-left P [] ys h = tt
  All-left P (x ∷ xs) ys h = (h.0, All-left P xs ys h.1)

  pub All-right {κ} : (P : A → Type κ) (xs ys : List A) → All P (xs ++ ys) → All P ys
  All-right P [] ys h = h
  All-right P (x ∷ xs) ys h = All-right P xs ys h.1

  pub Distinct-left : (xs ys : List A) → Distinct (xs ++ ys) → Distinct xs
  Distinct-left [] ys d = tt
  Distinct-left (x ∷ xs) ys d = (All-left _ xs ys d.0, Distinct-left xs ys d.1)

  pub Distinct-right : (xs ys : List A) → Distinct (xs ++ ys) → Distinct ys
  Distinct-right [] ys d = d
  Distinct-right (x ∷ xs) ys d = Distinct-right xs ys d.1

  -- An element on the right is none of those on the left.
  pub Distinct-back : (xs ys : List A) → Distinct (xs ++ ys) → All (λ y. All (λ x. x ≢ y) xs) ys
  Distinct-back [] ys d = All-true ys
    where
      All-true : (ys : List A) → All (λ y. Unit {ℓ}) ys
      All-true [] = tt
      All-true (y ∷ ys) = (tt, All-true ys)
  Distinct-back (x ∷ xs) ys d =
      All-map _ _ ys (λ y p. ((λ e. p.0 (sym e)), p.1))
        (All-and _ _ ys (All-right _ xs ys d.0) (Distinct-back xs ys d.1))

  -- An element on the left is none of those on the right.
  pub Distinct-across : (xs ys : List A) → Distinct (xs ++ ys) → All (λ x. All (λ y. y ≢ x) ys) xs
  Distinct-across [] ys d = tt
  Distinct-across (x ∷ xs) ys d = (All-right _ xs ys d.0, Distinct-across xs ys d.1)
