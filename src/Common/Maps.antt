-- ===== src/Common/Maps.antt =====
-- Arrays of the source as functions from their index, and lists that are linked through such an
-- array: `Chain next head xs` says that following `next` from `head` meets exactly `xs`.
use Prim.Native.Nat.{ℕ}
use mathlib.Core.Path.{◌≡◌, sym, refl}
use mathlib.Core.Logic.{◌≢◌}
use mathlib.Core.List.{List, [], ◌∷◌, ◌++◌}
use mathlib.Core.Option.{Option, none, some}
use native.Mathlib.Omega.{arith}
use ubiqos.Common.Tests.{◌==◌, if◌then◌else◌}
use ubiqos.Common.Lists.{
  All, Distinct, last?, last?-ne, All-map, All-and, last?-cons, All-middle, All-left,
}

module _ {ℓ} {A : Type ℓ} where
  -- The array `f` after `f[k] = v`.
  abbrev pub put : (ℕ → A) → ℕ → A → ℕ → A
  put f k v j = if j == k then v else f j

abbrev pub Chain : (ℕ → Option ℕ) → Option ℕ → List ℕ → Type 0
Chain next head [] = head ≡ none
Chain next head (x ∷ xs) = (head ≡ some x) × Chain next (next x) xs

-- The head that a chain has when its first element, or one behind `last? xs`, is taken out.
abbrev pub head_without : Option ℕ → Option ℕ → Option ℕ → Option ℕ
head_without none head next = next
head_without (some q) head next = head

-- A chain sees only the links of its own elements.
pub Chain-cong :
    (next other : ℕ → Option ℕ) (head : Option ℕ) (xs : List ℕ)
    → All (λ x. other x ≡ next x) xs
    → Chain next head xs
    → Chain other head xs
Chain-cong next other head [] same h = h
Chain-cong next other head (x ∷ xs) same h =
    (h.0, Chain-cong next other (other x) xs same.1 (rw same.0 h.1))

-- Linking `a` behind the last element of a chain appends it.
pub Chain-snoc :
    (next other : ℕ → Option ℕ) (head : Option ℕ) (xs : List ℕ) (a t : ℕ)
    → Chain next head xs
    → Distinct xs
    → last? xs ≡ some t
    → All (λ x. a ≢ x) xs
    → other a ≡ none
    → other t ≡ some a
    → ((x : ℕ) → x ≢ a → x ≢ t → other x ≡ next x)
    → Chain other head (xs ++ a ∷ [])
Chain-snoc next other head [] a t h d l fresh oa ot keep = cc
Chain-snoc next other head (x ∷ []) a t h d l fresh oa ot keep =
    let e : x ≡ t = ground arith in (h.0, rw e (ot, oa))
Chain-snoc next other head (x ∷ y ∷ xs) a t h d l fresh oa ot keep = (
  h.0,
  rw (keep x (λ e. fresh.0 (sym e)) (λ e. last?-ne x t (y ∷ xs) d.0 l (sym e)))
      (Chain-snoc next other (next x) (y ∷ xs) a t h.1 d.1 l fresh.1 oa ot keep),
)

-- Taking `a` out of a chain: what stood before it is linked to what stood behind it.
pub Chain-without :
    (next other : ℕ → Option ℕ) (head : Option ℕ) (xs : List ℕ) (a : ℕ) (ys : List ℕ)
    → Chain next head (xs ++ a ∷ ys)
    → Distinct (xs ++ a ∷ ys)
    → ((q : ℕ) → last? xs ≡ some q → other q ≡ next a)
    → ((x : ℕ) → x ≢ a → last? xs ≢ some x → other x ≡ next x)
    → Chain other (head_without (last? xs) head (next a)) (xs ++ ys)
Chain-without next other head [] a ys h d link keep =
    Chain-cong next other (next a) ys (All-map _ _ ys (λ x ne. keep x ne (λ e. cc)) d.0) h.1
Chain-without next other head (x ∷ []) a ys h d link keep = (
  h.0,
  rw (link x refl) (
      Chain-cong next other (next a) ys
        (All-map _ _ ys (λ y ne. keep y ne.0 (λ e. ne.1 (cc))) (All-and _ _ ys d.1.0 d.0.1)) h.1.1),
)
Chain-without next other head (x ∷ y ∷ xs) a ys h d link keep =
    let r : Chain other (head_without (last? (y ∷ xs)) (next x) (next a)) (y ∷ xs ++ ys) =
      Chain-without next other (next x) (y ∷ xs) a ys h.1 d.1 link keep in
    let (t, e) = last?-cons y xs in
    (
      rw e h.0,
      rw
          (keep x (λ i. All-middle _ (y ∷ xs) a ys d.0 (sym i))
            (λ i. last?-ne x x (y ∷ xs) (All-left _ (y ∷ xs) (a ∷ ys) d.0) i refl))
          (rw (e, head_without) at r),
    )

-- Where a loop that follows the links stands behind, when it has passed `xs`.
abbrev pub behind : Option ℕ → List ℕ → Option ℕ
behind prev [] = prev
behind prev (x ∷ xs) = behind (some x) xs

pub behind-last? : (xs : List ℕ) → behind none xs ≡ last? xs
behind-last? [] = refl
behind-last? (x ∷ xs) = go x xs
  where
    go : (x : ℕ) (xs : List ℕ) → behind (some x) xs ≡ last? (x ∷ xs)
    go x [] = refl
    go x (y ∷ ys) = go y ys
