-- ===== src/Base/Lists.antt =====
-- Lists under Boolean tests, measured by native numbers, and predicates on all their items.
use Prim.Native.Nat.{ℕ, zero, suc, ◌+◌, ◌≤◌, min}
use Prim.Native.String.{String}
use mathlib.Core.Path.{◌≡◌, refl, ap}
use mathlib.Core.Logic.{inl, inr}
use mathlib.Core.Bool.{Bool, true, false, ◌&&◌, ◌||◌}
use mathlib.Core.List.{List, [], ◌∷◌, ◌++◌, map}
use mathlib.Core.Option.{Option, none, some}
use native.Mathlib.Omega.{arith}
use amazon_research_agent.Base.Tests.{if◌then◌else◌, str_eq, Bool-cases}

module _ {ℓ} {A : Type ℓ} where
  abbrev pub length : List A → ℕ
  length [] = 0
  length (x ∷ xs) = suc (length xs)

  abbrev pub take : ℕ → List A → List A
  take zero xs = []
  take (suc n) [] = []
  take (suc n) (x ∷ xs) = x ∷ take n xs

  abbrev pub head? : List A → Option A
  head? [] = none
  head? (x ∷ xs) = some x

  -- `Array.prototype.filter`, `some` and `every`.
  abbrev pub filter : (A → Bool) → List A → List A
  filter p [] = []
  filter p (x ∷ xs) = let rest = filter p xs in if p x then x ∷ rest else rest

  abbrev pub any : (A → Bool) → List A → Bool
  any p [] = false
  any p (x ∷ xs) = p x || any p xs

  abbrev pub all : (A → Bool) → List A → Bool
  all p [] = true
  all p (x ∷ xs) = p x && all p xs

  abbrev pub is_empty : List A → Bool
  is_empty [] = true
  is_empty (x ∷ xs) = false

  pub length-append : (xs ys : List A) → length (xs ++ ys) ≡ length xs + length ys
  length-append [] ys = omega arith
  length-append (x ∷ xs) ys = omega (arith, length-append xs ys)

  pub length-take : (n : ℕ) (xs : List A) → length (take n xs) ≡ min n (length xs)
  length-take zero xs = omega arith
  length-take (suc n) [] = omega arith
  length-take (suc n) (x ∷ xs) = omega (arith, length-take n xs)

  pub length-filter : (p : A → Bool) (xs : List A) → length (filter p xs) ≤ length xs
  length-filter p [] = omega arith
  length-filter p (x ∷ xs) = ground (arith, length-filter p xs)

-- A predicate on all items computes to a tuple.
abbrev pub All {ℓ κ} : {A : Type ℓ} → (A → Type κ) → List A → Type κ
All P [] = Unit
All P (x ∷ xs) = P x × All P xs

module _ {ℓ κ} {A : Type ℓ} (P : A → Type κ) where
  pub All-append : (xs ys : List A) → All P xs → All P ys → All P (xs ++ ys)
  All-append [] ys hx hy = hy
  All-append (x ∷ xs) ys hx hy = (hx.0, All-append xs ys hx.1 hy)

  pub All-take : (n : ℕ) (xs : List A) → All P xs → All P (take n xs)
  All-take zero xs h = tt
  All-take (suc n) [] h = tt
  All-take (suc n) (x ∷ xs) h = (h.0, All-take n xs h.1)

  pub All-filter_of_All : (p : A → Bool) (xs : List A) → All P xs → All P (filter p xs)
  All-filter_of_All p [] h = tt
  All-filter_of_All p (x ∷ xs) h = elim (Bool-cases (p x)) [
    | inl e ↦ rw e (h.0, All-filter_of_All p xs h.1)
    | inr e ↦ rw e (All-filter_of_All p xs h.1)
  ]

  pub All-of_filter :
      (p : A → Bool) → ((x : A) → p x ≡ true → P x) → (xs : List A) → All P (filter p xs)
  All-of_filter p h [] = tt
  All-of_filter p h (x ∷ xs) = elim (Bool-cases (p x)) [
    | inl e ↦ rw e (h x e, All-of_filter p h xs)
    | inr e ↦ rw e (All-of_filter p h xs)
  ]

  pub All-of_pointwise : ((x : A) → P x) → (xs : List A) → All P xs
  All-of_pointwise h [] = tt
  All-of_pointwise h (x ∷ xs) = (h x, All-of_pointwise h xs)

module _ {ℓ κ κ'} {A : Type ℓ} {P : A → Type κ} {Q : A → Type κ'} where
  pub All-map : ((x : A) → P x → Q x) → (xs : List A) → All P xs → All Q xs
  All-map f [] h = tt
  All-map f (x ∷ xs) h = (f x h.0, All-map f xs h.1)

-- `Array.prototype.includes` and `Set.prototype.has` on strings.
unfoldable pub includes : List String → String → Bool
includes [] k = false
includes (x ∷ xs) k = str_eq x k || includes xs k

pub includes-append :
    (xs ys : List String) (k : String) → includes (xs ++ ys) k ≡ (includes xs k || includes ys k)
unfolding includes
includes-append [] ys k = refl
includes-append (x ∷ xs) ys k = ground (arith, includes-append xs ys k)

module _ {ℓ} {A : Type ℓ} where
  pub filter-append :
      (p : A → Bool) (xs ys : List A) → filter p (xs ++ ys) ≡ filter p xs ++ filter p ys
  filter-append p [] ys = refl
  filter-append p (x ∷ xs) ys = ground (arith, filter-append p xs ys)

  pub filter_of_All : (p : A → Bool) (xs : List A) → All (λ x. p x ≡ true) xs → filter p xs ≡ xs
  filter_of_All p [] h = refl
  filter_of_All p (x ∷ xs) h = rw h.0 (ap (λ l. x ∷ l) (filter_of_All p xs h.1))

  -- A test that holds between a chosen item and itself finds it in the list.
  pub All-any_self :
      (q : A → Bool) (r : A → A → Bool)
      → ((x : A) → q x ≡ true → r x x ≡ true)
      → (xs : List A) → All (λ x. q x ≡ true → any (r x) xs ≡ true) xs
  All-any_self q r h [] = tt
  All-any_self q r h (x ∷ xs) = (
    λ e. ground (arith, h x e),
    All-map {P = λ y. q y ≡ true → any (r y) xs ≡ true} (λ y found e. ground (arith, found e)) xs
        (All-any_self q r h xs),
  )

  -- What holds of all that a filter keeps holds of each item of the list that passes its test.
  pub All-of_All-filter {κ} :
      (P : A → Type κ) (p : A → Bool) (xs : List A)
      → All P (filter p xs)
      → All (λ x. p x ≡ true → P x) xs
  All-of_All-filter P p [] h = tt
  All-of_All-filter P p (x ∷ xs) h = elim (Bool-cases (p x)) [
    | inl e ↦
        let h' : All P (x ∷ filter p xs) = rw e at h in (λ _. h'.0, All-of_All-filter P p xs h'.1)
    | inr e ↦
        let h' : All P (filter p xs) = rw e at h in
        (λ t. absurd (cc (e, t)), All-of_All-filter P p xs h')
  ]

  pub All-filter_of_implied {κ} :
      (P : A → Type κ) (p : A → Bool) (xs : List A)
      → All (λ x. p x ≡ true → P x) xs
      → All P (filter p xs)
  All-filter_of_implied P p [] h = tt
  All-filter_of_implied P p (x ∷ xs) h = elim (Bool-cases (p x)) [
    | inl e ↦ rw e (h.0 e, All-filter_of_implied P p xs h.1)
    | inr e ↦ rw e (All-filter_of_implied P p xs h.1)
  ]

module _ {ℓ κ κ'} {A : Type ℓ} (P : A → Type κ) (Q : A → Type κ') where
  pub All-zip : (xs : List A) → All P xs → All Q xs → All (λ x. P x × Q x) xs
  All-zip [] h k = tt
  All-zip (x ∷ xs) h k = ((h.0, k.0), All-zip xs h.1 k.1)

module _ {ℓ κ ι} {A : Type ℓ} {B : Type κ} (f : A → B) (P : B → Type ι) where
  pub All-of_map : (xs : List A) → All (λ x. P (f x)) xs → All P (map f xs)
  All-of_map [] h = tt
  All-of_map (x ∷ xs) h = (h.0, All-of_map xs h.1)

module _ {ℓ κ} {A : Type ℓ} {B : Type κ} where
  pub length-map : (xs : List A) (f : A → B) → length (map f xs) ≡ length xs
  length-map [] f = refl
  length-map (x ∷ xs) f = ap suc (length-map xs f)

  pub filter-map :
      (f : A → B) (p : B → Bool) (xs : List A)
      → filter p (map f xs) ≡ map f (filter (λ x. p (f x)) xs)
  filter-map f p [] = refl
  filter-map f p (x ∷ xs) = elim (Bool-cases (p (f x))) [
    | inl e ↦ rw (e, filter-map f p xs)
    | inr e ↦ rw (e, filter-map f p xs)
  ]
