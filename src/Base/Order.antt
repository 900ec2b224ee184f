-- ===== src/Base/Order.antt =====
-- Comparators as `Array.prototype.sort` takes them, the stable sort, and its laws.
use Prim.Native.Nat.{suc, Ordering}
use mathlib.Core.Path.{◌≡◌, refl, ap, ◌∙◌}
use mathlib.Core.Logic.{inl, inr}
use mathlib.Core.Bool.{Bool, true, false}
use mathlib.Core.List.{List, [], ◌∷◌, Perm}
use mathlib.Core.List.Perm
use native.Mathlib.Omega.{arith}
use amazon_research_agent.Base.Tests.{if◌then◌else◌, Bool-cases}
use amazon_research_agent.Base.Lists.{All, All-map, length}

-- `a || b` on the numbers of two comparators: the second one breaks the first one's ties.
abbrev pub or_else : Ordering → Ordering → Ordering
or_else Ordering.eq b = b
or_else a b = a

abbrev pub is_gt : Ordering → Bool
is_gt Ordering.gt = true
is_gt _ = false

-- The stable sort: an item goes before the first one that is strictly greater.
module _ {ℓ} {A : Type ℓ} (cmp : A → A → Ordering) where
  unfoldable pub insert_by : A → List A → List A
  insert_by x [] = x ∷ []
  insert_by x (y ∷ ys) =
      let rest = insert_by x ys in if is_gt (cmp x y) then y ∷ rest else x ∷ y ∷ ys

  unfoldable pub sort_by : List A → List A
  unfolding insert_by
  sort_by [] = []
  sort_by (x ∷ xs) = insert_by x (sort_by xs)

-- What the order needs of a comparator: `AtMost a b` says that `a` may stand before `b`.
abbrev pub AtMost {ℓ} : {A : Type ℓ} → (A → A → Ordering) → A → A → Type 0
AtMost cmp a b = is_gt (cmp a b) ≡ false

abbrev pub swap : Ordering → Ordering
swap Ordering.lt = Ordering.gt
swap Ordering.eq = Ordering.eq
swap Ordering.gt = Ordering.lt

pub record IsOrder {ℓ} {A : Type ℓ} (cmp : A → A → Ordering) : Type ℓ where
  pub flip : (a b : A) → cmp b a ≡ swap (cmp a b)
  pub trans : (a b c : A) → AtMost cmp a b → AtMost cmp b c → AtMost cmp a c

abbrev pub IsSorted {ℓ} : {A : Type ℓ} → (A → A → Ordering) → List A → Type 0
IsSorted cmp [] = Unit
IsSorted cmp (x ∷ xs) = All (AtMost cmp x) xs × IsSorted cmp xs

module _ {ℓ} {A : Type ℓ} (cmp : A → A → Ordering) where
  pub insert_by-perm : (x : A) (xs : List A) → Perm (insert_by cmp x xs) (x ∷ xs)
  unfolding insert_by
  insert_by-perm x [] = Perm.refl (x ∷ [])
  insert_by-perm x (y ∷ ys) = elim (Bool-cases (is_gt (cmp x y))) [
    | inl e ↦ rw e (Perm.trans (Perm.cons y (insert_by-perm x ys)) (Perm.swap x y ys))
    | inr e ↦ rw e (Perm.refl (x ∷ y ∷ ys))
  ]

  pub sort_by-perm : (xs : List A) → Perm (sort_by cmp xs) xs
  unfolding sort_by
  sort_by-perm [] = Perm.refl []
  sort_by-perm (x ∷ xs) =
      Perm.trans (insert_by-perm x (sort_by cmp xs)) (Perm.cons x (sort_by-perm xs))

module _ {ℓ κ} {A : Type ℓ} (cmp : A → A → Ordering) (P : A → Type κ) where
  pub All-insert_by : (x : A) (xs : List A) → P x → All P xs → All P (insert_by cmp x xs)
  unfolding insert_by
  All-insert_by x [] px h = (px, tt)
  All-insert_by x (y ∷ ys) px h = elim (Bool-cases (is_gt (cmp x y))) [
    | inl e ↦ rw e (h.0, All-insert_by x ys px h.1)
    | inr e ↦ rw e (px, h)
  ]

  pub All-sort_by : (xs : List A) → All P xs → All P (sort_by cmp xs)
  unfolding sort_by
  All-sort_by [] h = tt
  All-sort_by (x ∷ xs) h = All-insert_by x (sort_by cmp xs) h.0 (All-sort_by xs h.1)

pub gt-AtMost {ℓ} :
    {A : Type ℓ} (cmp : A → A → Ordering)
    → IsOrder cmp
    → (a b : A) → is_gt (cmp a b) ≡ true
    → AtMost cmp b a
gt-AtMost cmp o a b h = ground (arith, o.flip a b)

module _ {ℓ} {A : Type ℓ} (cmp : A → A → Ordering) (o : IsOrder cmp) where
  insert_by-IsSorted : (x : A) (xs : List A) → IsSorted cmp xs → IsSorted cmp (insert_by cmp x xs)
  unfolding insert_by
  insert_by-IsSorted x [] s = (tt, tt)
  insert_by-IsSorted x (y ∷ ys) s = elim (Bool-cases (is_gt (cmp x y))) [
    | inl e ↦ rw e (
      All-insert_by cmp (AtMost cmp y) x ys (gt-AtMost cmp o x y e) s.0,
      insert_by-IsSorted x ys s.1,
    )
    | inr e ↦ rw e ((e, All-map (λ z h. o.trans x y z e h) ys s.0), s)
  ]

  pub sort_by-IsSorted : (xs : List A) → IsSorted cmp (sort_by cmp xs)
  unfolding sort_by
  sort_by-IsSorted [] = tt
  sort_by-IsSorted (x ∷ xs) = insert_by-IsSorted x (sort_by cmp xs) (sort_by-IsSorted xs)

module _ {ℓ κ} {A : Type ℓ} (cmp : A → A → Ordering) (P : A → Type κ) where
  All-of_insert_by : (x : A) (xs : List A) → All P (insert_by cmp x xs) → P x × All P xs
  unfolding insert_by
  All-of_insert_by x [] h = h
  All-of_insert_by x (y ∷ ys) h = elim (Bool-cases (is_gt (cmp x y))) [
    | inl e ↦
        let h' : All P (y ∷ insert_by cmp x ys) = rw e at h in
        let (px, rest) = All-of_insert_by x ys h'.1 in (px, (h'.0, rest))
    | inr e ↦ let h' : All P (x ∷ y ∷ ys) = rw e at h in (h'.0, h'.1)
  ]

  pub All-of_sort_by : (xs : List A) → All P (sort_by cmp xs) → All P xs
  unfolding sort_by
  All-of_sort_by [] h = tt
  All-of_sort_by (x ∷ xs) h =
      let (px, rest) = All-of_insert_by x (sort_by cmp xs) h in (px, All-of_sort_by xs rest)

module _ {ℓ} {A : Type ℓ} (cmp : A → A → Ordering) where
  length-insert_by : (x : A) (xs : List A) → length (insert_by cmp x xs) ≡ suc (length xs)
  unfolding insert_by
  length-insert_by x [] = refl
  length-insert_by x (y ∷ ys) = ground (arith, length-insert_by x ys)

  pub length-sort_by : (xs : List A) → length (sort_by cmp xs) ≡ length xs
  unfolding sort_by
  length-sort_by [] = refl
  length-sort_by (x ∷ xs) = length-insert_by x (sort_by cmp xs) ∙ ap suc (length-sort_by xs)
