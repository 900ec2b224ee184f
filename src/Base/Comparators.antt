-- ===== src/Base/Comparators.antt =====
-- Comparators that are orders: of numbers, by a key, and one after the other.
use Prim.Native.Nat.{ℕ, compare, Ordering}
use mathlib.Core.Path.{◌≡◌}
use native.Mathlib.Omega.{arith}
use amazon_research_agent.Base.Order.{or_else, swap, IsOrder, AtMost}

pub compare-IsOrder : IsOrder compare
compare-IsOrder = record {
  flip = λ a b. flip_compare a b;
  trans = λ a b c h k. trans_compare a b c h k;
}
  where
    flip_compare : (a b : ℕ) → compare b a ≡ swap (compare a b)
    flip_compare a b = ground arith

    trans_compare : (a b c : ℕ) → AtMost compare a b → AtMost compare b c → AtMost compare a c
    trans_compare a b c h k = ground arith

module _ {ℓ κ} {A : Type ℓ} {B : Type κ} (key : A → B) (cmp : B → B → Ordering) where
  pub by_key-IsOrder : IsOrder cmp → IsOrder (λ a b. cmp (key a) (key b))
  by_key-IsOrder o = record {
    flip = λ a b. o.flip (key a) (key b);
    trans = λ a b c. o.trans (key a) (key b) (key c);
  }

module _ {ℓ} {A : Type ℓ} (f g : A → A → Ordering) (of : IsOrder f) (og : IsOrder g) where
  or_else_trans :
      (a b c : A)
      → AtMost (λ x y. or_else (f x y) (g x y)) a b
      → AtMost (λ x y. or_else (f x y) (g x y)) b c
      → AtMost (λ x y. or_else (f x y) (g x y)) a c
  or_else_trans a b c h k = ground (
    arith,
    of.trans a b c,
    of.trans c a b,
    of.trans b c a,
    of.flip a c,
    of.flip b c,
    of.flip a b,
    og.trans a b c,
  )

  pub or_else-IsOrder : IsOrder (λ a b. or_else (f a b) (g a b))
  or_else-IsOrder = record { flip = λ a b. flip_or_else a b; trans = or_else_trans }
    where
      flip_or_else : (a b : A) → or_else (f b a) (g b a) ≡ swap (or_else (f a b) (g a b))
      flip_or_else a b = ground (arith, of.flip a b, og.flip a b)
