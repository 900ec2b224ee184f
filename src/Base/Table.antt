-- ===== src/Base/Table.antt =====
-- `Map<string, V>`: an association list in insertion order; a write to a known key stays in place.
use amazon_research_agent.Base.Tests.{str_eq, str_eq_iff, if◌then◌else◌}
use Prim.Native.String.{String}
use mathlib.Core.Path.{◌≡◌}
use mathlib.Core.List.{List, [], ◌∷◌}
use mathlib.Core.Option.{Option, none, some}
use native.Mathlib.Omega.{arith}

abbrev pub Table {ℓ} : Type ℓ → Type ℓ
Table V = List (String × V)

module _ {ℓ} {V : Type ℓ} where
  unfoldable pub get : Table V → String → Option V
  get [] k = none
  get ((j, v) ∷ m) k = if str_eq j k then some v else get m k

  unfoldable pub set : Table V → String → V → Table V
  set [] k v = (k, v) ∷ []
  set ((j, w) ∷ m) k v = let rest = set m k v in if str_eq j k then (j, v) ∷ m else (j, w) ∷ rest

  pub get-set :
      (m : Table V) (k : String) (v : V) (j : String)
      → get (set m k v) j ≡ (if str_eq k j then some v else get m j)
  unfolding get set
  get-set [] k v j = ground arith
  get-set ((i, w) ∷ m) k v j =
      ground (arith, get-set m k v j, str_eq_iff i k, str_eq_iff i j, str_eq_iff k j)
