-- ===== src/Base/Sets.antt =====
-- Sets of texts in insertion order, as lists.
use Prim.Native.String.{String}
use mathlib.Core.List.{List, [], ◌∷◌, ◌++◌}
use mathlib.Core.Path.{◌≡◌}
use mathlib.Core.Bool.{◌||◌}
use native.Mathlib.Omega.{arith}
use amazon_research_agent.Base.Tests.{if◌then◌else◌, str_eq, str_eq_iff}
use amazon_research_agent.Base.Lists.{includes, includes-append}

-- `Set.prototype.add`, and `new Set` of a list.
unfoldable pub add_id : List String → String → List String
add_id ids id = if includes ids id then ids else ids ++ id ∷ []

unfoldable pub id_set : List String → List String → List String
unfolding add_id
id_set set [] = set
id_set set (id ∷ ids) = id_set (add_id set id) ids

pub includes-add_id :
    (ids : List String) (id key : String)
    → includes (add_id ids id) key ≡ (includes ids key || str_eq id key)
unfolding add_id includes
includes-add_id ids id key = ground (arith, includes-append ids (id ∷ []) key, str_eq_iff id key)
