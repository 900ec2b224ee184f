-- ===== src/Base/Actions.antt =====
-- Code that acts on a world: the list of what it did, the world it leaves, and its result or what it
-- threw.
use mathlib.Core.List.{List, [], ◌∷◌, ◌++◌}
use amazon_research_agent.Base.Result.{Result, ok, err}

-- One call of the surroundings: it may change the world, and returns or throws.
abbrev pub Call : Type 0 → Type 0 → Type 0 → Type 0
Call S E A = S → S × Result E A

abbrev pub Ran : Type 0 → Type 0 → Type 0 → Type 0 → Type 0
Ran V S E A = List V × S × Result E A

abbrev pub Action : Type 0 → Type 0 → Type 0 → Type 0 → Type 0
Action V S E A = S → Ran V S E A

abbrev pub return : {V S E A : Type 0} → A → Action V S E A
return a s = ([], s, ok a)

abbrev pub throw : {V S E A : Type 0} → E → Action V S E A
throw e s = ([], s, err e)

abbrev pub continue_with : {V S E A B : Type 0} → Ran V S E A → (A → Action V S E B) → Ran V S E B
continue_with (events, s, ok a) f = let (more, s', result) = f a s in (events ++ more, s', result)
continue_with (events, s, err e) f = (events, s, err e)

infixl 5 ◌and_then◌
abbrev pub ◌and_then◌ :
    {V S E A B : Type 0} → Action V S E A → (A → Action V S E B) → Action V S E B
m and_then f = λ s. continue_with (m s) f

-- A call with its event before it, or after it when it returned.
abbrev pub calling : {V S E A : Type 0} → V → Call S E A → Action V S E A
calling event call s = let (s', result) = call s in (event ∷ [], s', result)

abbrev pub noted : {V S E A : Type 0} → (A → List V) → S × Result E A → Ran V S E A
noted events (s, ok a) = (events a, s, ok a)
noted events (s, err e) = ([], s, err e)

abbrev pub noting : {V S E A : Type 0} → (A → List V) → Call S E A → Action V S E A
noting events call s = noted events (call s)

-- The same code, whose errors are thrown with a mark.
abbrev marked : {V S E F A : Type 0} → (E → F) → Ran V S E A → Ran V S F A
marked mark (events, s, ok a) = (events, s, ok a)
marked mark (events, s, err e) = (events, s, err (mark e))

abbrev pub marking : {V S E F A : Type 0} → (E → F) → Action V S E A → Action V S F A
marking mark m s = marked mark (m s)
