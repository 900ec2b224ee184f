-- ===== src/Research/MicroNiches/Clusters.antt =====
-- Theorems on the clusters of packages/research-engine/src/micro-niche.ts.
use amazon_research_agent.Base.{
  all, ap, subst, false, if◌then◌else◌, All-zip, ◌&&◌, ◌⊎◌, map, String, Bool, true, not, ◌||◌,
  List, [], ◌∷◌, ◌++◌, ◌≡◌, refl, arith, any, filter, includes, is_empty, All, All-append,
  All-filter_of_All, All-of_filter, All-map, str_eq, str_eq_refl, Bool-cases, inl, inr,
}
use amazon_research_agent.Base.Sets.{add_id, includes-add_id}
use amazon_research_agent.Shared.Numbers.{Numbers}
use amazon_research_agent.Research.Families.{ProductFamily}
use amazon_research_agent.Research.MicroNiches.{
  generic_noise_terms, haystack, TextOperations, ClusterRule, cluster_rules, MicroNicheCluster,
  is_relevant, matches, assign_keys, rule_clusters, leftover_cluster, cluster_micro_niches,
}

-- A family with the key stands in a cluster of the name.
abbrev pub stands_in : {N : Type 0} → List (MicroNicheCluster N) → String → String → Bool
stands_in clusters name key =
    any
      (λ c. str_eq c.name name && any (λ (g : ProductFamily _). str_eq g.parent_key key) c.families)
      clusters

-- All families of the clusters satisfy a predicate.
abbrev pub AllFamilies :
    {N : Type 0} → (ProductFamily N → Type 0) → List (MicroNicheCluster N) → Type 0
AllFamilies P clusters = All (λ c. All P c.families) clusters

module _ {N : Type 0} where
  includes-assign_keys :
      (assigned : List String) (families : List (ProductFamily N)) (key : String)
      → includes (assign_keys assigned families) key
        ≡ (includes assigned key || any (λ g. str_eq g.parent_key key) families)
  unfolding assign_keys
  includes-assign_keys assigned [] key = ground arith
  includes-assign_keys assigned (f ∷ fs) key = ground (
    arith,
    includes-assign_keys (add_id assigned f.parent_key) fs key,
    includes-add_id assigned f.parent_key key,
  )

  weaken_any :
      (q : ProductFamily N → Bool) (x : ProductFamily N) (xs : List (ProductFamily N))
      (key : String)
      → any (λ g. str_eq g.parent_key key) (filter q xs) ≡ true
      → any (λ g. str_eq g.parent_key key) (filter q (x ∷ xs)) ≡ true
  weaken_any q x xs key h = ground arith

  -- What passes a test is found among what the test keeps.
  kept_any :
      (q : ProductFamily N → Bool) (xs : List (ProductFamily N))
      → All (λ f. q f ≡ true → any (λ g. str_eq g.parent_key f.parent_key) (filter q xs) ≡ true) xs
  kept_any q [] = tt
  kept_any q (x ∷ xs) = (
    λ e. ground (arith, str_eq_refl x.parent_key),
    All-map {P = λ f. q f ≡ true → any (λ g. str_eq g.parent_key f.parent_key) (filter q xs) ≡ true}
        (λ f found e. weaken_any q x xs f.parent_key (found e)) xs (kept_any q xs),
  )

module _ (n : Numbers) (texts : TextOperations) where
  open n use {Number}

  -- A title of the family has one of the words of the rule.
  abbrev pub names_rule : ProductFamily Number → ClusterRule → Bool
  names_rule f rule =
      any (texts.contains (texts.join (map (λ v. texts.lower v.title) f.variants))) rule.terms

  -- One of the families is named by one of the rules, and has the key.
  abbrev pub is_ruled : List (ProductFamily Number) → List ClusterRule → String → Bool
  is_ruled families rules key =
      any (λ rule. any (λ g. names_rule g rule && str_eq g.parent_key key) families) rules

  -- Where the clusters of a niche have a family.
  pub record IsPlaced (families : List (ProductFamily Number)) (niche : String)
      (clusters : List (MicroNicheCluster Number)) (f : ProductFamily Number) : Type 0 where
    pub by_rules :
        All
          (λ rule. names_rule f rule ≡ true → stands_in clusters rule.name f.parent_key ≡ true)
          cluster_rules
    pub otherwise :
        (is_ruled families cluster_rules f.parent_key ≡ true)
        ⊎ (stands_in clusters niche f.parent_key ≡ true)

  names_rule-matches :
      (f : ProductFamily Number) (rule : ClusterRule) → matches texts rule f ≡ names_rule f rule
  unfolding matches haystack
  names_rule-matches f rule = refl

  filter-any :
      (rule : ClusterRule) (families : List (ProductFamily Number)) (key : String)
      → any (λ g. str_eq g.parent_key key) (filter (matches texts rule) families)
        ≡ any (λ g. names_rule g rule && str_eq g.parent_key key) families
  filter-any rule [] key = refl
  filter-any rule (f ∷ fs) key = ground (arith, filter-any rule fs key, names_rule-matches f rule)

  -- The keys that the loop over the rules has assigned are those of the families that a rule names.
  rule_clusters-keys :
      (relevant : List (ProductFamily Number)) (rules : List ClusterRule) (assigned : List String)
      (key : String)
      → includes (rule_clusters n texts relevant rules assigned).1 key
        ≡ (includes assigned key || is_ruled relevant rules key)
  unfolding rule_clusters
  rule_clusters-keys relevant [] assigned key = ground arith
  rule_clusters-keys relevant (rule ∷ rules) assigned key =
      let matched = filter (matches texts rule) relevant in
      ground (
        arith,
        rule_clusters-keys relevant rules assigned key,
        rule_clusters-keys relevant rules (assign_keys assigned matched) key,
        includes-assign_keys assigned matched key,
        filter-any rule relevant key,
      )

  none_of_empty :
      (families : List (ProductFamily Number)) (key : String)
      → is_empty families ≡ true
      → any (λ g. str_eq g.parent_key key) families ≡ false
  none_of_empty [] key h = refl
  none_of_empty (f ∷ fs) key h = absurd (cc h)

  stands_in-append :
      (clusters more : List (MicroNicheCluster Number)) (name key : String)
      → stands_in (clusters ++ more) name key
        ≡ (stands_in clusters name key || stands_in more name key)
  stands_in-append [] more name key = refl
  stands_in-append (c ∷ cs) more name key = ground (arith, stands_in-append cs more name key)

  leftover-stands_in :
      (niche : String) (families : List (ProductFamily Number)) (key : String)
      → stands_in (leftover_cluster n texts niche families) niche key
        ≡ any (λ g. str_eq g.parent_key key) families
  leftover-stands_in niche [] key = refl
  leftover-stands_in niche (f ∷ fs) key = ground (arith, str_eq_refl niche)

  -- The first rule adds a cluster of what it matches, if it matches anything.
  rule_clusters-first :
      (relevant : List (ProductFamily Number)) (rule : ClusterRule) (rules : List ClusterRule)
      (assigned : List String) (name key : String)
      → let matched = filter (matches texts rule) relevant in
        stands_in (rule_clusters n texts relevant (rule ∷ rules) assigned).0 name key ≡ (
          if is_empty matched
          then stands_in (rule_clusters n texts relevant rules assigned).0 name key
          else ((str_eq rule.name name && any (λ g. str_eq g.parent_key key) matched)
              || stands_in
                  (rule_clusters n texts relevant rules (assign_keys assigned matched)).0
                  name
                  key))
  unfolding rule_clusters
  rule_clusters-first relevant rule rules assigned name key =
      elim (Bool-cases (is_empty (filter (matches texts rule) relevant))) [
        | inl e ↦ ground (arith, e)
        | inr e ↦ ground (arith, e)
      ]

  -- In the loop, a family stands in the cluster of each rule that names it.
  rule_clusters-stands_in :
      (relevant : List (ProductFamily Number)) (rules : List ClusterRule) (assigned : List String)
      (f : ProductFamily Number)
      → ((rule : ClusterRule)
          → names_rule f rule ≡ true
          → any (λ g. names_rule g rule && str_eq g.parent_key f.parent_key) relevant ≡ true)
      → All
          (λ rule.
            names_rule f rule ≡ true
            → stands_in (rule_clusters n texts relevant rules assigned).0 rule.name f.parent_key
              ≡ true)
          rules
  rule_clusters-stands_in relevant [] assigned f found = tt
  rule_clusters-stands_in relevant (rule ∷ rules) assigned f found =
      let matched = filter (matches texts rule) relevant in
      let key = f.parent_key in
      let next = assign_keys assigned matched in
      let first = rule_clusters-first relevant rule rules assigned in
      (
        λ named. ground (
          arith,
          found rule named,
          filter-any rule relevant key,
          none_of_empty matched key,
          first rule.name key,
          str_eq_refl rule.name,
        ),
        All-map
            {P = λ (r : ClusterRule).
              (names_rule f r ≡ true
                → stands_in (rule_clusters n texts relevant rules assigned).0 r.name key ≡ true)
              × (names_rule f r ≡ true
                  → stands_in (rule_clusters n texts relevant rules next).0 r.name key ≡ true)}
            (λ r stands named. ground (arith, stands.0 named, stands.1 named, first r.name key))
            rules
            (All-zip _ _ rules (rule_clusters-stands_in relevant rules assigned f found)
              (rule_clusters-stands_in relevant rules next f found)),
      )

  -- A family is found by its own key among those that a rule names.
  abbrev IsFound : List (ProductFamily Number) → ProductFamily Number → Type 0
  IsFound families f =
      (rule : ClusterRule)
      → names_rule f rule ≡ true
      → any (λ g. names_rule g rule && str_eq g.parent_key f.parent_key) families ≡ true

  own_key_among_named : (families : List (ProductFamily Number)) → All (IsFound families) families
  own_key_among_named [] = tt
  own_key_among_named (f ∷ fs) = (
    λ rule named. ground (arith, named, str_eq_refl f.parent_key),
    All-map {P = IsFound fs} {Q = IsFound (f ∷ fs)}
        (λ g found rule named. ground (arith, found rule named)) fs (own_key_among_named fs),
  )

  -- Whether a family is not in the cluster of a rule.
  abbrev is_left : List (ProductFamily Number) → ProductFamily Number → Bool
  is_left relevant f =
      not (includes (rule_clusters n texts relevant cluster_rules []).1 f.parent_key)

  -- A family that is left is found by its own key among those that are.
  abbrev IsKept : List (ProductFamily Number) → ProductFamily Number → Type 0
  IsKept relevant f =
      is_left relevant f ≡ true
      → any (λ g. str_eq g.parent_key f.parent_key) (filter (is_left relevant) relevant) ≡ true

  -- The clusters of the rules, and the one of what they leave.
  abbrev all_clusters : List (ProductFamily Number) → String → List (MicroNicheCluster Number)
  all_clusters relevant niche =
      (rule_clusters n texts relevant cluster_rules []).0
      ++ leftover_cluster n texts niche (filter (is_left relevant) relevant)

  all_clusters-IsPlaced :
      (relevant : List (ProductFamily Number)) (niche : String) (f : ProductFamily Number)
      → IsFound relevant f × IsKept relevant f
      → IsPlaced relevant niche (all_clusters relevant niche) f
  unfolding includes
  all_clusters-IsPlaced relevant niche f (found, kept) =
      let key = f.parent_key in
      let ruled = (rule_clusters n texts relevant cluster_rules []).0 in
      let left = filter (is_left relevant) relevant in
      let joined = stands_in-append ruled (leftover_cluster n texts niche left) in
      record {
        by_rules =
            All-map
              {P = λ (r : ClusterRule). names_rule f r ≡ true → stands_in ruled r.name key ≡ true}
              {Q = λ (r : ClusterRule).
                names_rule f r ≡ true → stands_in (all_clusters relevant niche) r.name key ≡ true}
              (λ r stands named. ground (arith, stands named, joined r.name key)) cluster_rules
              (rule_clusters-stands_in relevant cluster_rules [] f found);
        otherwise = elim (Bool-cases (is_ruled relevant cluster_rules key)) [
          | inl e ↦ inl e
          | inr e ↦ inr (
              ground (
                arith,
                e,
                kept,
                rule_clusters-keys relevant cluster_rules [] key,
                joined niche key,
                leftover-stands_in niche left key,
              ))
        ];
      }

  -- The titles of a family have no noise that the niche is not about, and a token of the niche, if
  -- there are any.
  abbrev pub is_concerned : String → ProductFamily Number → Bool
  is_concerned niche f =
      let text = texts.join (map (λ v. texts.lower v.title) f.variants) in
      all (λ term. not (texts.contains text term) || texts.contains (texts.lower niche) term)
        generic_noise_terms
      && (is_empty (texts.tokens niche) || any (texts.contains text) (texts.tokens niche))

  all-eq :
      (p q : String → Bool) (terms : List String)
      → not (any (λ t. p t && not (q t)) terms) ≡ all (λ t. not (p t) || q t) terms
  all-eq p q [] = refl
  all-eq p q (t ∷ ts) = ground (arith, all-eq p q ts)

  is_relevant-eq :
      (niche : String) (f : ProductFamily Number) → is_relevant texts niche f ≡ is_concerned niche f
  unfolding is_relevant haystack
  is_relevant-eq niche f =
      let text = texts.join (map (λ v. texts.lower v.title) f.variants) in
      let about = is_empty (texts.tokens niche) || any (texts.contains text) (texts.tokens niche) in
      ap (λ b. b && about)
        (all-eq (texts.contains text) (texts.contains (texts.lower niche)) generic_noise_terms)

  filter-is_concerned :
      (niche : String) (families : List (ProductFamily Number))
      → filter (is_relevant texts niche) families ≡ filter (is_concerned niche) families
  filter-is_concerned niche [] = refl
  filter-is_concerned niche (f ∷ fs) =
      ground (arith, is_relevant-eq niche f, filter-is_concerned niche fs)

  -- The families that concern the niche stand, by their keys, in the cluster of each rule that one of
  -- their titles names; and a family that shares its key with none that a rule names stands in the
  -- cluster of the niche.
  pub cluster_micro_niches-IsPlaced :
      (families : List (ProductFamily Number)) (niche : String)
      → let concerned = filter (is_concerned niche) families in
        All (IsPlaced concerned niche (cluster_micro_niches n texts families niche)) concerned
  unfolding cluster_micro_niches
  cluster_micro_niches-IsPlaced families niche =
      let relevant = filter (is_relevant texts niche) families in
      subst (λ l. All (IsPlaced l niche (cluster_micro_niches n texts families niche)) l)
        (filter-is_concerned niche families)
        (All-map (all_clusters-IsPlaced relevant niche) relevant (
          All-zip (IsFound relevant) (IsKept relevant) relevant (own_key_among_named relevant)
            (kept_any (is_left relevant) relevant)))

  rule_clusters-AllFamilies :
      (P : ProductFamily Number → Type 0) (relevant : List (ProductFamily Number))
      (rules : List ClusterRule) (assigned : List String)
      → All P relevant
      → AllFamilies P (rule_clusters n texts relevant rules assigned).0
  unfolding rule_clusters
  rule_clusters-AllFamilies P relevant [] assigned h = tt
  rule_clusters-AllFamilies P relevant (rule ∷ rules) assigned h =
      let matched = filter (matches texts rule) relevant in
      elim (Bool-cases (is_empty matched)) [
        | inl e ↦ rw e (rule_clusters-AllFamilies P relevant rules assigned h)
        | inr e ↦ rw e (
          All-filter_of_All P (matches texts rule) relevant h,
          rule_clusters-AllFamilies P relevant rules (assign_keys assigned matched) h,
        )
      ]

  leftover-AllFamilies :
      (P : ProductFamily Number → Type 0) (niche : String) (families : List (ProductFamily Number))
      → All P families
      → AllFamilies P (leftover_cluster n texts niche families)
  leftover-AllFamilies P niche [] h = tt
  leftover-AllFamilies P niche (f ∷ fs) h = (h, tt)

  -- No family that is not relevant to the niche stands in any of its clusters.
  pub cluster_micro_niches-relevant :
      (families : List (ProductFamily Number)) (niche : String)
      → AllFamilies
          (λ f. is_relevant texts niche f ≡ true)
          (cluster_micro_niches n texts families niche)
  unfolding cluster_micro_niches
  cluster_micro_niches-relevant families niche =
      let P = λ (f : ProductFamily Number). is_relevant texts niche f ≡ true in
      let relevant = filter (is_relevant texts niche) families in
      let found = rule_clusters n texts relevant cluster_rules [] in
      let left = λ (f : ProductFamily Number). not (includes found.1 f.parent_key) in
      let all_relevant = All-of_filter P (is_relevant texts niche) (λ f h. h) families in
      All-append (λ c. All P c.families) found.0
        (leftover_cluster n texts niche (filter left relevant))
        (rule_clusters-AllFamilies P relevant cluster_rules [] all_relevant)
        (leftover-AllFamilies P niche (filter left relevant)
          (All-filter_of_All P left relevant all_relevant))
