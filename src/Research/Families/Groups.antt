-- ===== src/Research/Families/Groups.antt =====
-- Lemmas on the groups of packages/research-engine/src/product-family.ts.
use amazon_research_agent.Base.{
  String, true, false, List, [], ◌∷◌, ◌++◌, map, if◌then◌else◌, str_eq, str_eq_refl, str_eq_iff,
  filter, ◌≡◌, refl, sym, ap, ◌∙◌, arith, subst, All, Bool-cases, inl, inr,
}
use amazon_research_agent.Shared.Numbers.{Numbers}
use amazon_research_agent.Research.Families.{
  CatalogProduct, ProductFamily, family_key, add_product, add_products, product_family,
  group_product_families,
}

-- The variants of all families of a key, and the number of families is told by their keys.
unfoldable pub variants_of :
    {N : Type 0} → String → List (ProductFamily N) → List (CatalogProduct N)
variants_of key [] = []
variants_of key (family ∷ families) =
    let rest = variants_of key families in
    if str_eq family.parent_key key then family.variants ++ rest else rest

-- No two families have the same key.
abbrev pub HasDistinctKeys : {N : Type 0} → List (ProductFamily N) → Type 0
HasDistinctKeys [] = Unit
HasDistinctKeys (family ∷ families) =
    All (λ other. str_eq other.parent_key family.parent_key ≡ false) families
    × HasDistinctKeys families

module _ (n : Numbers) (trim : String → String) where
  open n use {Number}

  abbrev Grouped : Type 0
  Grouped = List (String × List (CatalogProduct Number))

  abbrev families_of : Grouped → List (ProductFamily Number)
  families_of groups = map (product_family n trim) groups

  abbrev IsOther : String → Grouped → Type 0
  IsOther key groups = All (λ other. str_eq other.parent_key key ≡ false) (families_of groups)

  others_kept :
      (key k : String) (product : CatalogProduct Number) (groups : Grouped)
      → str_eq k key ≡ false
      → IsOther key groups
      → IsOther key (add_product trim k product groups)
  unfolding add_product product_family
  others_kept key k product [] e h = (e, tt)
  others_kept key k product ((k', existing) ∷ groups) e h = elim (Bool-cases (str_eq k' k)) [
    | inl same ↦ rw same (h.0, h.1)
    | inr other ↦ rw other (h.0, others_kept key k product groups e h.1)
  ]

  others-none :
      (key : String) (groups : Grouped)
      → IsOther key groups
      → variants_of key (families_of groups) ≡ []
  unfolding variants_of product_family
  others-none key [] h = refl
  others-none key ((k, existing) ∷ groups) h = ground (arith, h.0, others-none key groups h.1)

  abbrev when_key : String → String → CatalogProduct Number → List (CatalogProduct Number)
  when_key k key product = if str_eq k key then product ∷ [] else []

  append_nil : (xs : List (CatalogProduct Number)) → xs ++ [] ≡ xs
  append_nil [] = refl
  append_nil (x ∷ xs) = ap (λ l. x ∷ l) (append_nil xs)

  append_assoc : (xs ys zs : List (CatalogProduct Number)) → (xs ++ ys) ++ zs ≡ xs ++ (ys ++ zs)
  append_assoc [] ys zs = refl
  append_assoc (x ∷ xs) ys zs = ap (λ l. x ∷ l) (append_assoc xs ys zs)

  add-variants :
      (key k : String) (product : CatalogProduct Number) (groups : Grouped)
      → HasDistinctKeys (families_of groups)
      → variants_of key (families_of (add_product trim k product groups))
        ≡ variants_of key (families_of groups) ++ when_key k key product
  unfolding add_product variants_of product_family
  add-variants key k product [] h = ground arith
  add-variants key k product ((k', existing) ∷ groups) h = elim (Bool-cases (str_eq k' k)) [
    | inl same ↦ elim (Bool-cases (str_eq k' key)) [
      | inl here ↦
          let equal : k ≡ key = ground (arith, same, here, str_eq_iff k' k, str_eq_iff k' key) in
          let this : k' ≡ key = ground (arith, here, str_eq_iff k' key) in
          let none_left : variants_of key (families_of groups) ≡ [] =
            others-none key groups (subst (λ i. IsOther i groups) this h.0) in
          let found : str_eq k key ≡ true =
            subst (λ i. str_eq i key ≡ true) (sym equal) (str_eq_refl key) in
          ground (
            arith,
            same,
            here,
            none_left,
            found,
            append_nil (existing ++ product ∷ []),
            append_nil existing,
          )
      | inr away ↦
          let apart : str_eq k key ≡ false = ground (arith, same, away, str_eq_iff k' k) in
          ground (arith, same, away, apart, append_nil (variants_of key (families_of groups)))
    ]
    | inr other ↦
        let rest = add-variants key k product groups h.1 in
        ground (
          arith,
          other,
          rest,
          append_assoc existing (variants_of key (families_of groups)) (when_key k key product),
        )
  ]

  distinct_kept :
      (k : String) (product : CatalogProduct Number) (groups : Grouped)
      → HasDistinctKeys (families_of groups)
      → HasDistinctKeys (families_of (add_product trim k product groups))
  unfolding add_product product_family
  distinct_kept k product [] h = (tt, tt)
  distinct_kept k product ((k', existing) ∷ groups) h = elim (Bool-cases (str_eq k' k)) [
    | inl same ↦ rw same (h.0, h.1)
    | inr other ↦
        let apart : str_eq k k' ≡ false = ground (arith, other, str_eq_iff k' k, str_eq_iff k k') in
        rw other (others_kept k' k product groups apart h.0, distinct_kept k product groups h.1)
  ]

  products-variants :
      (key : String) (products : List (CatalogProduct Number)) (groups : Grouped)
      → HasDistinctKeys (families_of groups)
      → (variants_of key (families_of (add_products trim products groups))
          ≡ variants_of key (families_of groups)
            ++ filter (λ p. str_eq (family_key trim p) key) products)
        × HasDistinctKeys (families_of (add_products trim products groups))
  unfolding add_products
  products-variants key [] groups h = (sym (append_nil (variants_of key (families_of groups))), h)
  products-variants key (product ∷ products) groups h =
      let k = family_key trim product in
      let more =
        products-variants key products (add_product trim k product groups)
          (distinct_kept k product groups h) in
      let wanted = filter (λ p. str_eq (family_key trim p) key) products in
      (
        more.0
            ∙ (ap (λ l. l ++ wanted) (add-variants key k product groups h)
                ∙ (ground (
                  arith,
                  append_assoc (variants_of key (families_of groups)) (when_key k key product)
                      wanted,
                ))),
        more.1,
      )

  -- The families of a list of products have distinct keys, and the variants under each key are the
  -- products whose parent, or whose own identifier without one, is that key, all of them and in their
  -- order.
  pub group_product_families-variants :
      (products : List (CatalogProduct Number)) (key : String)
      → (variants_of key (group_product_families n trim products)
          ≡ filter (λ p. str_eq (family_key trim p) key) products)
        × HasDistinctKeys (group_product_families n trim products)
  unfolding group_product_families variants_of
  group_product_families-variants products key = products-variants key products [] tt
