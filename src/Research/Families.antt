-- ===== src/Research/Families.antt =====
-- packages/research-engine/src/product-family.ts: products grouped by parent. `trim` is
-- `String.prototype.trim`; a product's fields that the grouping does not read are left out.
pub mod Groups
use amazon_research_agent.Base.{
  ℕ, String, Bool, true, false, not, ◌&&◌, Option, none, some, List, [], ◌∷◌, ◌++◌, map,
  if◌then◌else◌, str_eq, all, length, ltb,
}
use amazon_research_agent.Shared.Numbers.{Numbers}

pub record CatalogProduct (N : Type 0) : Type 0 where
  pub id : String
  pub title : String
  pub parent_asin : Option String
  pub price : Option N
  pub units_sold_30 : Option N
  pub revenue_30 : Option N

pub record ProductFamily (N : Type 0) : Type 0 where
  pub parent_key : String
  pub variants : List (CatalogProduct N)
  pub observed_monthly_units : N
  pub observed_monthly_revenue : N
  pub quality_notes : List String

abbrev non_empty_or : String → String → String
non_empty_or parent id = if str_eq parent "" then id else parent

-- The values that are not null.
abbrev pub known {ℓ} : {A : Type ℓ} → List (Option A) → List A
known [] = []
known (none ∷ values) = known values
known (some a ∷ values) = a ∷ known values

module _ {N : Type 0} (trim : String → String) where
  unfoldable pub family_key : CatalogProduct N → String
  family_key product = elim product.parent_asin [
    | none ↦ product.id
    | some parent ↦ non_empty_or (trim parent) product.id
  ]

  -- A map in the order in which its keys were set first: the product goes to the end of its group.
  unfoldable pub add_product :
      String
      → CatalogProduct N
      → List (String × List (CatalogProduct N))
      → List (String × List (CatalogProduct N))
  add_product key product [] = (key, product ∷ []) ∷ []
  add_product key product ((k, existing) ∷ groups) =
      let rest = add_product key product groups in
      if str_eq k key then (k, existing ++ product ∷ []) ∷ groups else (k, existing) ∷ rest

  unfoldable pub add_products :
      List (CatalogProduct N)
      → List (String × List (CatalogProduct N))
      → List (String × List (CatalogProduct N))
  add_products [] groups = groups
  add_products (product ∷ products) groups =
      add_products products (add_product (family_key product) product groups)

module _ (n : Numbers) (trim : String → String) where
  open n use {Number, of, add, eq}

  abbrev sum_all : Number → List Number → Number
  sum_all total [] = total
  sum_all total (value ∷ values) = sum_all (add total value) values

  -- More than one value, all equal to the first one.
  unfoldable pub are_identical : List Number → Bool
  are_identical [] = false
  are_identical (value ∷ values) =
      ltb 1 (length (value ∷ values)) && all (λ v. eq v value) (value ∷ values)

  abbrev first_or_zero : List Number → Number
  first_or_zero [] = of 0
  first_or_zero (value ∷ values) = value

  unfoldable pub observed : List Number → Number
  observed values = if are_identical values then first_or_zero values else sum_all (of 0) values

  unfoldable pub product_family : String × List (CatalogProduct Number) → ProductFamily Number
  product_family (key, variants) =
      let units = known (map (λ (v : CatalogProduct Number). v.units_sold_30) variants) in
      let revenues = known (map (λ (v : CatalogProduct Number). v.revenue_30) variants) in
      record {
        parent_key = key;
        variants = variants;
        observed_monthly_units = observed units;
        observed_monthly_revenue = observed revenues;
        quality_notes =
            if are_identical units && ltb 1 (length variants)
            then "VARIANT_SALES_DUPLICATED" ∷ []
            else [];
      }

  unfoldable pub group_product_families : List (CatalogProduct Number) → List (ProductFamily Number)
  group_product_families products = map product_family (add_products trim products [])
