-- ===== src/Daily/Pages.antt =====
-- Reading in pages of a table's rows, in apps/worker/src/jobs/daily-research.ts.
use mathlib.Core.List.{append_assoc}
use amazon_research_agent.Base.{
  ℕ, zero, suc, ◌+◌, ◌-◌, ◌*◌, ◌≤◌, ◌<◌, length-take, length-append, inl, inr, Bool-cases, false,
  Option, none, some, List, [], ◌∷◌, ◌++◌, length, take, ltb, ◌≡◌, refl, arith, ap, sym, subst, ◌∙◌,
  if◌then◌else◌,
}
use amazon_research_agent.Base.Result.{Result, ok, err}

abbrev pub daily_research_page_size : ℕ
daily_research_page_size = 500

-- The rows of a page are nothing when the response has none.
abbrev rows_or_none : {A : Type 0} → Option (List A) → List A
rows_or_none none = []
rows_or_none (some rows) = rows

module _ {A E : Type 0} (read_page : ℕ → ℕ → Result E (Option (List A))) where
  -- The loop from a row on, for a number of pages: `none` when they are used up.
  unfoldable pub pages_from : ℕ → ℕ → List A → Result E (Option (List A))
  pages_from zero from rows = ok none
  pages_from (suc n) from rows = elim (read_page from (from + daily_research_page_size - 1)) [
    | err e ↦ err e
    | ok response ↦
        let page = rows_or_none response in
        let next = pages_from n (from + daily_research_page_size) (rows ++ page) in
        if ltb (length page) daily_research_page_size then ok (some (rows ++ page)) else next
  ]

  unfoldable pub collect_daily_research_pages : ℕ → Result E (Option (List A))
  unfolding pages_from
  collect_daily_research_pages n = pages_from n 0 []

module _ {A : Type 0} where
  abbrev drop : ℕ → List A → List A
  drop zero xs = xs
  drop (suc n) [] = []
  drop (suc n) (x ∷ xs) = drop n xs

  -- `.range(from, to)` on rows in a fixed order.
  abbrev pub window : List A → ℕ → ℕ → List A
  window rows from to = take (suc to - from) (drop from rows)

  drop_of_append : (xs ys : List A) → drop (length xs) (xs ++ ys) ≡ ys
  drop_of_append [] ys = refl
  drop_of_append (x ∷ xs) ys = drop_of_append xs ys

  take-append_drop : (n : ℕ) (xs : List A) → take n xs ++ drop n xs ≡ xs
  take-append_drop zero xs = refl
  take-append_drop (suc n) [] = refl
  take-append_drop (suc n) (x ∷ xs) = ap (λ l. x ∷ l) (take-append_drop n xs)

  take_all : (n : ℕ) (xs : List A) → length xs ≤ n → take n xs ≡ xs
  take_all zero [] h = refl
  take_all zero (x ∷ xs) h = absurd (omega arith)
  take_all (suc n) [] h = refl
  take_all (suc n) (x ∷ xs) h = ap (λ l. x ∷ l) (take_all n xs (omega arith))

  length-drop : (n : ℕ) (xs : List A) → length (drop n xs) ≡ length xs - n
  length-drop zero xs = omega arith
  length-drop (suc n) [] = omega arith
  length-drop (suc n) (x ∷ xs) = omega (arith, length-drop n xs)

  window-page :
      (rows rest : List A)
      → window (rows ++ rest) (length rows) (length rows + daily_research_page_size - 1)
        ≡ take daily_research_page_size rest
  window-page rows rest =
      let size : suc (length rows + daily_research_page_size - 1) - length rows
          ≡ daily_research_page_size =
        omega arith in
      rw (size, drop_of_append rows rest) refl

module _ {A E : Type 0} (read_page : ℕ → ℕ → Result E (Option (List A))) (table : List A)
    (reads : (from to : ℕ) → read_page from to ≡ ok (some (window table from to))) where
  not_below : (a b : ℕ) → ltb a b ≡ false → b ≤ a
  not_below a b h = ground arith

  full_page :
      (n : ℕ) (rest : List A) → ltb (length (take n rest)) n ≡ false → length (take n rest) ≡ n
  full_page n rest h = omega (arith, not_below (length (take n rest)) n h, length-take n rest)

  pages_from-step :
      (n from : ℕ) (rows page : List A)
      → read_page from (from + daily_research_page_size - 1) ≡ ok (some page)
      → pages_from read_page (suc n) from rows ≡ (
          if ltb (length page) daily_research_page_size
          then ok (some (rows ++ page))
          else pages_from read_page n (from + daily_research_page_size) (rows ++ page))
  unfolding pages_from
  pages_from-step n from rows page h = ground arith

  pages_from-rest :
      (n : ℕ) (rows rest : List A)
      → table ≡ rows ++ rest
      → length rest < n * daily_research_page_size
      → pages_from read_page n (length rows) rows ≡ ok (some table)
  pages_from-rest zero rows rest t h = absurd (omega arith)
  pages_from-rest (suc n) rows rest t h =
      let page = take daily_research_page_size rest in
      let read : read_page (length rows) (length rows + daily_research_page_size - 1)
          ≡ ok (some page) =
        reads (length rows) (length rows + daily_research_page_size - 1)
        ∙ ap (λ l. ok (some l))
            (ap (λ l. window l (length rows) (length rows + daily_research_page_size - 1)) t
              ∙ window-page rows rest) in
      let size = length-take daily_research_page_size rest in
      pages_from-step n (length rows) rows page read
      ∙ elim (Bool-cases (ltb (length page) daily_research_page_size)) [
        | inl short ↦
            let all_read : page ≡ rest =
              take_all daily_research_page_size rest (ground (arith, size)) in
            rw short (ap (λ l. ok (some l)) (ap (λ l. rows ++ l) all_read ∙ sym t))
        | inr full ↦
            let left = drop daily_research_page_size rest in
            let split : table ≡ (rows ++ page) ++ left =
              t
              ∙ ap (λ l. rows ++ l) (sym (take-append_drop daily_research_page_size rest))
              ∙ sym (append_assoc rows page left) in
            let next : length (rows ++ page) ≡ length rows + daily_research_page_size =
              omega
                (arith, length-append rows page, full_page daily_research_page_size rest full) in
            let rest_read = pages_from-rest n (rows ++ page) left split (
              omega (
                arith,
                length-drop daily_research_page_size rest,
                full_page daily_research_page_size rest full,
                size,
                h,
              )) in
            rw full (
              subst (λ from. pages_from read_page n from (rows ++ page) ≡ ok (some table)) next
                rest_read)
      ]

  -- The loop over the pages ends with every row. When a page is the window of the table that it was
  -- asked for, as many pages as the rows fill, and one more, are enough, and the rows come back in
  -- the table's order, none left out and none twice.
  pub collect-table :
      (n : ℕ)
      → length table < n * daily_research_page_size
      → collect_daily_research_pages read_page n ≡ ok (some table)
  unfolding collect_daily_research_pages
  collect-table n h = pages_from-rest n [] table refl h
