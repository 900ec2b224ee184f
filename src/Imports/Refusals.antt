-- ===== src/Imports/Refusals.antt =====
-- Theorems on the rows that packages/jungle-scout/src/opportunity-csv.ts reads and refuses.
use amazon_research_agent.Base.{
  ℕ, String, Bool, true, false, Option, none, some, ◌≡◌, refl, ap, sym, ◌∙◌, str_eq, if◌then◌else◌,
  ◌+◌,
}
use amazon_research_agent.Base.Result.{Result, ok, err, ◌>>=◌}
use amazon_research_agent.Base.Table.{Table, get}
use amazon_research_agent.Imports.{
  CsvRecordWithInfo, SearchVolume, ParsedOpportunityRow, OpportunityCsvParseError,
  OpportunityCsvRow, Refusal, value_required, not_numeric, invalid_row, CsvOperations,
  required_value, parse_number, parse_search_volume, starting_line, number_of, read_fields, row_of,
  map_row, refuse,
}

-- A result satisfies a predicate, or an error satisfies another.
unfoldable pub Fits : {E A : Type 0} → (A → Type 0) → (E → Type 0) → Result E A → Type 0
Fits P Q (ok a) = P a
Fits P Q (err e) = Q e

pub >>=-Fits :
    {E A B : Type 0} (P : A → Type 0) (P' : B → Type 0) (Q : E → Type 0) (first : Result E A)
    (next : A → Result E B)
    → Fits P Q first
    → ((a : A) → P a → Fits P' Q (next a))
    → Fits P' Q (first >>= next)
unfolding Fits
>>=-Fits P P' Q (ok a) next h k = k a h
>>=-Fits P P' Q (err e) next h k = h

pub elim-Fits :
    {E A B : Type 0} (P : B → Type 0) (Q : E → Type 0) (o : Option A) (absent : Result E B)
    (present : A → Result E B)
    → (o ≡ none → Fits P Q absent)
    → ((a : A) → o ≡ some a → Fits P Q (present a))
    → Fits P Q (elim o [ none ↦ absent | some a ↦ present a ])
elim-Fits P Q none absent present h k = h refl
elim-Fits P Q (some a) absent present h k = k a refl

pub if-Fits :
    {E A : Type 0} (P : A → Type 0) (Q : E → Type 0) (b : Bool)
    (then_result else_result : Result E A)
    → (b ≡ true → Fits P Q then_result)
    → (b ≡ false → Fits P Q else_result)
    → Fits P Q (if b then then_result else else_result)
if-Fits P Q true _ _ h k = h refl
if-Fits P Q false _ _ h k = k refl

module _ {N : Type 0} (ops : CsvOperations N) (name : String) where
  open ops use {trim, bare_number, finite_number, upper_bound, parse_row}

  -- A text of the record under the header, without the blanks around it.
  pub record HasText (fields : Table String) (header text : String) : Type 0 where
    pub raw : String
    pub under_header : get fields header ≡ some raw
    pub trimmed : text ≡ trim raw
    pub not_empty : str_eq text "" ≡ false

  pub record HasNumber (fields : Table String) (header : String) (number : N) : Type 0 where
    pub text : String
    pub has_text : HasText fields header text
    pub read : finite_number (bare_number text) ≡ some number

  -- The number of a search volume stands after its sign, when it is an upper bound.
  abbrev pub bound_or : Option String → String → String
  bound_or none text = text
  bound_or (some bound) text = bound

  abbrev pub is_bound : Option String → Bool
  is_bound none = false
  is_bound (some bound) = true

  pub record HasVolume (fields : Table String) (header : String) (volume : SearchVolume N)
      : Type 0 where
    pub text : String
    pub has_text : HasText fields header text
    pub read : finite_number (bare_number (bound_or (upper_bound text) text)) ≡ some volume.value
    pub same_bound : volume.is_upper_bound ≡ is_bound (upper_bound text)

  -- Each field is read under its own header.
  pub record IsReadFrom (fields : Table String) (row : OpportunityCsvRow N) : Type 0 where
    pub keyword : HasText fields "Keyword" row.keyword
    pub niche_score : HasNumber fields "Niche Score" row.niche_score
    pub monthly_units : HasNumber fields "Units Sold - Monthly Avg" row.monthly_units
    pub average_price : HasNumber fields "Price - Monthly Avg" row.average_price
    pub search_volume : HasVolume fields "Search Volume - 30 Day Exact" row.search_volume
    pub trend_30 : HasNumber fields "Search Trend - 30 Day" row.trend_30
    pub trend_90 : HasNumber fields "Search Trend - 90 Day" row.trend_90
    pub competition : HasText fields "Competition" row.competition
    pub seasonality : HasText fields "Seasonality" row.seasonality
    pub last_updated : HasText fields "Last Updated" row.last_updated

  -- What is wrong with a record that is refused.
  pub data IsFault (fields : Table String) : Refusal → Type 0 where
    absent : (header : String) → get fields header ≡ none → IsFault fields (value_required header)
    blank :
        (header raw : String)
        → get fields header ≡ some raw
        → str_eq (trim raw) "" ≡ true
        → IsFault fields (value_required header)
    no_number :
        (header text : String)
        → HasText fields header text
        → finite_number (bare_number text) ≡ none
        → IsFault fields (not_numeric header)
    no_volume :
        (header text : String)
        → HasText fields header text
        → finite_number (bare_number (bound_or (upper_bound text) text)) ≡ none
        → IsFault fields (not_numeric header)
    no_schema :
        (row : OpportunityCsvRow N)
        → IsReadFrom fields row
        → parse_row row ≡ none
        → IsFault fields invalid_row

  pub record IsRowError (fields : Table String) (row : ℕ) (e : OpportunityCsvParseError)
      : Type 0 where
    pub fault : IsFault fields e.refusal
    pub names_file : e.source_file_name ≡ name
    pub names_row : e.source_row_number ≡ some row

  returned :
      {A : Type 0} (P : A → Type 0) (fields : Table String) (row : ℕ) (a : A)
      → P a
      → Fits P (IsRowError fields row) (ok a)
  unfolding Fits
  returned P fields row a h = h

  refused :
      {A : Type 0} (P : A → Type 0) (fields : Table String) (row : ℕ) (refusal : Refusal)
      → IsFault fields refusal
      → Fits P (IsRowError fields row) (refuse ops name refusal (some row))
  unfolding Fits
  refused P fields row refusal h = record { fault = h; names_file = refl; names_row = refl }

  required_value-Fits :
      (fields : Table String) (row : ℕ) (header : String)
      → Fits
          (HasText fields header)
          (IsRowError fields row)
          (required_value ops name fields row header)
  unfolding required_value
  required_value-Fits fields row header =
      let P = HasText fields header in
      let Q = IsRowError fields row in
      elim-Fits P Q (get fields header) _ _
        (λ e. refused P fields row (value_required header) (absent header e))
        (λ raw e.
          if-Fits P Q (str_eq (trim raw) "") _ _
            (λ empty. refused P fields row (value_required header) (blank header raw e empty))
            (λ full.
              returned P fields row (trim raw)
                (record { raw = raw; under_header = e; trimmed = refl; not_empty = full })))

  -- A number of a text, of which the reason of a refusal is known.
  parse_number-Fits :
      (P : N → Type 0) (fields : Table String) (row : ℕ) (header text : String)
      → (finite_number (bare_number text) ≡ none → IsFault fields (not_numeric header))
      → ((number : N) → finite_number (bare_number text) ≡ some number → P number)
      → Fits P (IsRowError fields row) (parse_number ops name header row text)
  unfolding parse_number
  parse_number-Fits P fields row header text h k =
      elim-Fits P (IsRowError fields row) (finite_number (bare_number text)) _ _
        (λ e. refused P fields row (not_numeric header) (h e))
        (λ number e. returned P fields row number (k number e))

  number_of-Fits :
      (fields : Table String) (row : ℕ) (header : String)
      → Fits
          (HasNumber fields header)
          (IsRowError fields row)
          (number_of ops name fields row header)
  unfolding number_of
  number_of-Fits fields row header =
      let P = HasNumber fields header in
      >>=-Fits (HasText fields header) P (IsRowError fields row)
        (required_value ops name fields row header) (parse_number ops name header row)
        (required_value-Fits fields row header)
        (λ text h.
          parse_number-Fits P fields row header text (no_number header text h)
            (λ number e. record { text = text; has_text = h; read = e }))

  volume-Fits :
      (fields : Table String) (row : ℕ) (text : String)
      → HasText fields "Search Volume - 30 Day Exact" text
      → Fits
          (HasVolume fields "Search Volume - 30 Day Exact")
          (IsRowError fields row)
          (parse_search_volume ops name row text)
  unfolding parse_search_volume
  volume-Fits fields row text h =
      let header : String = "Search Volume - 30 Day Exact" in
      let P = HasVolume fields header in
      let Q = IsRowError fields row in
      let at = λ (o : Option String). finite_number (bare_number (bound_or o text)) in
      elim-Fits P Q (upper_bound text) _ _
        (λ b.
          let R = λ (number : N). at (upper_bound text) ≡ some number in
          >>=-Fits R P Q (parse_number ops name header row text) _
            (parse_number-Fits R fields row header text (λ e. no_volume header text h (ap at b ∙ e))
              (λ number e. ap at b ∙ e))
            (λ number e.
              returned P fields row (record { value = number; is_upper_bound = false })
                (record { text = text; has_text = h; read = e; same_bound = sym (ap is_bound b) })))
        (λ bound b.
          let R = λ (number : N). at (upper_bound text) ≡ some number in
          >>=-Fits R P Q (parse_number ops name header row bound) _
            (parse_number-Fits R fields row header bound
              (λ e. no_volume header text h (ap at b ∙ e)) (λ number e. ap at b ∙ e))
            (λ number e.
              returned P fields row (record { value = number; is_upper_bound = true })
                (record { text = text; has_text = h; read = e; same_bound = sym (ap is_bound b) })))

  then_text :
      {B : Type 0} (P : B → Type 0) (fields : Table String) (row : ℕ) (header : String)
      (next : String → Result OpportunityCsvParseError B)
      → ((text : String) → HasText fields header text → Fits P (IsRowError fields row) (next text))
      → Fits P (IsRowError fields row) (required_value ops name fields row header >>= next)
  then_text P fields row header next =
      >>=-Fits (HasText fields header) P (IsRowError fields row)
        (required_value ops name fields row header) next (required_value-Fits fields row header)

  then_number :
      {B : Type 0} (P : B → Type 0) (fields : Table String) (row : ℕ) (header : String)
      (next : N → Result OpportunityCsvParseError B)
      → ((n : N) → HasNumber fields header n → Fits P (IsRowError fields row) (next n))
      → Fits P (IsRowError fields row) (number_of ops name fields row header >>= next)
  then_number P fields row header next =
      >>=-Fits (HasNumber fields header) P (IsRowError fields row)
        (number_of ops name fields row header) next (number_of-Fits fields row header)

  read_fields-Fits :
      (fields : Table String) (row : ℕ)
      → Fits (IsReadFrom fields) (IsRowError fields row) (read_fields ops name fields row)
  unfolding read_fields
  read_fields-Fits fields row =
      let P = IsReadFrom fields in
      then_text P fields row "Keyword" _ (λ keyword k.
        then_number P fields row "Niche Score" _ (λ niche_score ns.
          then_number P fields row "Units Sold - Monthly Avg" _ (λ monthly_units mu.
            then_number P fields row "Price - Monthly Avg" _ (λ average_price ap'.
              then_text P fields row "Search Volume - 30 Day Exact" _ (λ text t.
                >>=-Fits (HasVolume fields "Search Volume - 30 Day Exact") P (IsRowError fields row)
                  (parse_search_volume ops name row text) _ (volume-Fits fields row text t)
                  (λ volume v. then_number P fields row "Search Trend - 30 Day" _ (λ trend_30 t30.
                    then_number P fields row "Search Trend - 90 Day" _ (λ trend_90 t90.
                      then_text P fields row "Competition" _ (λ competition c.
                        then_text P fields row "Seasonality" _ (λ seasonality se.
                          then_text P fields row "Last Updated" _ (λ last_updated l.
                            returned P fields row _ (record {
                              keyword = k;
                              niche_score = ns;
                              monthly_units = mu;
                              average_price = ap';
                              search_volume = v;
                              trend_30 = t30;
                              trend_90 = t90;
                              competition = c;
                              seasonality = se;
                              last_updated = l;
                            }))))))))))))

  -- A row that was read and admitted by the schema.
  pub record IsRead (fields : Table String) (row : ParsedOpportunityRow N) : Type 0 where
    pub read : OpportunityCsvRow N
    pub is_read : IsReadFrom fields read
    pub admitted : parse_row read ≡ some row.parsed

  -- Reading a record gives a row whose fields are each read under their own header and then admitted by
  -- the schema; or an error that names the file and the record's line, and whose reason holds: a
  -- value that is absent or blank, a text that is no number, or fields that the schema refuses.
  pub map_row-Fits :
      (offset : ℕ) (entry : CsvRecordWithInfo)
      → Fits
          (IsRead entry.record_fields)
          (IsRowError entry.record_fields (starting_line ops name entry + offset))
          (map_row ops name offset entry)
  unfolding map_row
  map_row-Fits offset entry =
      let fields = entry.record_fields in
      let row = starting_line ops name entry + offset in
      let P = IsRead fields in
      >>=-Fits (IsReadFrom fields) P (IsRowError fields row) (read_fields ops name fields row)
        (row_of ops name entry row) (read_fields-Fits fields row)
        (λ read h.
          elim-Fits P (IsRowError fields row) (parse_row read) _ _
            (λ e. refused P fields row invalid_row (no_schema read h e))
            (λ parsed e.
              returned P fields row
                (record {
                  parsed = parsed;
                  source_file_name = name;
                  source_row_number = row;
                  raw_row_text = entry.raw;
                  raw_row = fields;
                })
                (record { read = read; is_read = h; admitted = e })))
