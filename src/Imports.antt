-- ===== src/Imports.antt =====
-- packages/jungle-scout/src/opportunity-csv.ts: the reader of exported opportunities. The CSV library
-- is a parameter, as are the operations on texts, the reading of numbers, and the checks of a row's
-- fields by the schema library.
pub mod Files
pub mod Refusals
pub mod Errors
use amazon_research_agent.Base.{
  ℕ, String, Bool, true, false, not, ◌-◌, ◌+◌, Option, none, some, List, [], ◌∷◌, map, filter,
  includes, is_empty, length, ltb, str_eq, if◌then◌else◌,
}
use amazon_research_agent.Base.Result.{Result, ok, err, ◌>>=◌}
use amazon_research_agent.Base.Table.{Table, get}

abbrev pub required_opportunity_headers : List String
required_opportunity_headers =
    "Keyword" ∷ "Niche Score" ∷ "Units Sold - Monthly Avg" ∷ "Price - Monthly Avg"
    ∷ "Search Volume - 30 Day Exact" ∷ "Search Trend - 30 Day" ∷ "Search Trend - 90 Day"
    ∷ "Competition" ∷ "Seasonality" ∷ "Last Updated" ∷ []

abbrev pub max_opportunity_csv_rows : ℕ
max_opportunity_csv_rows = 20000

-- A record by its headers, its text, and the number of the line that it ends on.
pub record CsvRecordWithInfo : Type 0 where
  pub record_fields : Table String
  pub raw : String
  pub lines : ℕ

pub record SearchVolume (N : Type 0) : Type 0 where
  pub value : N
  pub is_upper_bound : Bool

pub record OpportunityCsvRow (N : Type 0) : Type 0 where
  pub keyword : String
  pub niche_score : N
  pub monthly_units : N
  pub average_price : N
  pub search_volume : SearchVolume N
  pub trend_30 : N
  pub trend_90 : N
  pub competition : String
  pub seasonality : String
  pub last_updated : String

pub record ParsedOpportunityRow (N : Type 0) : Type 0 where
  pub parsed : OpportunityCsvRow N
  pub source_file_name : String
  pub source_row_number : ℕ
  pub raw_row_text : String
  pub raw_row : Table String

pub record ParsedOpportunityFile (N : Type 0) : Type 0 where
  pub source_file_name : String
  pub headers : List String
  pub rows : List (ParsedOpportunityRow N)

-- Why a file is refused.
pub data Refusal : Type 0 where
  value_required not_numeric : String → Refusal
  invalid_row empty_file_name too_many_rows invalid_structure : Refusal
  missing_headers : List String → Refusal

pub record OpportunityCsvParseError : Type 0 where
  pub refusal : Refusal
  pub source_file_name : String
  pub source_row_number : Option ℕ

-- What the reader takes from the language and from the schema library.
pub record CsvOperations (N : Type 0) : Type 0 where
  pub trim : String → String
  pub bare_number : String → String
  pub finite_number : String → Option N
  pub upper_bound : String → Option String
  pub line_breaks : String → ℕ
  pub ends_with_break : String → Bool
  pub after_preamble : String → Option String
  pub parse_row : OpportunityCsvRow N → Option (OpportunityCsvRow N)

-- What the CSV library finds: the headers, which a callback is given, and then the records, or that
-- the text is no CSV.
pub record CsvDocument : Type 0 where
  pub raw_headers : Option (List String)
  pub records : List String → Option (List CsvRecordWithInfo)

-- The lines before the table, and the table: the standard preamble has two.
abbrev pub without_preamble : String → Option String → ℕ × String
without_preamble input none = (0, input)
without_preamble input (some rest) = (2, rest)

module _ {N : Type 0} (ops : CsvOperations N) (source_file_name : String) where
  open ops use {
    trim, bare_number, finite_number, upper_bound, line_breaks, ends_with_break, after_preamble,
    parse_row,
  }

  abbrev pub Read : Type 0 → Type 0
  Read A = Result OpportunityCsvParseError A

  abbrev pub refuse : {A : Type 0} → Refusal → Option ℕ → Read A
  refuse refusal row =
      err
        (record { refusal = refusal; source_file_name = source_file_name; source_row_number = row })

  abbrev pub not_blank : String → ℕ → String → Read String
  not_blank header row text =
      if str_eq text "" then refuse (value_required header) (some row) else ok text

  unfoldable pub required_value : Table String → ℕ → String → Read String
  required_value fields row header = elim (get fields header) [
    | none ↦ refuse (value_required header) (some row)
    | some text ↦ not_blank header row (trim text)
  ]

  unfoldable pub parse_number : String → ℕ → String → Read N
  parse_number field row text = elim (finite_number (bare_number text)) [
    | none ↦ refuse (not_numeric field) (some row)
    | some number ↦ ok number
  ]

  unfoldable pub parse_search_volume : ℕ → String → Read (SearchVolume N)
  unfolding parse_number
  parse_search_volume row text = elim (upper_bound text) [
    | none ↦ parse_number "Search Volume - 30 Day Exact" row text >>= λ n.
        ok (record { value = n; is_upper_bound = false })
    | some bound ↦ parse_number "Search Volume - 30 Day Exact" row bound >>= λ n.
        ok (record { value = n; is_upper_bound = true })
  ]

  -- The line that a record starts on: the library's line number is at least its line breaks.
  unfoldable pub starting_line : CsvRecordWithInfo → ℕ
  starting_line entry =
      entry.lines - (line_breaks entry.raw - (if ends_with_break entry.raw then 1 else 0))

  unfoldable pub number_of : Table String → ℕ → String → Read N
  unfolding required_value parse_number
  number_of fields row header =
      required_value fields row header >>= λ text. parse_number header row text

  -- The fields of a row, read in the order of the schema's object.
  unfoldable pub read_fields : Table String → ℕ → Read (OpportunityCsvRow N)
  unfolding required_value number_of parse_search_volume
  read_fields fields row = required_value fields row "Keyword" >>= λ keyword.
      number_of fields row "Niche Score" >>= λ niche_score.
      number_of fields row "Units Sold - Monthly Avg" >>= λ monthly_units.
      number_of fields row "Price - Monthly Avg" >>= λ average_price.
      required_value fields row "Search Volume - 30 Day Exact" >>= λ volume.
      parse_search_volume row volume >>= λ search_volume.
      number_of fields row "Search Trend - 30 Day" >>= λ trend_30.
      number_of fields row "Search Trend - 90 Day" >>= λ trend_90.
      required_value fields row "Competition" >>= λ competition.
      required_value fields row "Seasonality" >>= λ seasonality.
      required_value fields row "Last Updated" >>= λ last_updated. ok (record {
        keyword = keyword;
        niche_score = niche_score;
        monthly_units = monthly_units;
        average_price = average_price;
        search_volume = search_volume;
        trend_30 = trend_30;
        trend_90 = trend_90;
        competition = competition;
        seasonality = seasonality;
        last_updated = last_updated;
      })

  -- A row of the fields that the schema admits.
  abbrev pub row_of : CsvRecordWithInfo → ℕ → OpportunityCsvRow N → Read (ParsedOpportunityRow N)
  row_of entry row fields = elim (parse_row fields) [
    | none ↦ refuse invalid_row (some row)
    | some parsed ↦ ok (record {
      parsed = parsed;
      source_file_name = source_file_name;
      source_row_number = row;
      raw_row_text = entry.raw;
      raw_row = entry.record_fields;
    })
  ]

  unfoldable pub map_row : ℕ → CsvRecordWithInfo → Read (ParsedOpportunityRow N)
  unfolding starting_line read_fields
  map_row source_line_offset entry =
      let row = starting_line entry + source_line_offset in
      read_fields entry.record_fields row >>= row_of entry row

  unfoldable pub map_rows : ℕ → List CsvRecordWithInfo → Read (List (ParsedOpportunityRow N))
  unfolding map_row
  map_rows source_line_offset [] = ok []
  map_rows source_line_offset (entry ∷ entries) = map_row source_line_offset entry >>= λ row.
      map_rows source_line_offset entries >>= λ rows. ok (row ∷ rows)

  abbrev pub missing_of : List String → List String
  missing_of headers =
      filter (λ required. not (includes headers required)) required_opportunity_headers

  -- The records of a document, with its headers, which the callback checks.
  unfoldable pub read_document : CsvDocument → Read (List String × List CsvRecordWithInfo)
  read_document document = elim document.raw_headers [
    | none ↦ elim (document.records []) [
      | none ↦ refuse invalid_structure none
      | some entries ↦ ok ([], entries)
    ]
    | some raw ↦
        let headers = map trim raw in
        if not (is_empty (missing_of headers))
        then refuse (missing_headers (missing_of headers)) none
        else elim (document.records headers) [
          | none ↦ refuse invalid_structure none
          | some entries ↦ ok (headers, entries)
        ]
  ]

  -- The file of a document's headers and records.
  abbrev pub file_of : ℕ → List String × List CsvRecordWithInfo → Read (ParsedOpportunityFile N)
  file_of offset (headers, entries) =
      if ltb max_opportunity_csv_rows (length entries)
      then refuse too_many_rows none
      else if is_empty headers
      then refuse (missing_headers required_opportunity_headers) none
      else map_rows offset entries >>= λ rows.
          ok (record { source_file_name = source_file_name; headers = headers; rows = rows })

  unfoldable pub parse_opportunity_finder_csv :
      (String → CsvDocument) → String → Read (ParsedOpportunityFile N)
  unfolding read_document map_rows
  parse_opportunity_finder_csv parse input =
      if str_eq (trim source_file_name) ""
      then refuse empty_file_name none
      else (let (offset, csv_input) = without_preamble input (after_preamble input) in
          read_document (parse csv_input) >>= file_of offset)
