-- ===== src/Tests/Csv.antt =====
-- Runs of packages/jungle-scout/src/opportunity-csv.ts.
use amazon_research_agent.Base.{includes, ◌+◌, ℕ, String, true, some, [], ◌∷◌, ◌≡◌, refl}
use amazon_research_agent.Base.Result.{ok, err}
use amazon_research_agent.Base.Table.{get}
use amazon_research_agent.Imports.{
  required_opportunity_headers, CsvRecordWithInfo, ParsedOpportunityRow, ParsedOpportunityFile,
  CsvOperations, CsvDocument, not_numeric, parse_opportunity_finder_csv, parse_number,
  parse_search_volume, required_value, starting_line, number_of, read_fields, map_row, map_rows,
  read_document,
}
use amazon_research_agent.Imports.Refusals.{Fits, IsRead, IsRowError, map_row-Fits}
use amazon_research_agent.Imports.Errors.{IsReadFile, IsError, parse_opportunity_finder_csv-Fits}
use amazon_research_agent.Imports.Files.{IsFileOf, parse_opportunity_finder_csv-IsFileOf}

-- Numbers and bounds are known by their texts.
abbrev operations : CsvOperations ℕ
operations = record {
  trim = λ text. text;
  bare_number = λ text. text;
  finite_number = get (("7", 7) ∷ ("120", 120) ∷ ("25", 25) ∷ []);
  upper_bound = get (("< 120", "120") ∷ []);
  line_breaks = λ raw. 3;
  ends_with_break = λ raw. true;
  after_preamble = get (("JUNGLESCOUT WEBAPP CSV EXPORT", "table") ∷ []);
  parse_row = some;
}

-- A record of three lines that ends on line 4.
abbrev record_of : String → CsvRecordWithInfo
record_of units = record {
  record_fields =
      ("Keyword", "shoe rack")
      ∷ ("Niche Score", "7")
      ∷ ("Units Sold - Monthly Avg", units)
      ∷ ("Price - Monthly Avg", "25")
      ∷ ("Search Volume - 30 Day Exact", "< 120")
      ∷ ("Search Trend - 30 Day", "7")
      ∷ ("Search Trend - 90 Day", "7")
      ∷ ("Competition", "Low")
      ∷ ("Seasonality", "Low")
      ∷ ("Last Updated", "May 1")
      ∷ [];
  raw = units;
  lines = 4;
}

abbrev document_of : String → String → CsvDocument
document_of units text = record {
  raw_headers = some required_opportunity_headers;
  records = λ headers. some (record_of units ∷ []);
}

abbrev pub racks : ParsedOpportunityRow ℕ
racks = record {
  parsed = record {
    keyword = "shoe rack";
    niche_score = 7;
    monthly_units = 120;
    average_price = 25;
    search_volume = record { value = 120; is_upper_bound = true };
    trend_30 = 7;
    trend_90 = 7;
    competition = "Low";
    seasonality = "Low";
    last_updated = "May 1";
  };
  source_file_name = "may.csv";
  source_row_number = 4;
  raw_row_text = "120";
  raw_row = (record_of "120").record_fields;
}

abbrev may : ParsedOpportunityFile ℕ
may = record {
  source_file_name = "may.csv";
  headers = required_opportunity_headers;
  rows = racks ∷ [];
}

parsed_with_preamble :
    parse_opportunity_finder_csv operations "may.csv"
      (document_of "120")
      "JUNGLESCOUT WEBAPP CSV EXPORT"
    ≡ ok may
unfolding parse_opportunity_finder_csv parse_number parse_search_volume required_value starting_line
    number_of read_fields map_row map_rows read_document get includes
parsed_with_preamble = refl

not_a_number :
    parse_opportunity_finder_csv operations "may.csv" (document_of "many") "table"
    ≡ err (record {
      refusal = not_numeric "Units Sold - Monthly Avg";
      source_file_name = "may.csv";
      source_row_number = some 2;
    })
unfolding parse_opportunity_finder_csv parse_number parse_search_volume required_value starting_line
    number_of read_fields map_row map_rows read_document get includes
not_a_number = refl

parse_opportunity_finder_csv-IsFileOf_example :
    IsFileOf operations "may.csv" (document_of "120") "JUNGLESCOUT WEBAPP CSV EXPORT" may
parse_opportunity_finder_csv-IsFileOf_example =
    parse_opportunity_finder_csv-IsFileOf operations "may.csv" (document_of "120")
      "JUNGLESCOUT WEBAPP CSV EXPORT" may parsed_with_preamble

map_row-Fits_example :
    Fits
      (IsRead operations "may.csv" (record_of "many").record_fields)
      (IsRowError operations "may.csv"
        (record_of "many").record_fields
        (starting_line operations "may.csv" (record_of "many") + 2))
      (map_row operations "may.csv" 2 (record_of "many"))
map_row-Fits_example = map_row-Fits operations "may.csv" 2 (record_of "many")

parse_opportunity_finder_csv-Fits_example :
    Fits
      (IsReadFile operations "may.csv" (document_of "many" "table"))
      (IsError operations "may.csv" 0 (document_of "many" "table"))
      (parse_opportunity_finder_csv operations "may.csv" (document_of "many") "table")
unfolding get
parse_opportunity_finder_csv-Fits_example =
    parse_opportunity_finder_csv-Fits operations "may.csv" (document_of "many") "table"
