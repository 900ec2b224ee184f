-- ===== src/Imports/Files.antt =====
-- Theorems on the files that packages/jungle-scout/src/opportunity-csv.ts reads.
use amazon_research_agent.Base.{
  ℕ, String, true, false, not, ◌≤◌, some, List, [], ◌∷◌, ◌≡◌, refl, sym, subst, ◌+◌, arith, map,
  filter, includes, is_empty, length, ltb, All, str_eq, Bool-cases, Option-cases, inl, inr,
}
use amazon_research_agent.Base.Result.{Result, ok, err, ◌>>=◌}
use amazon_research_agent.Base.Table.{Table}
use amazon_research_agent.Imports.{
  required_opportunity_headers, max_opportunity_csv_rows, CsvRecordWithInfo, ParsedOpportunityRow,
  ParsedOpportunityFile, OpportunityCsvParseError, CsvOperations, CsvDocument, OpportunityCsvRow,
  row_of, starting_line, map_row, map_rows, missing_of, file_of, read_document,
  parse_opportunity_finder_csv, without_preamble, read_fields,
}

none_missing :
    (headers required : List String)
    → is_empty (filter (λ r. not (includes headers r)) required) ≡ true
    → All (λ r. includes headers r ≡ true) required
none_missing headers [] h = tt
none_missing headers (r ∷ rs) h = elim (Bool-cases (includes headers r)) [
  | inl e ↦ (e, none_missing headers rs (ground (arith, e)))
  | inr e ↦ absurd (ground (arith, e))
]

module _ {N : Type 0} (ops : CsvOperations N) (name : String) where
  -- What a row keeps of its record: the fields, the text and the number of its first line.
  abbrev pub row_trace : ParsedOpportunityRow N → Table String × String × ℕ
  row_trace row = (row.raw_row, row.raw_row_text, row.source_row_number)

  abbrev pub record_trace : ℕ → CsvRecordWithInfo → Table String × String × ℕ
  record_trace offset entry =
      (entry.record_fields, entry.raw, starting_line ops name entry + offset)

  abbrev IsRowOf : ℕ → CsvRecordWithInfo → ParsedOpportunityRow N → Type 0
  IsRowOf offset entry row =
      (row_trace row ≡ record_trace offset entry) × (row.source_file_name ≡ name)

  row_of-IsRowOf :
      (offset : ℕ) (entry : CsvRecordWithInfo) (row : ParsedOpportunityRow N)
      (fields : Result OpportunityCsvParseError (OpportunityCsvRow N))
      → (fields >>= row_of ops name entry (starting_line ops name entry + offset)) ≡ ok row
      → IsRowOf offset entry row
  row_of-IsRowOf offset entry row (ok fields) h = ground arith
  row_of-IsRowOf offset entry row (err e) h = absurd (cc h)

  map_row-IsRowOf :
      (offset : ℕ) (entry : CsvRecordWithInfo) (row : ParsedOpportunityRow N)
      → map_row ops name offset entry ≡ ok row
      → IsRowOf offset entry row
  unfolding map_row
  map_row-IsRowOf offset entry row h =
      let number = starting_line ops name entry + offset in
      row_of-IsRowOf offset entry row (read_fields ops name entry.record_fields number) h

  abbrev pub AreRowsOf : ℕ → List CsvRecordWithInfo → List (ParsedOpportunityRow N) → Type 0
  AreRowsOf offset entries rows =
      (map row_trace rows ≡ map (record_trace offset) entries)
      × All (λ r. r.source_file_name ≡ name) rows

  both :
      {A : Type 0} (first : Result OpportunityCsvParseError A)
      (others : Result OpportunityCsvParseError (List A)) (rows : List A)
      → (first >>= λ row. others >>= λ rest. ok (row ∷ rest)) ≡ ok rows
      → (row : A) × (rest : List A) × (first ≡ ok row) × (others ≡ ok rest) × (rows ≡ row ∷ rest)
  both (ok row) (ok rest) rows h = (row, rest, refl, refl, cc h)
  both (ok row) (err e) rows h = absurd (cc h)
  both (err e) others rows h = absurd (cc h)

  map_rows-AreRowsOf :
      (offset : ℕ) (entries : List CsvRecordWithInfo) (rows : List (ParsedOpportunityRow N))
      → map_rows ops name offset entries ≡ ok rows
      → AreRowsOf offset entries rows
  unfolding map_rows
  map_rows-AreRowsOf offset [] rows h =
      let same : [] ≡ rows = cc h in subst (AreRowsOf offset []) same (refl, tt)
  map_rows-AreRowsOf offset (entry ∷ entries) rows h =
      let (row, rest, first, others, same) =
        both (map_row ops name offset entry) (map_rows ops name offset entries) rows h in
      let (keeps, named) = map_row-IsRowOf offset entry row first in
      let (all_keep, all_named) = map_rows-AreRowsOf offset entries rest others in
      subst (AreRowsOf offset (entry ∷ entries)) (sym same)
        (cc (keeps, all_keep), (named, all_named))

  abbrev Found : Type 0
  Found = Result OpportunityCsvParseError (List String × List CsvRecordWithInfo)

  -- A document with headers that was read has the required ones, and its records are the library's.
  read_document-headers :
      (document : CsvDocument) (headers : List String) (entries : List CsvRecordWithInfo)
      → read_document ops name document ≡ ok (headers, entries)
      → is_empty headers ≡ false
      → All (λ r. includes headers r ≡ true) required_opportunity_headers
        × (document.records headers ≡ some entries)
  unfolding read_document
  read_document-headers document headers entries h full = elim (Option-cases document.raw_headers) [
    | inl e ↦ elim (Option-cases (document.records [])) [
      | inl missing ↦ absurd (ground (arith, e, missing))
      | inr (found, records) ↦ absurd (ground (arith, e, records))
    ]
    | inr (raw, e) ↦
        let known = map ops.trim raw in
        elim (Bool-cases (is_empty (missing_of ops name known))) [
          | inl complete ↦ elim (Option-cases (document.records known)) [
            | inl missing ↦ absurd (ground (arith, e, complete, missing))
            | inr (found, records) ↦
                let same : known ≡ headers = ground (arith, e, complete, records) in
                let same_entries : found ≡ entries = ground (arith, e, complete, records) in
                (
                  subst (λ hs. All (λ r. includes hs r ≡ true) required_opportunity_headers) same
                      (none_missing known required_opportunity_headers complete),
                  cc (same, same_entries, records),
                )
          ]
          | inr some_missing ↦ absurd (ground (arith, e, some_missing))
        ]
  ]

  file_rows :
      (file : ParsedOpportunityFile N) (headers : List String)
      (read : Result OpportunityCsvParseError (List (ParsedOpportunityRow N)))
      → (read >>= λ rows. ok (record { source_file_name = name; headers = headers; rows = rows }))
        ≡ ok file
      → (file.headers ≡ headers) × (read ≡ ok file.rows) × (file.source_file_name ≡ name)
  file_rows file headers (ok rows) h = (cc h, cc h, cc h)
  file_rows file headers (err e) h = absurd (cc h)

  -- A file is made from headers and at most the greatest number of records.
  abbrev IsMadeOf : ℕ → Found → ParsedOpportunityFile N → Type 0
  IsMadeOf offset found file =
      (entries : List CsvRecordWithInfo) × (found ≡ ok (file.headers, entries))
      × (is_empty file.headers ≡ false)
      × (length entries ≤ max_opportunity_csv_rows)
      × (map_rows ops name offset entries ≡ ok file.rows)
      × (file.source_file_name ≡ name)

  file_of-IsMadeOf :
      (offset : ℕ) (found : Found) (file : ParsedOpportunityFile N)
      → (found >>= file_of ops name offset) ≡ ok file
      → IsMadeOf offset found file
  file_of-IsMadeOf offset (err e) file h = absurd (cc h)
  file_of-IsMadeOf offset (ok (headers, entries)) file h =
      elim (Bool-cases (ltb max_opportunity_csv_rows (length entries))) [
        | inl long ↦ absurd (ground (arith, long))
        | inr short ↦ elim (Bool-cases (is_empty headers)) [
          | inl empty ↦ absurd (ground (arith, short, empty))
          | inr full ↦
              let rows = map_rows ops name offset entries in
              let (same, read, named) = file_rows file headers rows (ground (arith, short, full)) in
              (entries, cc same, cc (same, full), ground (arith, short), read, named)
        ]
      ]

  -- A file of what the CSV library finds after the standard preamble.
  pub record IsFileOf (parse : String → CsvDocument) (input : String)
      (file : ParsedOpportunityFile N) : Type 0 where
    pub has_headers : All (λ r. includes file.headers r ≡ true) required_opportunity_headers
    pub entries : List CsvRecordWithInfo
    pub few_rows : length entries ≤ max_opportunity_csv_rows
    pub are_records :
        let (offset, csv_input) = without_preamble input (ops.after_preamble input) in
        (parse csv_input).records file.headers ≡ some entries
    pub are_rows :
        let (offset, csv_input) = without_preamble input (ops.after_preamble input) in
        AreRowsOf offset entries file.rows
    pub names_source : file.source_file_name ≡ name

  -- A file that was read names its source and has the required headers and at most the greatest
  -- number of rows, which keep the fields, the text and the first line of the CSV library's
  -- records, in their order, and name the source too.
  pub parse_opportunity_finder_csv-IsFileOf :
      (parse : String → CsvDocument) (input : String) (file : ParsedOpportunityFile N)
      → parse_opportunity_finder_csv ops name parse input ≡ ok file
      → IsFileOf parse input file
  unfolding parse_opportunity_finder_csv
  parse_opportunity_finder_csv-IsFileOf parse input file h =
      elim (Bool-cases (str_eq (ops.trim name) "")) [
        | inl empty ↦ absurd (ground (arith, empty))
        | inr full ↦
            let (offset, csv_input) = without_preamble input (ops.after_preamble input) in
            let found = read_document ops name (parse csv_input) in
            let (entries, read, full_headers, few, rows, named) =
              file_of-IsMadeOf offset found file (cc (full, h)) in
            let (all, records) =
              read_document-headers (parse csv_input) file.headers entries read full_headers in
            record {
              has_headers = all;
              entries = entries;
              few_rows = few;
              are_records = records;
              are_rows = map_rows-AreRowsOf offset entries file.rows rows;
              names_source = named;
            }
      ]
