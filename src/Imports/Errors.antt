-- ===== src/Imports/Errors.antt =====
-- Theorems on the errors of whole files of packages/jungle-scout/src/opportunity-csv.ts.
use mathlib.Core.List.{Memᴰ}
use amazon_research_agent.Base.{
  ℕ, String, true, false, not, Option, none, some, List, [], ◌∷◌, ◌≡◌, refl, sym, ap, ◌∙◌, includes,
  map, is_empty, length, ltb, str_eq, ◌+◌, arith,
}
use amazon_research_agent.Base.Result.{Result, ok, err, ◌>>=◌}
use amazon_research_agent.Imports.{
  required_opportunity_headers, max_opportunity_csv_rows, CsvRecordWithInfo, ParsedOpportunityRow,
  ParsedOpportunityFile, OpportunityCsvParseError, Refusal, empty_file_name, missing_headers,
  too_many_rows, invalid_structure, CsvOperations, CsvDocument, starting_line, map_row, map_rows,
  missing_of, read_document, file_of, parse_opportunity_finder_csv, without_preamble, refuse,
}
use amazon_research_agent.Imports.Refusals.{
  Fits, >>=-Fits, elim-Fits, if-Fits, IsRead, IsRowError, map_row-Fits,
}

Fits-weaken :
    {E A : Type 0} (P : A → Type 0) (Q Q' : E → Type 0) (r : Result E A)
    → ((e : E) → Q e → Q' e)
    → Fits P Q r
    → Fits P Q' r
unfolding Fits
Fits-weaken P Q Q' (ok a) w h = h
Fits-weaken P Q Q' (err e) w h = w e h

nil_of_empty : (texts : List String) → is_empty texts ≡ true → texts ≡ []
nil_of_empty [] h = refl
nil_of_empty (t ∷ ts) h = absurd (cc h)

module _ {N : Type 0} (ops : CsvOperations N) (name : String) where
  open ops use {trim}

  -- Each record has its row.
  abbrev pub AreRead : List CsvRecordWithInfo → List (ParsedOpportunityRow N) → Type 0
  AreRead [] [] = Unit {0}
  AreRead (entry ∷ entries) (row ∷ rows) =
      IsRead ops name entry.record_fields row × AreRead entries rows
  AreRead [] (row ∷ rows) = true ≡ false
  AreRead (entry ∷ entries) [] = true ≡ false

  -- An error of one of the records.
  pub record IsOfRecord (offset : ℕ) (entries : List CsvRecordWithInfo)
      (e : OpportunityCsvParseError) : Type 0 where
    pub entry : CsvRecordWithInfo
    pub among : Memᴰ entry entries
    pub error : IsRowError ops name entry.record_fields (starting_line ops name entry + offset) e

  map_rows-Fits :
      (offset : ℕ) (entries : List CsvRecordWithInfo)
      → Fits (AreRead entries) (IsOfRecord offset entries) (map_rows ops name offset entries)
  unfolding map_rows Fits
  map_rows-Fits offset [] = tt
  map_rows-Fits offset (entry ∷ entries) =
      let P = IsRead ops name entry.record_fields in
      let Q = IsOfRecord offset (entry ∷ entries) in
      let rest = map_rows ops name offset entries in
      >>=-Fits P (AreRead (entry ∷ entries)) Q (map_row ops name offset entry)
        (λ row. rest >>= λ rows. ok (row ∷ rows))
        (Fits-weaken P
          (IsRowError ops name entry.record_fields (starting_line ops name entry + offset)) Q
          (map_row ops name offset entry)
          (λ e h. record { entry = entry; among = Memᴰ.head refl; error = h })
          (map_row-Fits ops name offset entry))
        (λ row read.
          >>=-Fits (AreRead entries) (AreRead (entry ∷ entries)) Q rest (λ rows. ok (row ∷ rows))
            (Fits-weaken (AreRead entries) (IsOfRecord offset entries) Q rest
              (λ e h. record { entry = h.entry; among = Memᴰ.tail h.among; error = h.error })
              (map_rows-Fits offset entries))
            (λ rows all. (read, all)))

  abbrev pub trimmed : Option (List String) → List String
  trimmed none = []
  trimmed (some raw) = map trim raw

  abbrev pub headers_of : CsvDocument → List String
  headers_of document = trimmed document.raw_headers

  -- What is wrong with a file that is refused as a whole.
  pub data IsFileFault (document : CsvDocument) : Refusal → Type 0 where
    no_name : str_eq (trim name) "" ≡ true → IsFileFault document empty_file_name
    lacks_headers :
        (lacking : List String)
        → lacking ≡ missing_of ops name (headers_of document)
        → is_empty lacking ≡ false
        → IsFileFault document (missing_headers lacking)
    no_structure :
        document.records (headers_of document) ≡ none → IsFileFault document invalid_structure
    too_long :
        (entries : List CsvRecordWithInfo)
        → document.records (headers_of document) ≡ some entries
        → ltb max_opportunity_csv_rows (length entries) ≡ true
        → IsFileFault document too_many_rows

  -- An error of a file as a whole, which names no row, or one of a record.
  pub data IsError (offset : ℕ) (document : CsvDocument) (e : OpportunityCsvParseError)
      : Type 0 where
    of_file :
        IsFileFault document e.refusal
        → e.source_file_name ≡ name
        → e.source_row_number ≡ none
        → IsError offset document e
    of_record :
        (entries : List CsvRecordWithInfo)
        → document.records (headers_of document) ≡ some entries
        → IsOfRecord offset entries e
        → IsError offset document e

  -- The rows of a file are those of the records.
  pub record IsReadFile (document : CsvDocument) (file : ParsedOpportunityFile N) : Type 0 where
    pub entries : List CsvRecordWithInfo
    pub are_records : document.records (headers_of document) ≡ some entries
    pub are_read : AreRead entries file.rows

  refused_file :
      {A : Type 0} (P : A → Type 0) (offset : ℕ) (document : CsvDocument) (refusal : Refusal)
      → IsFileFault document refusal
      → Fits P (IsError offset document) (refuse ops name refusal none)
  unfolding Fits
  refused_file P offset document refusal h = of_file h refl refl

  -- What the document gives: its headers, and its records under them.
  abbrev IsFound : CsvDocument → List String × List CsvRecordWithInfo → Type 0
  IsFound document (headers, entries) =
      (headers ≡ headers_of document) × (document.records (headers_of document) ≡ some entries)

  found :
      (offset : ℕ) (document : CsvDocument) (headers : List String)
      (entries : List CsvRecordWithInfo)
      → headers ≡ headers_of document
      → document.records headers ≡ some entries
      → Fits (IsFound document) (IsError offset document) (ok (headers, entries))
  unfolding Fits
  found offset document headers entries same m = (same, sym (ap document.records same) ∙ m)

  read_document-Fits :
      (offset : ℕ) (document : CsvDocument)
      → Fits (IsFound document) (IsError offset document) (read_document ops name document)
  unfolding read_document
  read_document-Fits offset document =
      let P = IsFound document in
      let Q = IsError offset document in
      let records = document.records in
      elim-Fits P Q document.raw_headers _ _
        (λ e.
          let same : headers_of document ≡ [] = ap trimmed e in
          elim-Fits P Q (records []) _ _
            (λ m.
              refused_file P offset document invalid_structure (no_structure (ap records same ∙ m)))
            (λ entries m. found offset document [] entries (sym same) m))
        (λ raw e.
          let headers = map trim raw in
          let same : headers_of document ≡ headers = ap trimmed e in
          let lacking = missing_of ops name headers in
          if-Fits P Q (not (is_empty lacking)) _ _
            (λ some_lacking. refused_file P offset document (missing_headers lacking) (
              lacks_headers lacking (sym (ap (missing_of ops name) same))
                (ground (arith, some_lacking))))
            (λ complete.
              elim-Fits P Q (records headers) _ _
                (λ m.
                  refused_file P offset document invalid_structure
                    (no_structure (ap records same ∙ m)))
                (λ entries m. found offset document headers entries (sym same) m)))

  file_of-Fits :
      (offset : ℕ) (document : CsvDocument) (found : List String × List CsvRecordWithInfo)
      → IsFound document found
      → Fits (IsReadFile document) (IsError offset document) (file_of ops name offset found)
  unfolding Fits includes
  file_of-Fits offset document (headers, entries) (same, records) =
      let P = IsReadFile document in
      let Q = IsError offset document in
      if-Fits P Q (ltb max_opportunity_csv_rows (length entries)) _ _
        (λ long. refused_file P offset document too_many_rows (too_long entries records long))
        (λ short.
          if-Fits P Q (is_empty headers) _ _
            (λ empty.
              refused_file P offset document (missing_headers required_opportunity_headers) (
                lacks_headers required_opportunity_headers
                  (ap (missing_of ops name) (sym (nil_of_empty headers empty) ∙ same)) refl))
            (λ full.
              >>=-Fits (AreRead entries) P Q (map_rows ops name offset entries)
                (λ rows. ok (record { source_file_name = name; headers = headers; rows = rows }))
                (Fits-weaken (AreRead entries) (IsOfRecord offset entries) Q
                  (map_rows ops name offset entries) (λ e h. of_record entries records h)
                  (map_rows-Fits offset entries))
                (λ rows all. record { entries = entries; are_records = records; are_read = all })))

  -- Reading a file gives, when it succeeds, for each record of the CSV library a row that is read from
  -- it. An error names the file. Either it names no row, and the file has no name, lacks the headers
  -- that the error lists, is no CSV, or has too many rows; or it names the line of a record of the
  -- file, and the reason that it gives holds of that record.
  pub parse_opportunity_finder_csv-Fits :
      (parse : String → CsvDocument) (input : String)
      → let (offset, csv_input) = without_preamble input (ops.after_preamble input) in
        Fits
          (IsReadFile (parse csv_input))
          (IsError offset (parse csv_input))
          (parse_opportunity_finder_csv ops name parse input)
  unfolding parse_opportunity_finder_csv
  parse_opportunity_finder_csv-Fits parse input =
      let (offset, csv_input) = without_preamble input (ops.after_preamble input) in
      let document = parse csv_input in
      let P = IsReadFile document in
      let Q = IsError offset document in
      if-Fits P Q (str_eq (trim name) "") _ _
        (λ unnamed. refused_file P offset document empty_file_name (no_name unnamed))
        (λ named.
          >>=-Fits (IsFound document) P Q (read_document ops name document)
            (file_of ops name offset) (read_document-Fits offset document)
            (file_of-Fits offset document))
