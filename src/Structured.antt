-- ===== src/Structured.antt =====
-- packages/ai-router/src/structured.ts: a call of a provider whose output has to match a schema, with
-- one repair. JSON values are a parameter type; `JSON.parse`, `JSON.stringify`, the joining of lines
-- and the parser of a schema are parameters. The methods of a provider that a call does not use are
-- left out.
pub mod Repairs
use amazon_research_agent.Base.{
  ℕ, String, Bool, true, false, Option, none, some, List, [], ◌∷◌, ◌++◌, ◌+◌, ltb, if◌then◌else◌,
}
use amazon_research_agent.Base.Result.{Result, ok, err}
use amazon_research_agent.Base.Actions.{Call, Action, return, throw, ◌and_then◌, calling}
use amazon_research_agent.Shared.Ai.{AiRole, BillingType, is_payg}

pub record AiUsage : Type 0 where
  pub input_tokens : Option ℕ
  pub output_tokens : Option ℕ
  pub total_tokens : Option ℕ
  pub request_count : ℕ

-- An output is a text or another value.
pub data RawOutput (J : Type 0) : Type 0 where
  text_output : String → RawOutput J
  json_output : J → RawOutput J

pub record RawAiProviderResult (J : Type 0) : Type 0 where
  pub raw_output : RawOutput J
  pub provider_id : String
  pub model_id : String
  pub role : AiRole
  pub input_hash : String
  pub usage : AiUsage
  pub cost_class : BillingType
  pub started_at : String
  pub completed_at : String

pub record AiProviderResult (J T : Type 0) : Type 0 where
  pub result : RawAiProviderResult J
  pub usage : AiUsage
  pub output : T

pub record StructuredAiRequest : Type 0 where
  pub role : AiRole
  pub model_id : String
  pub locale : String
  pub prompt : String
  pub input_hash : String

pub record RawStructuredAiRequest : Type 0 where
  pub request : StructuredAiRequest
  pub schema : String
  pub is_repair : Bool

pub data StructuredError (J : Type 0) : Type 0 where
  invalid_structured_output : AiUsage → List (RawAiProviderResult J) → StructuredError J
  invalid_usage : StructuredError J
  provider_error : String → StructuredError J

-- A provider, over the state of the world.
pub record RawAiProvider (S J : Type 0) : Type 0 where
  pub billing_type : BillingType
  pub run_raw : RawStructuredAiRequest → Call S (StructuredError J) (RawAiProviderResult J)

-- What a schema is used for: its JSON form, and its parser. No value is `undefined`.
pub record Schema (J T : Type 0) : Type 0 where
  pub json_schema : String
  pub safe_parse : Option J → Option T

abbrev sum_known : Option ℕ → Option ℕ → Option ℕ
sum_known none b = none
sum_known (some a) none = none
sum_known (some a) (some b) = some (a + b)

unfoldable pub combine_usage : {J : Type 0} → AiUsage → AiUsage → Result (StructuredError J) AiUsage
combine_usage first second =
    let count = first.request_count + second.request_count in
    if ltb 0 count
    then ok (record {
      input_tokens = sum_known first.input_tokens second.input_tokens;
      output_tokens = sum_known first.output_tokens second.output_tokens;
      total_tokens = sum_known first.total_tokens second.total_tokens;
      request_count = count;
    })
    else err invalid_usage

-- The calls of the provider.
abbrev pub Runs : Type 0 → Type 0 → Type 0 → Type 0
Runs S J A = Action RawStructuredAiRequest S (StructuredError J) A

abbrev pub returning : {S J A : Type 0} → Result (StructuredError J) A → Runs S J A
returning result s = ([], s, result)

module _ {J : Type 0} (parse_json : String → Option J) where
  -- A text is parsed as JSON, and one that is none is `undefined`.
  unfoldable pub parse_raw_output : RawOutput J → Option J
  parse_raw_output (text_output text) = parse_json text
  parse_raw_output (json_output json) = some json

  -- The output of a run that matches the schema.
  unfoldable pub parsed_output : {T : Type 0} → Schema J T → RawAiProviderResult J → Option T
  unfolding parse_raw_output
  parsed_output schema raw = schema.safe_parse (parse_raw_output raw.raw_output)

module _ {J : Type 0} (stringify : J → Option String) (join_lines : List String → String) where
  abbrev or_unserializable : Option String → String
  or_unserializable none = "[unserializable output]"
  or_unserializable (some text) = text

  abbrev invalid_text : RawOutput J → String
  invalid_text (text_output text) = text
  invalid_text (json_output json) = or_unserializable (stringify json)

  -- The schema is given as the text of its JSON form.
  unfoldable pub repair_prompt : RawOutput J → String → String
  repair_prompt raw_output schema = join_lines (
      "Return only one JSON object that matches the target schema."
      ∷ "Invalid output:"
      ∷ invalid_text raw_output
      ∷ "Target schema:"
      ∷ schema
      ∷ [])

module _ {S J T : Type 0} (parse_json : String → Option J) (stringify : J → Option String)
    (join_lines : List String → String) where
  -- The run with the repair prompt, after a first run that does not match.
  unfoldable pub repair :
      RawAiProvider S J
      → Schema J T
      → StructuredAiRequest
      → RawAiProviderResult J
      → Runs S J (AiProviderResult J T)
  unfolding parsed_output combine_usage repair_prompt
  repair provider schema request first =
      let again : RawStructuredAiRequest = record {
        request = record request {
          prompt = repair_prompt stringify join_lines first.raw_output schema.json_schema;
        };
        schema = schema.json_schema;
        is_repair = true;
      } in
      calling again (provider.run_raw again) and_then λ repaired.
      returning (combine_usage first.usage repaired.usage) and_then λ usage.
      elim (parsed_output parse_json schema repaired) [
        | some output ↦ return (record { result = repaired; usage = usage; output = output })
        | none ↦ throw (invalid_structured_output usage (first ∷ repaired ∷ []))
      ]

  -- After the first run; a provider that is billed by use is not run again.
  abbrev pub after_first :
      RawAiProvider S J
      → Schema J T
      → StructuredAiRequest
      → RawAiProviderResult J
      → Runs S J (AiProviderResult J T)
  after_first provider schema request first = elim (parsed_output parse_json schema first) [
    | some output ↦ return (record { result = first; usage = first.usage; output = output })
    | none ↦
        if is_payg provider.billing_type
        then throw (invalid_structured_output first.usage (first ∷ []))
        else repair provider schema request first
  ]

  unfoldable pub run_with_schema :
      RawAiProvider S J → Schema J T → StructuredAiRequest → Runs S J (AiProviderResult J T)
  unfolding parsed_output repair
  run_with_schema provider schema request =
      let asked : RawStructuredAiRequest = record {
        request = request;
        schema = schema.json_schema;
        is_repair = false;
      } in
      calling asked (provider.run_raw asked) and_then after_first provider schema request
