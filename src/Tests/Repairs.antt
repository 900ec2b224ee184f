-- ===== src/Tests/Repairs.antt =====
-- Runs of packages/ai-router/src/structured.ts.
use amazon_research_agent.Base.{
  ℕ, String, true, false, Option, none, some, List, [], ◌∷◌, ◌≡◌, refl, ◌⊎◌, ◌==◌, suc, map,
  if◌then◌else◌, str_eq,
}
use amazon_research_agent.Base.Result.{ok}
use amazon_research_agent.Shared.Ai.{niche_normalization, subscription, is_payg}
use amazon_research_agent.Structured.{
  AiUsage, RawOutput, text_output, json_output, RawAiProviderResult, AiProviderResult,
  StructuredAiRequest, RawStructuredAiRequest, RawAiProvider, Schema, run_with_schema, repair,
  parsed_output, parse_raw_output, combine_usage,
}
use amazon_research_agent.Structured.Repairs.{
  IsReturned, run_with_schema-runs, run_with_schema-IsReturned,
}

-- The only value of JSON is a number, and the schema wants 7.
abbrev parse : String → Option ℕ
parse text = if str_eq text "7" then some 7 else none

abbrev only_seven : Option ℕ → Option ℕ
only_seven none = none
only_seven (some n) = if n == 7 then some n else none

abbrev seven : Schema ℕ ℕ
seven = record { json_schema = "7"; safe_parse = only_seven }

abbrev tokens : AiUsage
tokens = record {
  input_tokens = some 2;
  output_tokens = some 3;
  total_tokens = none;
  request_count = 1;
}

abbrev raw : RawOutput ℕ → RawAiProviderResult ℕ
raw output = record {
  raw_output = output;
  provider_id = "plan";
  model_id = "m";
  role = niche_normalization;
  input_hash = "h";
  usage = tokens;
  cost_class = subscription;
  started_at = "now";
  completed_at = "now";
}

-- The provider answers with a wrong value first, and with the right text after it.
abbrev provider : RawAiProvider ℕ ℕ
provider = record {
  billing_type = subscription;
  run_raw =
      λ asked s. (suc s, ok (raw (if asked.is_repair then text_output "7" else json_output 3)));
}

abbrev question : StructuredAiRequest
question = record {
  role = niche_normalization;
  model_id = "m";
  locale = "en";
  prompt = "p";
  input_hash = "h";
}

abbrev text_of : ℕ → Option String
text_of n = none

abbrev last_line : List String → String
last_line [] = ""
last_line (line ∷ []) = line
last_line (line ∷ next ∷ lines) = last_line (next ∷ lines)

abbrev answer : AiProviderResult ℕ ℕ
answer = record {
  result = raw (text_output "7");
  usage = record {
    input_tokens = some 4;
    output_tokens = some 6;
    total_tokens = none;
    request_count = 2;
  };
  output = 7;
}

repairs : (run_with_schema parse text_of last_line provider seven question 0).2 ≡ ok answer
unfolding run_with_schema repair parsed_output parse_raw_output combine_usage
repairs = refl

run_with_schema-runs_example :
    let asked = (run_with_schema parse text_of last_line provider seven question 0).0 in
    (map (λ (r : RawStructuredAiRequest). r.is_repair) asked ≡ false ∷ [])
    ⊎ ((map (λ (r : RawStructuredAiRequest). r.is_repair) asked ≡ false ∷ true ∷ [])
        × (is_payg subscription ≡ false))
run_with_schema-runs_example =
    run_with_schema-runs parse text_of last_line provider seven question 0

run_with_schema-IsReturned_example :
    IsReturned parse text_of last_line provider seven question 0 answer
run_with_schema-IsReturned_example =
    run_with_schema-IsReturned parse text_of last_line provider seven question 0 answer repairs
