-- ===== src/Structured/Repairs.antt =====
-- Theorems on the calls of packages/ai-router/src/structured.ts.
use amazon_research_agent.Base.{
  refl, ◌+◌, String, true, false, Option, none, some, List, [], ◌∷◌, ◌≡◌, arith, ◌⊎◌, inl, inr, map,
  Option-cases,
}
use amazon_research_agent.Base.Result.{Result, ok, err}
use amazon_research_agent.Base.Actions.{continue_with, ◌and_then◌, return, throw}
use amazon_research_agent.Shared.Ai.{is_payg}
use amazon_research_agent.Structured.{
  AiUsage, RawAiProviderResult, AiProviderResult, StructuredAiRequest, RawStructuredAiRequest,
  StructuredError, invalid_structured_output, RawAiProvider, Schema, returning, parsed_output,
  combine_usage, after_first, repair_prompt, repair, run_with_schema,
}

abbrev pub first_request :
    {J T : Type 0} → Schema J T → StructuredAiRequest → RawStructuredAiRequest
first_request schema request = record {
  request = request;
  schema = schema.json_schema;
  is_repair = false;
}

-- The request again, with the invalid output and the schema as its prompt.
abbrev pub repair_request :
    {J T : Type 0}
    → (J → Option String)
    → (List String → String)
    → Schema J T
    → StructuredAiRequest
    → RawAiProviderResult J
    → RawStructuredAiRequest
repair_request stringify join_lines schema request first = record {
  request = record request {
    prompt = repair_prompt stringify join_lines first.raw_output schema.json_schema;
  };
  schema = schema.json_schema;
  is_repair = true;
}

-- A result of the only run, whose answer matches the schema.
pub record IsFirst {J T : Type 0} (parse_json : String → Option J) (schema : Schema J T)
    (first : RawAiProviderResult J) (returned : AiProviderResult J T) : Type 0 where
  pub matches : parsed_output parse_json schema first ≡ some returned.output
  pub same_result : returned.result ≡ first
  pub same_usage : returned.usage ≡ first.usage

counts :
    {J : Type 0} (a b usage : AiUsage)
    → combine_usage {J = J} a b ≡ ok usage
    → usage.request_count ≡ a.request_count + b.request_count
unfolding combine_usage
counts a b usage h = ground arith

module _ {S J T : Type 0} (parse_json : String → Option J) (stringify : J → Option String)
    (join_lines : List String → String) where
  -- A call runs its provider once or twice, and twice only when it is not billed by use; the second
  -- run, and only that one, is marked as a repair.
  pub run_with_schema-runs :
      (provider : RawAiProvider S J) (schema : Schema J T) (request : StructuredAiRequest) (s : S)
      → let asked = (run_with_schema parse_json stringify join_lines provider schema request s).0 in
        (map (λ (r : RawStructuredAiRequest). r.is_repair) asked ≡ false ∷ [])
        ⊎ ((map (λ (r : RawStructuredAiRequest). r.is_repair) asked ≡ false ∷ true ∷ [])
            × (is_payg provider.billing_type ≡ false))
  unfolding run_with_schema repair
  run_with_schema-runs provider schema request s = ground arith

  -- A result of the second run, from the world that the first one left.
  pub record IsRepaired (provider : RawAiProvider S J) (schema : Schema J T)
      (request : StructuredAiRequest) (first : RawAiProviderResult J) (s : S)
      (returned : AiProviderResult J T) : Type 0 where
    pub no_match : parsed_output parse_json schema first ≡ none
    pub matches : parsed_output parse_json schema returned.result ≡ some returned.output
    pub after : S
    pub answered :
        provider.run_raw (repair_request stringify join_lines schema request first) s
        ≡ (after, ok returned.result)
    pub both_usages : combine_usage {J = J} first.usage returned.result.usage ≡ ok returned.usage
    pub both_counts :
        returned.usage.request_count
        ≡ first.usage.request_count + returned.result.usage.request_count

  -- What a call returns, by what the provider has answered.
  pub record IsReturned (provider : RawAiProvider S J) (schema : Schema J T)
      (request : StructuredAiRequest) (s : S) (returned : AiProviderResult J T) : Type 0 where
    pub first : RawAiProviderResult J
    pub between : S
    pub answered : provider.run_raw (first_request schema request) s ≡ (between, ok first)
    pub of_runs :
        IsFirst parse_json schema first returned
        ⊎ IsRepaired provider schema request first between returned

  second_run :
      (provider : RawAiProvider S J) (schema : Schema J T) (request : StructuredAiRequest)
      (first : RawAiProviderResult J) (s s' : S)
      (answer : Result (StructuredError J) (RawAiProviderResult J))
      (returned : AiProviderResult J T)
      → parsed_output parse_json schema first ≡ none
      → provider.run_raw (repair_request stringify join_lines schema request first) s ≡ (s', answer)
      → (continue_with
          (repair_request stringify join_lines schema request first ∷ [], s', answer)
          (λ repaired. returning (combine_usage first.usage repaired.usage) and_then λ usage.
            elim (parsed_output parse_json schema repaired) [
              | some output ↦ return (record { result = repaired; usage = usage; output = output })
              | none ↦ throw (invalid_structured_output usage (first ∷ repaired ∷ []))
            ])).2
        ≡ ok returned
      → IsRepaired provider schema request first s returned
  second_run provider schema request first s s' (err e) returned n r h = absurd (cc h)
  second_run provider schema request first s s' (ok repaired) returned n r h =
      let sum = combine_usage {J = J} first.usage repaired.usage in
      let same : returned.result ≡ repaired = ground arith in
      let usages : combine_usage {J = J} first.usage returned.result.usage ≡ ok returned.usage =
        ground arith in
      record {
        no_match = n;
        matches = ground arith;
        after = s';
        answered = cc (r, same);
        both_usages = usages;
        both_counts = counts first.usage returned.result.usage returned.usage usages;
      }

  first_of :
      (provider : RawAiProvider S J) (schema : Schema J T) (request : StructuredAiRequest)
      (s s' : S) (answer : Result (StructuredError J) (RawAiProviderResult J))
      (returned : AiProviderResult J T)
      → provider.run_raw (first_request schema request) s ≡ (s', answer)
      → (continue_with
          (first_request schema request ∷ [], s', answer)
          (after_first parse_json stringify join_lines provider schema request)).2
        ≡ ok returned
      → IsReturned provider schema request s returned
  first_of provider schema request s s' (err e) returned r h = absurd (cc h)
  first_of provider schema request s s' (ok first) returned r h = record {
    first = first;
    between = s';
    answered = r;
    of_runs = elim (Option-cases (parsed_output parse_json schema first)) [
      | inr (output, e) ↦ inl (ground (arith, e))
      | inl e ↦
          let (s'', again) =
            provider.run_raw (repair_request stringify join_lines schema request first) s' in
          inr (
            unfold repair in
            second_run provider schema request first s' s'' again returned e refl
              (ground (arith, e)))
    ];
  }

  -- What a call returns is the answer of the provider's first run, with its usage, when that matches the
  -- schema. Otherwise it is the answer of the second run, on the repair prompt: it matches the schema,
  -- and the usage is that of both runs, whose requests add up.
  pub run_with_schema-IsReturned :
      (provider : RawAiProvider S J) (schema : Schema J T) (request : StructuredAiRequest) (s : S)
      (returned : AiProviderResult J T)
      → (run_with_schema parse_json stringify join_lines provider schema request s).2 ≡ ok returned
      → IsReturned provider schema request s returned
  unfolding run_with_schema
  run_with_schema-IsReturned provider schema request s returned h =
      let (s', answer) = provider.run_raw (first_request schema request) s in
      first_of provider schema request s s' answer returned refl h
