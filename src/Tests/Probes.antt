-- ===== src/Tests/Probes.antt =====
-- Runs of the payload parser of packages/queue/src/queue.ts.
use amazon_research_agent.Base.{String, Bool, List, [], ◌∷◌, ◌≡◌, ◌↔◌, refl, str_eq, includes}
use amazon_research_agent.Base.Int.{pos}
use amazon_research_agent.Base.Result.{ok, err}
use amazon_research_agent.Queue.ProbePayload.{
  JsonValue, text, integer, object, unknown_fields, ProbeAiProviderReadinessPayload, property,
  parse_payload, required_probe_string, required_probe_generation, IsPayload,
  parse_payload-IsPayload,
}

abbrev is_empty_text : String → Bool
is_empty_text t = str_eq t ""

abbrev properties : List (String × JsonValue)
properties =
    ("providerId", text "p1")
    ∷ ("settingsRevision", integer (pos 2))
    ∷ ("authGeneration", integer (pos 3))
    ∷ ("executionFingerprint", text "f")
    ∷ ("probeGeneration", integer (pos 4))
    ∷ []

abbrev payload : ProbeAiProviderReadinessPayload
payload = record {
  provider_id = "p1";
  settings_revision = 2;
  auth_generation = 3;
  execution_fingerprint = "f";
  probe_generation = 4;
}

parses : parse_payload is_empty_text (object properties) ≡ ok payload
unfolding parse_payload property required_probe_string required_probe_generation includes
parses = refl

refuses_others :
    parse_payload is_empty_text (object (("extra", text "x") ∷ properties)) ≡ err unknown_fields
unfolding parse_payload includes
refuses_others = refl

parse_payload-IsPayload_example :
    (parse_payload is_empty_text (object properties) ≡ ok payload)
    ↔ IsPayload is_empty_text properties payload
parse_payload-IsPayload_example = parse_payload-IsPayload is_empty_text properties payload
