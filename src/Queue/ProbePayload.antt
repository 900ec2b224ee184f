-- ===== src/Queue/ProbePayload.antt =====
-- packages/queue/src/queue.ts: the payload of a job that probes a provider's readiness. An object is
-- the list of its own properties; of a number it is known whether it is an integer. `blank` tells a
-- text that `trim` leaves empty.
use amazon_research_agent.Base.{
  ℕ, String, Bool, true, false, not, Option, none, some, List, [], ◌∷◌, if◌then◌else◌, str_eq,
  includes, any, leb, ◌≡◌, ◌↔◌, arith,
}
use amazon_research_agent.Base.Int.{ℤ, pos}
use amazon_research_agent.Base.Result.{Result, ok, err, ◌>>=◌}

pub data JsonValue : Type 0 where
  text : String → JsonValue
  integer : ℤ → JsonValue
  fraction other_json : JsonValue

-- A value that is no object, null or an array, or an object.
pub data PayloadValue : Type 0 where
  not_an_object : PayloadValue
  object : List (String × JsonValue) → PayloadValue

pub record ProbeAiProviderReadinessPayload : Type 0 where
  pub provider_id : String
  pub settings_revision : ℕ
  pub auth_generation : ℕ
  pub execution_fingerprint : String
  pub probe_generation : ℕ

pub data PayloadError : Type 0 where
  must_be_object unknown_fields : PayloadError
  bad_string bad_generation : String → PayloadError

unfoldable pub property : List (String × JsonValue) → String → Option JsonValue
property [] name = none
property ((key, value) ∷ properties) name =
    let rest = property properties name in if str_eq key name then some value else rest

abbrev pub max_safe_integer : ℕ
max_safe_integer = 9007199254740991

unfoldable pub required_probe_string :
    (String → Bool) → Option JsonValue → String → Result PayloadError String
required_probe_string blank (some (text t)) name = if blank t then err (bad_string name) else ok t
required_probe_string blank _ name = err (bad_string name)

unfoldable pub required_probe_generation : Option JsonValue → String → Result PayloadError ℕ
required_probe_generation (some (integer (pos n))) name =
    if leb n max_safe_integer then ok n else err (bad_generation name)
required_probe_generation _ name = err (bad_generation name)

abbrev expected : List String
expected =
    "providerId" ∷ "settingsRevision" ∷ "authGeneration" ∷ "executionFingerprint"
    ∷ "probeGeneration" ∷ []

unfoldable pub parse_payload :
    (String → Bool) → PayloadValue → Result PayloadError ProbeAiProviderReadinessPayload
parse_payload blank not_an_object = err must_be_object
parse_payload blank (object properties) =
    if any (λ (entry : String × JsonValue). not (includes expected entry.0)) properties
    then err unknown_fields
    else do
      provider_id ← required_probe_string blank (property properties "providerId") "providerId"
      settings_revision ←
          required_probe_generation (property properties "settingsRevision") "settingsRevision"
      auth_generation ←
          required_probe_generation (property properties "authGeneration") "authGeneration"
      execution_fingerprint ←
          required_probe_string blank (property properties "executionFingerprint")
            "executionFingerprint"
      probe_generation ←
          required_probe_generation (property properties "probeGeneration") "probeGeneration"
      ok (record {
        provider_id = provider_id;
        settings_revision = settings_revision;
        auth_generation = auth_generation;
        execution_fingerprint = execution_fingerprint;
        probe_generation = probe_generation;
      })

-- What a parsed payload says of the object: each property is there with a value of its kind, and no
-- other property is.
pub record IsPayload (blank : String → Bool) (properties : List (String × JsonValue))
    (p : ProbeAiProviderReadinessPayload) : Type 0 where
  pub no_others :
      any (λ (entry : String × JsonValue). not (includes expected entry.0)) properties ≡ false
  pub has_provider : property properties "providerId" ≡ some (text p.provider_id)
  pub has_revision :
      property properties "settingsRevision" ≡ some (integer (pos p.settings_revision))
  pub has_generation : property properties "authGeneration" ≡ some (integer (pos p.auth_generation))
  pub has_fingerprint :
      property properties "executionFingerprint" ≡ some (text p.execution_fingerprint)
  pub has_probe : property properties "probeGeneration" ≡ some (integer (pos p.probe_generation))
  pub provider_named : blank p.provider_id ≡ false
  pub fingerprint_named : blank p.execution_fingerprint ≡ false
  pub revision_safe : leb p.settings_revision max_safe_integer ≡ true
  pub generation_safe : leb p.auth_generation max_safe_integer ≡ true
  pub probe_safe : leb p.probe_generation max_safe_integer ≡ true

-- An object parses to a payload exactly when it has the five properties and no other, its texts are
-- those of the payload and not blank, and its numbers are those of the payload, not negative and safe
-- integers.
pub parse_payload-IsPayload :
    (blank : String → Bool) (properties : List (String × JsonValue))
    (p : ProbeAiProviderReadinessPayload)
    → (parse_payload blank (object properties) ≡ ok p) ↔ IsPayload blank properties p
unfolding parse_payload required_probe_string required_probe_generation
parse_payload-IsPayload blank properties p = (
  λ h. record {
    no_others = ground arith;
    has_provider = ground arith;
    has_revision = ground arith;
    has_generation = ground arith;
    has_fingerprint = ground arith;
    has_probe = ground arith;
    provider_named = ground arith;
    fingerprint_named = ground arith;
    revision_safe = ground arith;
    generation_safe = ground arith;
    probe_safe = ground arith;
  },
  λ h. ground arith,
)
