-- ===== src/Advisor/Profile.antt =====
-- The profile of a repository's domain, from what a client sends: `DomainProfile.from_dict` of
-- cryptiq/app/engine/context/models.py. A value of the data has the type that its field has in JSON, or
-- is null or missing, which differ for the domain alone. `str.upper` of Python is a parameter: on text
-- beyond ASCII it follows Unicode's tables, and may lengthen a text.
pub mod Bounded
use cryptiq.Shared.{
  ℕ, zero, suc, String, Bool, true, false, not, ◌||◌, Option, none, some, List, [], ◌∷◌, map, ◌==◌,
  string_eq, if◌then◌else◌,
}
use cryptiq.Shared.Text.{strip, replace_char}
use cryptiq.Advisor.Models.{
  ConstraintLevel, level_eq, DomainProfile, default_profile, autonomous_drone,
}

pub data Sent : Type 0 where
  missing null : Sent
  text : String → Sent

pub record ProfileData : Type 0 where
  pub sent_domain : Sent
  pub latency : Option String
  pub bandwidth : Option String
  pub compute : Option String
  pub memory : Option String
  pub battery : Option String
  pub offline : Option Bool
  pub signatures : Option String
  pub verifications : Option String
  pub payload_size : Option String
  pub longevity : Option String
  pub regulatory : Option (List String)
  pub platform : Option (List String)
  pub interoperability : Option (List String)

abbrev pub max_tag_chars : ℕ
max_tag_chars = 120

abbrev pub max_tags : ℕ
max_tags = 20

abbrev pub max_domain_chars : ℕ
max_domain_chars = 64

-- `s[:n]`
unfoldable pub clip : ℕ → String → String
clip zero s = ""
clip (suc n) String.[] = ""
clip (suc n) (String.◌∷◌ c s) = String.◌∷◌ c (clip n s)

-- `items[:n]`
unfoldable pub clip_list : ℕ → List String → List String
clip_list zero items = []
clip_list (suc n) [] = []
clip_list (suc n) (item ∷ items) = item ∷ clip_list n items

unfoldable pub clamp_domain : Sent → Sent
unfolding clip
clamp_domain (text domain) = text (clip max_domain_chars domain)
clamp_domain domain = domain

unfoldable pub clamp_text : Option String → Option String
unfolding clip
clamp_text none = none
clamp_text (some value) = some (clip max_tag_chars value)

unfoldable pub clamp_tags : Option (List String) → Option (List String)
unfolding clip clip_list
clamp_tags none = none
clamp_tags (some tags) = some (map (clip max_tag_chars) (clip_list max_tags tags))

-- `_clamp_profile_data`
unfoldable pub clamp_profile_data : ProfileData → ProfileData
unfolding clamp_domain clamp_text clamp_tags
clamp_profile_data data_in = record data_in {
  sent_domain = clamp_domain data_in.sent_domain;
  latency = clamp_text data_in.latency;
  bandwidth = clamp_text data_in.bandwidth;
  compute = clamp_text data_in.compute;
  memory = clamp_text data_in.memory;
  battery = clamp_text data_in.battery;
  signatures = clamp_text data_in.signatures;
  verifications = clamp_text data_in.verifications;
  payload_size = clamp_text data_in.payload_size;
  longevity = clamp_text data_in.longevity;
  regulatory = clamp_tags data_in.regulatory;
  platform = clamp_tags data_in.platform;
  interoperability = clamp_tags data_in.interoperability;
}

unfoldable pub cloud_infrastructure : DomainProfile
cloud_infrastructure = record default_profile {
  domain = "CLOUD_INFRASTRUCTURE";
  latency_sensitivity = ConstraintLevel.high;
  bandwidth_constraint = ConstraintLevel.low;
  compute_constraint = ConstraintLevel.low;
  memory_constraint = ConstraintLevel.low;
  battery_constraint = ConstraintLevel.low;
  offline_operation = some false;
  payload_size_sensitivity = ConstraintLevel.low;
  data_longevity = some "VARIABLE";
}

unfoldable pub fintech : DomainProfile
fintech = record default_profile {
  domain = "FINTECH";
  latency_sensitivity = ConstraintLevel.high;
  bandwidth_constraint = ConstraintLevel.low;
  compute_constraint = ConstraintLevel.low;
  memory_constraint = ConstraintLevel.low;
  battery_constraint = ConstraintLevel.low;
  offline_operation = some false;
  payload_size_sensitivity = ConstraintLevel.low;
  data_longevity = some "LONG_TERM_COMPLIANCE";
  regulatory_requirements = "PCI-DSS" ∷ "FIPS-140-3" ∷ "SOX" ∷ [];
}

unfoldable pub domain_name : (String → String) → Sent → String
domain_name upper missing = "GENERAL_SOFTWARE"
domain_name upper null = "NONE"
domain_name upper (text domain) = replace_char 45 "_" (upper domain)

-- The preset of a domain; without one, the defaults are what the code falls back to.
unfoldable pub base_of : String → DomainProfile
unfolding autonomous_drone cloud_infrastructure fintech
base_of domain =
    if domain == "AUTONOMOUS_DRONE"
    then autonomous_drone
    else if domain == "CLOUD_INFRASTRUCTURE"
    then cloud_infrastructure
    else if domain == "FINTECH"
    then fintech
    else default_profile

-- `ConstraintLevel(token)`
unfoldable pub level_of : String → Option ConstraintLevel
level_of token =
    if token == "HIGH"
    then some ConstraintLevel.high
    else if token == "MEDIUM"
    then some ConstraintLevel.medium
    else if token == "LOW"
    then some ConstraintLevel.low
    else if token == "UNKNOWN"
    then some ConstraintLevel.unknown
    else none

abbrev pub known_or : ConstraintLevel → ConstraintLevel → ConstraintLevel
known_or level default =
    if not (level == ConstraintLevel.unknown) || default == ConstraintLevel.unknown
    then level
    else default

-- `_to_level`
unfoldable pub to_level : (String → String) → Option String → ConstraintLevel → ConstraintLevel
unfolding level_of
to_level upper none default = default
to_level upper (some value) default =
    if strip value == ""
    then default
    else elim (level_of (upper value)) [ none ↦ default | some level ↦ known_or level default ]

-- `value or default`
abbrev pub text_or : Option String → Option String → Option String
text_or none default = default
text_or (some value) default = if value == "" then default else some value

abbrev pub tags_or : Option (List String) → List String → List String
tags_or none default = default
tags_or (some []) default = default
tags_or (some (tag ∷ tags)) default = tag ∷ tags

abbrev pub flag_or : Option Bool → Option Bool → Option Bool
flag_or none default = default
flag_or (some flag) default = some flag

-- `from_dict`, of clamped data and the preset
unfoldable pub profile_from :
    (String → String) → ProfileData → String → DomainProfile → DomainProfile
unfolding to_level
profile_from upper sent name base = record {
  domain = name;
  latency_sensitivity = to_level upper sent.latency base.latency_sensitivity;
  bandwidth_constraint = to_level upper sent.bandwidth base.bandwidth_constraint;
  compute_constraint = to_level upper sent.compute base.compute_constraint;
  memory_constraint = to_level upper sent.memory base.memory_constraint;
  battery_constraint = to_level upper sent.battery base.battery_constraint;
  offline_operation = flag_or sent.offline base.offline_operation;
  signature_frequency = text_or sent.signatures base.signature_frequency;
  verification_frequency = text_or sent.verifications base.verification_frequency;
  payload_size_sensitivity = to_level upper sent.payload_size base.payload_size_sensitivity;
  data_longevity = text_or sent.longevity base.data_longevity;
  regulatory_requirements = tags_or sent.regulatory base.regulatory_requirements;
  platform_constraints = tags_or sent.platform base.platform_constraints;
  interoperability_constraints = tags_or sent.interoperability base.interoperability_constraints;
}

-- `DomainProfile.from_dict`
unfoldable pub from_dict : (String → String) → ProfileData → DomainProfile
unfolding clamp_profile_data domain_name base_of profile_from
from_dict upper sent =
    let clamped = clamp_profile_data sent in
    let name = domain_name upper clamped.sent_domain in
    profile_from upper clamped name (base_of name)
