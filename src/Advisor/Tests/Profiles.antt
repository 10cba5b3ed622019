-- ===== src/Advisor/Tests/Profiles.antt =====
-- Profiles from concrete data.
use Prim.Native.Char.{code}
use cryptiq.Shared.{
  ◌*◌, ◌≤◌, ◌==◌, String, arith, nat_eq, if◌then◌else◌, none, some, [], ◌∷◌, map, ◌≡◌, refl,
  string_eq,
}
use cryptiq.Shared.Text.{translate_char, strip, lstrip, rstrip, is_space, upper, replace_char}
use cryptiq.Ingestion.Validation.{count_chars}
use cryptiq.Advisor.Models.{
  ConstraintLevel, level_eq, ConstraintLevel-discrete, DomainProfile, autonomous_drone,
}
use cryptiq.Advisor.Profile.{
  text, null, ProfileData, clip, clip_list, clamp_domain, clamp_text, clamp_tags,
  clamp_profile_data, domain_name, base_of, level_of, to_level, profile_from, from_dict,
}
use cryptiq.Advisor.Profile.Bounded.{IsBounded, IsUpper, from_dict-IsBounded}

program : Unit {0}
unfolding strip lstrip rstrip is_space upper replace_char ConstraintLevel-discrete autonomous_drone
    clip clip_list clamp_domain clamp_text clamp_tags clamp_profile_data domain_name base_of
    level_of to_level profile_from from_dict
program = tt

abbrev drone_data : ProfileData
drone_data = record {
  sent_domain = text "autonomous-drone";
  latency = some "low";
  bandwidth = some "unknown";
  compute = some " medium";
  memory = none;
  battery = some "LOW";
  offline = none;
  signatures = some "";
  verifications = some "100/s";
  payload_size = none;
  longevity = none;
  regulatory = some ("DO-178C" ∷ []);
  platform = some [];
  interoperability = none;
}

abbrev letters : String
letters = "abcdefghijklmnopqrstuvwxyz"

abbrev capitals : String
capitals = "ABCDEFGHIJKLMNOPQRSTUVWXYZ"

abbrev sharps : String
sharps = "ßßßßßßßßßßßßßßßßßßßßßßßßßßßßßßßßßßßßßßßßßßßßßßßßßßßßßßßßßßßßßßßß"

-- Upper-casing as Unicode has it for the letters of ASCII and for the sharp s, which becomes two.
unfoldable raise_text : String → String
raise_text String.[] = ""
raise_text (String.◌∷◌ c s) =
    let rest = raise_text s in
    if code c == 223
    then String.◌∷◌ "S" (String.◌∷◌ "S" rest)
    else String.◌∷◌ (translate_char letters capitals c) rest

raise_text-IsUpper : (s : String) → count_chars (raise_text s) ≤ 3 * count_chars s
unfolding raise_text count_chars
raise_text-IsUpper String.[] = omega arith
raise_text-IsUpper (String.◌∷◌ c s) = ground (arith, raise_text-IsUpper s)

from_dict-IsBounded_example : IsBounded (from_dict raise_text drone_data)
unfolding IsUpper
from_dict-IsBounded_example = from_dict-IsBounded raise_text raise_text-IsUpper drone_data

-- A domain can be longer than the 64 characters that it is clamped to.
long_domain : count_chars (domain_name raise_text (clamp_domain (text sharps))) ≡ 128
unfolding program raise_text count_chars
long_domain = refl

-- What is unknown, or is no level, leaves the preset's level.
levels :
    map
      (λ (level : DomainProfile → ConstraintLevel). level (from_dict upper drone_data))
      ((λ p. p.latency_sensitivity)
        ∷ (λ p. p.bandwidth_constraint)
        ∷ (λ p. p.compute_constraint)
        ∷ (λ p. p.battery_constraint)
        ∷ [])
    ≡ ConstraintLevel.low ∷ ConstraintLevel.high ∷ ConstraintLevel.high ∷ ConstraintLevel.low ∷ []
unfolding program
levels = refl

-- A domain that is null is the text of None.
null_domain : (from_dict upper (record drone_data { sent_domain = null })).domain ≡ "NONE"
unfolding program
null_domain = refl

long_tags : clamp_tags (some ("a" ∷ "b" ∷ [])) ≡ some ("a" ∷ "b" ∷ [])
unfolding program
long_tags = refl

clipped : clip 3 "abcd" ≡ "abc"
unfolding program
clipped = refl
