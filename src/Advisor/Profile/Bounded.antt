-- ===== src/Advisor/Profile/Bounded.antt =====
-- A profile is bounded: `DomainProfile.from_dict` of cryptiq/app/engine/context/models.py.
use Prim.Native.Char.{Char}
use cryptiq.Shared.{
  ℕ, zero, suc, ◌*◌, ◌≤◌, String, Option, none, some, List, [], ◌∷◌, map, ◌==◌, string_eq, ◌≡◌,
  refl, ap, arith, Bool-cases, inl, inr,
}
use cryptiq.Shared.Text.{replace_char, map_chars}
use cryptiq.Shared.Each.{Each}
use cryptiq.Shared.Dict.{length}
use cryptiq.Ingestion.Validation.{count_chars}
use cryptiq.Advisor.Models.{DomainProfile, default_profile, autonomous_drone}
use cryptiq.Advisor.Profile.{
  Sent, missing, null, text, ProfileData, clip, clip_list, clamp_domain, clamp_text, clamp_tags,
  clamp_profile_data, cloud_infrastructure, fintech, domain_name, base_of, text_or, tags_or,
  profile_from, from_dict,
}

unfoldable pub IsShort : Option String → Type 0
IsShort none = Unit
IsShort (some s) = count_chars s ≤ 120

unfoldable pub AreTags : List String → Type 0
AreTags tags = (length tags ≤ 20) × Each tags (λ tag. count_chars tag ≤ 120)

-- Unicode's full case mappings turn a character into at most three.
unfoldable pub IsUpper : (String → String) → Type 0
IsUpper upper = (s : String) → count_chars (upper s) ≤ 3 * count_chars s

-- The fields that are no level and no flag are bounded: the domain by thrice the 64 characters that it
-- is clamped to before it is upper-cased.
unfoldable pub IsBounded : DomainProfile → Type 0
IsBounded profile =
    (count_chars profile.domain ≤ 192)
    × ((IsShort profile.signature_frequency
          × (IsShort profile.verification_frequency × IsShort profile.data_longevity))
        × (AreTags profile.regulatory_requirements
            × (AreTags profile.platform_constraints
                × AreTags profile.interoperability_constraints)))

count_chars-clip : (n : ℕ) (s : String) → count_chars (clip n s) ≤ n
unfolding count_chars clip
count_chars-clip zero s = omega arith
count_chars-clip (suc n) String.[] = omega arith
count_chars-clip (suc n) (String.◌∷◌ c s) = let rest = count_chars-clip n s in omega arith

count_chars-map_chars : (f : Char → Char) (s : String) → count_chars (map_chars f s) ≡ count_chars s
unfolding count_chars
count_chars-map_chars f String.[] = refl
count_chars-map_chars f (String.◌∷◌ c s) = ap suc (count_chars-map_chars f s)

count_chars-replace_char :
    (n : ℕ) (new : Char) (s : String) → count_chars (replace_char n new s) ≡ count_chars s
unfolding replace_char
count_chars-replace_char n new s = count_chars-map_chars _ s

count_chars-domain_name :
    (upper : String → String)
    → IsUpper upper
    → (sent : Sent) → count_chars (domain_name upper (clamp_domain sent)) ≤ 192
unfolding domain_name clamp_domain count_chars IsUpper
count_chars-domain_name upper u missing = omega arith
count_chars-domain_name upper u null = omega arith
count_chars-domain_name upper u (text s) =
    let replaced = count_chars-replace_char 45 "_" (upper (clip 64 s)) in
    let raised = u (clip 64 s) in let clipped = count_chars-clip 64 s in omega arith

clamp_text-IsShort : (value : Option String) → IsShort (clamp_text value)
unfolding clamp_text IsShort
clamp_text-IsShort none = tt
clamp_text-IsShort (some value) = count_chars-clip 120 value

text_or-IsShort :
    (value default : Option String)
    → IsShort value
    → IsShort default
    → IsShort (text_or value default)
text_or-IsShort none default h k = k
text_or-IsShort (some value) default h k = elim (Bool-cases (value == "")) [
  | inl e ↦ rw e k
  | inr e ↦ rw e h
]

clip_list-AreTags :
    (n : ℕ) (tags : List String)
    → (length (map (clip 120) (clip_list n tags)) ≤ n)
      × Each (map (clip 120) (clip_list n tags)) (λ tag. count_chars tag ≤ 120)
unfolding clip_list Each
clip_list-AreTags zero tags = (omega arith, tt)
clip_list-AreTags (suc n) [] = (omega arith, tt)
clip_list-AreTags (suc n) (tag ∷ tags) =
    let (count, each) = clip_list-AreTags n tags in (omega arith, (count_chars-clip 120 tag, each))

tags_or-AreTags :
    (tags : Option (List String)) (default : List String)
    → AreTags default
    → AreTags (tags_or (clamp_tags tags) default)
unfolding clamp_tags clip_list AreTags
tags_or-AreTags none default h = h
tags_or-AreTags (some []) default h = h
tags_or-AreTags (some (tag ∷ tags)) default h = clip_list-AreTags 20 (tag ∷ tags)

base_of-any :
    (P : DomainProfile → Type 0) (name : String)
    → P autonomous_drone
    → P cloud_infrastructure
    → P fintech
    → P default_profile
    → P (base_of name)
unfolding base_of
base_of-any P name drone cloud bank none_of = elim (Bool-cases (name == "AUTONOMOUS_DRONE")) [
  | inl e ↦ rw e drone
  | inr e ↦ elim (Bool-cases (name == "CLOUD_INFRASTRUCTURE")) [
    | inl f ↦ rw (e, f) cloud
    | inr f ↦ elim (Bool-cases (name == "FINTECH")) [
      | inl g ↦ rw (e, f, g) bank
      | inr g ↦ rw (e, f, g) none_of
    ]
  ]
]

no_tags : AreTags []
unfolding AreTags Each
no_tags = (omega arith, tt)

drone-IsBounded : IsBounded autonomous_drone
unfolding IsBounded IsShort AreTags Each count_chars autonomous_drone
drone-IsBounded =
    let platform : AreTags ("embedded-linux" ∷ "arm-cortex-m" ∷ "rtos" ∷ []) =
      (omega arith, (omega arith, (omega arith, (omega arith, tt)))) in
    let interoperability : AreTags ("mavlink" ∷ "custom-firmware-bus" ∷ []) =
      (omega arith, (omega arith, (omega arith, tt))) in
    (omega arith, ((tt, (tt, omega arith)), (no_tags, (platform, interoperability))))

cloud-IsBounded : IsBounded cloud_infrastructure
unfolding IsBounded IsShort count_chars cloud_infrastructure
cloud-IsBounded = (omega arith, ((tt, (tt, omega arith)), (no_tags, (no_tags, no_tags))))

fintech-IsBounded : IsBounded fintech
unfolding IsBounded IsShort AreTags Each count_chars fintech
fintech-IsBounded =
    let regulatory : AreTags ("PCI-DSS" ∷ "FIPS-140-3" ∷ "SOX" ∷ []) =
      (omega arith, (omega arith, (omega arith, (omega arith, tt)))) in
    (omega arith, ((tt, (tt, omega arith)), (regulatory, (no_tags, no_tags))))

default-IsBounded : IsBounded default_profile
unfolding IsBounded IsShort count_chars
default-IsBounded = (omega arith, ((tt, (tt, tt)), (no_tags, (no_tags, no_tags))))

base_of-IsBounded : (name : String) → IsBounded (base_of name)
base_of-IsBounded name =
    base_of-any IsBounded name drone-IsBounded cloud-IsBounded fintech-IsBounded default-IsBounded

sent-IsShort :
    (value default : Option String) → IsShort default → IsShort (text_or (clamp_text value) default)
sent-IsShort value default h =
    text_or-IsShort (clamp_text value) default (clamp_text-IsShort value) h

-- Whatever a client sends, a profile has frequencies and a longevity of at most 120 characters, and in
-- each of its three lists at most 20 tags of at most 120 characters; the presets too. Its domain has at
-- most 192 characters, if upper-casing at most triples the length of a text.
pub from_dict-IsBounded :
    (upper : String → String)
    → IsUpper upper
    → (sent : ProfileData) → IsBounded (from_dict upper sent)
unfolding from_dict profile_from clamp_profile_data IsBounded
from_dict-IsBounded upper u sent =
    let name = domain_name upper (clamp_domain sent.sent_domain) in
    let (_, ((often, (checked, long)), (rules, (platforms, systems)))) = base_of-IsBounded name in
    (
      count_chars-domain_name upper u sent.sent_domain,
      (
        (
          sent-IsShort sent.signatures (base_of name).signature_frequency often,
          (
            sent-IsShort sent.verifications (base_of name).verification_frequency checked,
            sent-IsShort sent.longevity (base_of name).data_longevity long,
          ),
        ),
        (
          tags_or-AreTags sent.regulatory (base_of name).regulatory_requirements rules,
          (
            tags_or-AreTags sent.platform (base_of name).platform_constraints platforms,
            tags_or-AreTags sent.interoperability (base_of name).interoperability_constraints
                systems,
          ),
        ),
      ),
    )
