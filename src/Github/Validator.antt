-- ===== src/Github/Validator.antt =====
-- Which URLs are accepted: cryptiq/app/integrations/github/validator.py. What urlsplit gives for a URL
-- is an argument, and so are the test for an IP literal and the resolved addresses. `invalid_url` and
-- `unavailable` are InvalidRepositoryUrlError and RepositoryUnavailableError with their text;
-- `value_error` is the ValueError that `parts.port` raises.
pub mod Canonical
use Prim.Native.Char.{Char, code}
use cryptiq.Shared.{
  ℕ, String, Bool, true, false, not, ◌&&◌, ◌||◌, Option, none, some, List, [], ◌∷◌, ◌==◌, leb,
  nat_eq, string_eq, if◌then◌else◌, contains,
}
use cryptiq.Shared.Text.{strip, lower, ends_with}
use cryptiq.Shared.Parts.{split, format}
use cryptiq.Ingestion.Validation.{all_chars, count_chars, in_range}
use cryptiq.Ingestion.Source.{RepositoryReference}

pub data Error : Type 0 where
  invalid_url unavailable : String → Error
  value_error : Error

pub data Result (A : Type 0) : Type 0 where
  ok : A → Result A
  err : Error → Result A

infixl 5 ◌>>=◌ ◌>>◌
abbrev pub ◌>>=◌ : {A B : Type 0} → Result A → (A → Result B) → Result B
ok a >>= f = f a
err e >>= f = err e

abbrev pub ◌>>◌ : {B : Type 0} → Result (Unit {0}) → Result B → Result B
m >> k = m >>= λ _. k

-- `if test: raise error`
abbrev pub refuse_if : Bool → Error → Result (Unit {0})
refuse_if true error = err error
refuse_if false error = ok tt

-- `parts.port`: none is there, a number, or a text that is no port.
pub data Port : Type 0 where
  no_port bad_port : Port
  port_number : ℕ → Port

pub record SplitResult : Type 0 where
  pub scheme : String
  pub username : Option String
  pub password : Option String
  pub port : Port
  pub hostname : Option String
  pub path : String
  pub query : String
  pub fragment : String

abbrev pub or_empty : Option String → String
or_empty none = ""
or_empty (some text) = text

abbrev pub is_given : Option String → Bool
is_given text = not (or_empty text == "")

abbrev pub repository_host : String
repository_host = "github.com"

abbrev pub allowed_hosts : List String
allowed_hosts = "api.github.com" ∷ "github.com" ∷ "codeload.github.com" ∷ []

abbrev pub allowed_host_suffixes : List String
allowed_host_suffixes = ".githubusercontent.com" ∷ []

-- `[A-Za-z0-9]`
unfoldable pub is_alnum : Char → Bool
unfolding in_range
is_alnum c = in_range 48 57 c || (in_range 65 90 c || in_range 97 122 c)

-- `[A-Za-z0-9-]`
unfoldable pub is_owner_char : Char → Bool
unfolding is_alnum
is_owner_char c = is_alnum c || (code c == 45)

-- `[A-Za-z0-9_.-]`
unfoldable pub is_name_char : Char → Bool
unfolding is_alnum
is_name_char c = is_alnum c || (code c == 95 || (code c == 46 || code c == 45))

abbrev pub starts_alnum : String → Bool
starts_alnum String.[] = false
starts_alnum (String.◌∷◌ c s) = is_alnum c

abbrev pub ends_alnum : String → Bool
ends_alnum String.[] = false
ends_alnum (String.◌∷◌ c String.[]) = is_alnum c
ends_alnum (String.◌∷◌ c (String.◌∷◌ d s)) = ends_alnum (String.◌∷◌ d s)

-- `_OWNER_PATTERN`, on a text with no line end at its end: urlsplit leaves none in a path.
unfoldable pub is_owner : String → Bool
unfolding is_alnum is_owner_char
is_owner s =
    all_chars is_owner_char s && (starts_alnum s && (ends_alnum s && leb (count_chars s) 39))

-- `_NAME_PATTERN`, likewise.
unfoldable pub is_name : String → Bool
unfolding is_name_char
is_name s = all_chars is_name_char s && (leb 1 (count_chars s) && leb (count_chars s) 100)

-- `s.removesuffix(suffix)`, for a suffix that is not empty.
unfoldable pub remove_suffix : String → String → String
remove_suffix suffix String.[] = ""
remove_suffix suffix (String.◌∷◌ c s) =
    if String.◌∷◌ c s == suffix then "" else String.◌∷◌ c (remove_suffix suffix s)

unfoldable pub segments : List String → List String
segments [] = []
segments (part ∷ parts) = if part == "" then segments parts else part ∷ segments parts

unfoldable pub owner_and_name : List String → Result (String × String)
owner_and_name (owner ∷ name ∷ []) = do
  let short = remove_suffix ".git" name
  refuse_if (not (is_owner owner)) (invalid_url "Repository owner is not a valid GitHub name.")
  refuse_if (not (is_name short) || (short == "." || short == ".."))
      (invalid_url "Repository name is not a valid GitHub name.")
  ok (owner, short)
owner_and_name _ =
    err (invalid_url "Repository URL must be https://github.com/{owner}/{repository}.")

-- `_split_repository_path`
unfoldable pub split_repository_path : String → Result (String × String)
split_repository_path path = owner_and_name (segments (split 47 path))

abbrev pub check_port : Port → Result (Unit {0})
check_port no_port = ok tt
check_port bad_port = err value_error
check_port (port_number n) = err (invalid_url "Repository URL must not specify a port.")

unfoldable pub reference_of : String → String → RepositoryReference
reference_of owner name = record {
  provider = "github";
  owner = owner;
  name = name;
  canonical_url = format ("https://github.com/" ∷ owner ∷ "/" ∷ name ∷ []);
}

-- What `parse_repository_url` checks before it looks at the path.
unfoldable pub check_parts : SplitResult → Result (Unit {0})
check_parts parts =
    refuse_if (not (parts.scheme == "https")) (invalid_url "Repository URL must use https.")
    >> refuse_if (is_given parts.username || is_given parts.password)
        (invalid_url "Repository URL must not carry credentials.")
    >> check_port parts.port
    >> refuse_if (not (parts.query == "") || not (parts.fragment == ""))
        (invalid_url "Repository URL must not carry a query string or fragment.")
    >> refuse_if (not (lower (or_empty parts.hostname) == repository_host))
        (invalid_url "Only github.com repositories are supported.")

-- `parse_repository_url`, after the call of urlsplit
unfoldable pub parse_parts : SplitResult → Result RepositoryReference
unfolding check_parts
parse_parts parts = do
  check_parts parts
  pair ← split_repository_path parts.path
  ok (reference_of pair.0 pair.1)

-- `parse_repository_url`; urlsplit gives none where it raises a ValueError.
unfoldable pub parse_repository_url :
    (String → Option SplitResult) → String → Result RepositoryReference
parse_repository_url urlsplit url =
    let candidate = strip url in
    if candidate == ""
    then err (invalid_url "Repository URL is required.")
    else elim (urlsplit candidate) [ none ↦ err value_error | some parts ↦ parse_parts parts ]

-- `s.rstrip(".")`, with a helper for the character before a stripped text.
abbrev pub keep_before : Char → String → String
keep_before c String.[] = if code c == 46 then "" else String.◌∷◌ c ""
keep_before c (String.◌∷◌ d s) = String.◌∷◌ c (String.◌∷◌ d s)

unfoldable pub strip_dots : String → String
strip_dots String.[] = ""
strip_dots (String.◌∷◌ c s) = keep_before c (strip_dots s)

unfoldable pub ends_with_any : String → List String → Bool
ends_with_any hostname [] = false
ends_with_any hostname (suffix ∷ suffixes) =
    if ends_with hostname suffix then true else ends_with_any hostname suffixes

unfoldable pub is_allowed_host : String → Bool
unfolding strip_dots ends_with_any
is_allowed_host host =
    let hostname = strip_dots (lower host) in
    if contains allowed_hosts hostname then true else ends_with_any hostname allowed_host_suffixes

unfoldable pub assert_allowed_url : (String → Bool) → SplitResult → Result (Unit {0})
assert_allowed_url is_ip_literal parts =
    let hostname = or_empty parts.hostname in
    refuse_if (not (parts.scheme == "https")) (unavailable "Refusing a non-https request.")
    >> refuse_if (hostname == "") (unavailable "Refusing a request without a host.")
    >> refuse_if (is_ip_literal hostname) (unavailable "Refusing a request to an IP address.")
    >> refuse_if (not (is_allowed_host hostname))
        (unavailable "Refusing a request to an untrusted host.")

unfoldable pub all_global : (String → Bool) → List String → Result (Unit {0})
all_global is_global [] = ok tt
all_global is_global (address ∷ addresses) =
    if is_global address
    then all_global is_global addresses
    else err (unavailable "The provider host resolves to a non-public address.")

-- `assert_host_resolves_publicly`; no addresses are given where the resolver raises an OSError.
unfoldable pub assert_host_resolves_publicly :
    (String → Bool) → Option (List String) → Result (Unit {0})
assert_host_resolves_publicly is_global none =
    err (unavailable "Could not resolve the provider host.")
assert_host_resolves_publicly is_global (some []) =
    err (unavailable "Could not resolve the provider host.")
assert_host_resolves_publicly is_global (some (address ∷ addresses)) =
    all_global is_global (address ∷ addresses)
