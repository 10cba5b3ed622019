-- ===== src/Github/Tests.antt =====
-- The validation of URLs at concrete ones.
use cryptiq.Shared.{string_eq, true, false, some, [], ◌∷◌, contains, ◌⊎◌, ◌≡◌, refl}
use cryptiq.Shared.Text.{strip, lower, ends_with}
use cryptiq.Shared.Parts.{split, format}
use cryptiq.Ingestion.Validation.{all_chars, count_chars, in_range}
use cryptiq.Ingestion.Source.{RepositoryReference}
use cryptiq.Github.Validator.{
  unavailable, value_error, ok, err, bad_port, is_alnum, is_owner_char, is_name_char, is_owner,
  is_name, remove_suffix, segments, owner_and_name, split_repository_path, reference_of,
  check_parts, parse_parts, parse_repository_url, strip_dots, ends_with_any, is_allowed_host,
  assert_allowed_url, all_global, assert_host_resolves_publicly,
}
use cryptiq.Github.Validator.Canonical.{IsValid, page, path_of, parse_parts-canonical}

program : Unit {0}
unfolding contains strip lower ends_with split format all_chars count_chars in_range is_alnum
    is_owner_char is_name_char is_owner is_name remove_suffix segments owner_and_name
    split_repository_path reference_of check_parts parse_parts parse_repository_url strip_dots
    ends_with_any is_allowed_host assert_allowed_url all_global assert_host_resolves_publicly
program = tt

abbrev cryptiq_repository : RepositoryReference
cryptiq_repository = reference_of "Adhithya1804" "cryptiq"

parse_parts-canonical_example :
    (cryptiq_repository ≡ reference_of "Adhithya1804" "cryptiq")
    × (IsValid cryptiq_repository
        × ((ends_with "cryptiq" ".git" ≡ true)
            ⊎ (parse_parts (page (path_of cryptiq_repository)) ≡ ok cryptiq_repository)))
unfolding program
parse_parts-canonical_example =
    parse_parts-canonical (page "/Adhithya1804//cryptiq.git/") cryptiq_repository refl

-- Of two suffixes one is removed, so that the canonical URL names another repository.
first : split_repository_path "/owner/x.git.git" ≡ ok ("owner", "x.git")
unfolding program
first = refl

second : split_repository_path "/owner/x.git" ≡ ok ("owner", "x")
unfolding program
second = refl

-- A port that is no number is not refused as a URL is.
port : parse_parts (record (page "/owner/x") { port = bad_port }) ≡ err value_error
unfolding program
port = refl

subdomain : is_allowed_host "Objects.GithubUserContent.com.." ≡ true
unfolding program
subdomain = refl

lookalike : is_allowed_host "evilgithub.com" ≡ false
unfolding program
lookalike = refl

literal :
    assert_allowed_url (λ host. true) (page "")
    ≡ err (unavailable "Refusing a request to an IP address.")
unfolding program
literal = refl

one_private :
    assert_host_resolves_publicly
      (contains ("140.82.112.3" ∷ []))
      (some ("140.82.112.3" ∷ "10.0.0.1" ∷ []))
    ≡ err (unavailable "The provider host resolves to a non-public address.")
unfolding program
one_private = refl
