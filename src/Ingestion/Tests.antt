-- ===== src/Ingestion/Tests.antt =====
-- Revisions at concrete texts.
mod Archives
mod Snapshots
use Prim.Native.String.{◌++◌}
use cryptiq.Shared.{String, true, ◌≡◌, refl}
use cryptiq.Shared.Text.{strip, lower, strip_prefix}
use cryptiq.Ingestion.Validation.{
  accepted, normalize_full_commit_sha, normalize_commit_sha, verify_snapshot, starts_with,
  count_chars, is_full_sha, is_sha, all_chars, is_hex, is_lower_hex, in_range,
}
use cryptiq.Ingestion.Revision.{verify_snapshot-extends}

program : Unit {0}
unfolding strip lower strip_prefix normalize_full_commit_sha normalize_commit_sha verify_snapshot
    starts_with count_chars is_full_sha is_sha all_chars is_hex is_lower_hex in_range
program = tt

abbrev full : String
full = "0123abcdef0123abcdef0123abcdef0123abcdef"

short : normalize_commit_sha " 0123ABC " ≡ accepted "0123abc"
unfolding program
short = refl

verify_snapshot-extends_example :
    (resolved : String) × ((normalize_full_commit_sha full ≡ accepted resolved)
      × ((is_full_sha resolved ≡ true)
          × (((rest : String) × (resolved ≡ lower (strip "0123ABC") ++ rest))
              × (count_chars (lower (strip "0123ABC")) ≡ 40 → resolved ≡ lower (strip "0123ABC")))))
unfolding program
verify_snapshot-extends_example = verify_snapshot-extends full "0123ABC" refl
