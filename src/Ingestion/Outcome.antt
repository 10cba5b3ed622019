-- ===== src/Ingestion/Outcome.antt =====
-- What an operation of cryptiq/app/engine/ingestion that can raise comes to, and the limits of
-- cryptiq/app/engine/ingestion/limits.py, which raise.
use cryptiq.Shared.{ℕ, Bool, true, false, ltb, ◌≡◌, refl, ◌⊎◌, inl, inr}

-- `unsafe`, `too_large` and `malformed` are UnsafeArchiveError, ArchiveTooLargeError and
-- MalformedArchiveError; `os_error` is the OSError of a call of the file system.
pub data Error : Type 0 where
  unsafe too_large malformed os_error : Error

pub data Result (A : Type 0) : Type 0 where
  ok : A → Result A
  err : Error → Result A

infixl 5 ◌>>=◌ ◌>>◌
abbrev pub ◌>>=◌ : {A B : Type 0} → Result A → (A → Result B) → Result B
ok a >>= f = f a
err e >>= f = err e

abbrev pub ◌>>◌ : {B : Type 0} → Result (Unit {0}) → Result B → Result B
m >> k = m >>= λ _. k

-- To split on a computed result and keep the equation.
pub Result-cases :
    {A : Type 0} (r : Result A) → ((a : A) × (r ≡ ok a)) ⊎ ((e : Error) × (r ≡ err e))
Result-cases (ok a) = inl (a, refl)
Result-cases (err e) = inr (e, refl)

-- `if test: raise error`
abbrev pub refuse_if : Bool → Error → Result (Unit {0})
refuse_if true error = err error
refuse_if false error = ok tt

pub record IngestionLimits : Type 0 where
  pub max_archive_bytes : ℕ
  pub max_extracted_bytes : ℕ
  pub max_files : ℕ
  pub max_file_bytes : ℕ

unfoldable pub check_archive_bytes : IngestionLimits → ℕ → Result (Unit {0})
check_archive_bytes limits downloaded =
    refuse_if (ltb limits.max_archive_bytes downloaded) too_large

unfoldable pub check_extracted_bytes : IngestionLimits → ℕ → Result (Unit {0})
check_extracted_bytes limits extracted =
    refuse_if (ltb limits.max_extracted_bytes extracted) too_large

unfoldable pub check_file_count : IngestionLimits → ℕ → Result (Unit {0})
check_file_count limits count = refuse_if (ltb limits.max_files count) too_large
