-- ===== src/Ingestion/Revision.antt =====
-- The snapshot that is analysed is of the commit that was asked for: `verify_snapshot` of
-- cryptiq/app/engine/ingestion/validation.py.
use Prim.Native.Char.{code}
use Prim.Native.String.{◌++◌}
use text.Mathlib.TextLemmas.{nil-append, cons-append, append-nil}
use text.Mathlib.TextEquality.{Char-path}
use cryptiq.Shared.{
  ◌+◌, String, true, none, some, ◌==◌, ◌≡◌, nat_eq, refl, sym, ◌∙◌, ap, subst, arith, if◌then◌else◌,
  Bool-cases, Option-cases, inl, inr,
}
use cryptiq.Shared.Text.{strip, lower, strip_prefix}
use cryptiq.Ingestion.Validation.{
  Checked, accepted, refused, repository_unavailable, normalize_full_commit_sha, verify_snapshot,
  starts_with, count_chars, is_full_sha,
}

strip_prefix-append : (p s r : String) → strip_prefix p s ≡ some r → s ≡ p ++ r
unfolding strip_prefix
strip_prefix-append String.[] s r h = some-injective h ∙ sym (nil-append r)
  where
    some-injective : {x y : String} → some x ≡ some y → x ≡ y
    some-injective e = cc
strip_prefix-append (String.◌∷◌ c p) String.[] r h = cc
strip_prefix-append (String.◌∷◌ c p) (String.◌∷◌ d s) r h = elim (Bool-cases (code c == code d)) [
  | inl e ↦
      let rest =
        strip_prefix-append p s r
          (subst (λ b. (if b then strip_prefix p s else none) ≡ some r) e h) in
      ap (λ t. String.◌∷◌ d t) rest
      ∙ ap (λ x. String.◌∷◌ x (p ++ r))
          (sym (Char-path c d ((nat_eq.beq_iff (code c) (code d)).0 e)))
      ∙ sym (cons-append c p r)
  | inr e ↦ absurd (ground (arith, e, h))
]

count_chars-append : (s t : String) → count_chars (s ++ t) ≡ count_chars s + count_chars t
unfolding count_chars
count_chars-append String.[] t = rw (nil-append t) (omega arith)
count_chars-append (String.◌∷◌ c s) t =
    rw (cons-append c s t) (omega (arith, count_chars-append s t))

empty-count : (s : String) → count_chars s ≡ 0 → s ≡ ""
unfolding count_chars
empty-count String.[] h = refl
empty-count (String.◌∷◌ c s) h = ground arith

is_full_sha-count : (s : String) → is_full_sha s ≡ true → count_chars s ≡ 40
unfolding is_full_sha
is_full_sha-count s h = ground (arith, nat_eq.beq_iff (count_chars s) 40)

normal-full :
    (value resolved : String)
    → normalize_full_commit_sha value ≡ accepted resolved
    → is_full_sha resolved ≡ true
unfolding normalize_full_commit_sha
normal-full value resolved h = ground arith

-- What stands of an identifier that starts with the requested one.
Extends : String → String → Type 0
Extends requested resolved =
    ((rest : String) × (resolved ≡ requested ++ rest))
    × (count_chars requested ≡ 40 → resolved ≡ requested)

starts_with-Extends :
    (requested resolved : String)
    → is_full_sha resolved ≡ true
    → starts_with requested resolved ≡ true
    → Extends requested resolved
unfolding starts_with Extends
starts_with-Extends requested resolved f h = elim (Option-cases (strip_prefix requested resolved)) [
  | inl e ↦ absurd (ground (arith, e, h))
  | inr (rest, e) ↦
      let whole = strip_prefix-append requested resolved rest e in
      (
        (rest, whole),
        λ full.
            let none_left = empty-count rest (
              omega (
                arith,
                full,
                is_full_sha-count resolved f,
                ap count_chars whole,
                count_chars-append requested rest,
              )) in
            whole ∙ ap (λ t. requested ++ t) none_left ∙ append-nil requested,
      )
]

verified-at :
    (checked : Checked String) (requested : String)
    → (elim checked [
      | refused error ↦ some error
      | accepted resolved ↦
          if starts_with requested resolved then none else some repository_unavailable
    ])
      ≡ none
    → (resolved : String) × ((checked ≡ accepted resolved)
        × (starts_with requested resolved ≡ true))
verified-at (refused error) requested h = cc
verified-at (accepted resolved) requested h = (resolved, (refl, ground arith))

-- A snapshot that is accepted is of a full commit identifier that extends the one that was asked for,
-- and is that very one if a full identifier was asked for.
pub verify_snapshot-extends :
    (snapshot_sha requested_sha : String)
    → verify_snapshot snapshot_sha requested_sha ≡ none
    → (resolved : String) × ((normalize_full_commit_sha snapshot_sha ≡ accepted resolved)
        × ((is_full_sha resolved ≡ true)
            × (((rest : String) × (resolved ≡ lower (strip requested_sha) ++ rest))
                × (count_chars (lower (strip requested_sha)) ≡ 40
                    → resolved ≡ lower (strip requested_sha)))))
unfolding verify_snapshot Extends
verify_snapshot-extends snapshot_sha requested_sha h =
    let requested = lower (strip requested_sha) in
    let (resolved, (e, s)) = verified-at (normalize_full_commit_sha snapshot_sha) requested h in
    let full = normal-full snapshot_sha resolved e in
    (resolved, (e, (full, starts_with-Extends requested resolved full s)))
