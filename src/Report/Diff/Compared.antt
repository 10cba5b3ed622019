-- ===== src/Report/Diff/Compared.antt =====
-- The three parts of a diff (cryptiq/app/cli/diff.py).
use cryptiq.Shared.{String, not, ◌&&◌, List, [], ◌==◌, ◌≡◌, ◌∙◌, arith, string_eq}
use cryptiq.Shared.Each.{Each, Has, Each-sort_by}
use cryptiq.Report.Diff.{
  CliFinding, has_key, dedupe, compare_ordered, ordered, shared_with, missing_from, run_diff,
}
use cryptiq.Report.Diff.Keys.{
  AreDistinct, has_key-sort_by, sort_by-AreDistinct, has_key-dedupe_from, dedupe_from-AreDistinct,
  has_key-missing_from, has_key-shared_with, missing_from-AreDistinct, shared_with-AreDistinct,
  dedupe_from-Each, missing_from-Each, shared_with-Each,
}

-- A part of a diff: findings of one side, one for each fingerprint.
unfoldable pub IsPart : List CliFinding → List CliFinding → Type 0
IsPart findings part = AreDistinct part × Each part (λ f. Has findings (λ other. other ≡ f))

module _ (side others : List CliFinding) where
  missing-IsPart : IsPart side (ordered (missing_from (dedupe others) (dedupe side)))
  unfolding IsPart ordered dedupe
  missing-IsPart = (
    sort_by-AreDistinct (missing_from (dedupe others) (dedupe side))
        (missing_from-AreDistinct (dedupe others) (dedupe side) (dedupe_from-AreDistinct [] side)),
    Each-sort_by compare_ordered (missing_from (dedupe others) (dedupe side))
        (λ f. Has side (λ other. other ≡ f))
        (missing_from-Each (dedupe others) (dedupe side) (λ f. Has side (λ other. other ≡ f))
          (dedupe_from-Each [] side)),
  )

  shared-IsPart : IsPart side (ordered (shared_with (dedupe others) (dedupe side)))
  unfolding IsPart ordered dedupe
  shared-IsPart = (
    sort_by-AreDistinct (shared_with (dedupe others) (dedupe side))
        (shared_with-AreDistinct (dedupe others) (dedupe side) (dedupe_from-AreDistinct [] side)),
    Each-sort_by compare_ordered (shared_with (dedupe others) (dedupe side))
        (λ f. Has side (λ other. other ≡ f))
        (shared_with-Each (dedupe others) (dedupe side) (λ f. Has side (λ other. other ≡ f))
          (dedupe_from-Each [] side)),
  )

  missing-has_key :
      (key : String)
      → has_key key (ordered (missing_from (dedupe others) (dedupe side)))
        ≡ (not (key == "") && (has_key key side && not (has_key key others)))
  unfolding ordered dedupe has_key
  missing-has_key key =
      has_key-sort_by key (missing_from (dedupe others) (dedupe side))
      ∙ ground (
        arith,
        has_key-missing_from key (dedupe others) (dedupe side),
        has_key-dedupe_from key [] side,
        has_key-dedupe_from key [] others,
      )

  shared-has_key :
      (key : String)
      → has_key key (ordered (shared_with (dedupe others) (dedupe side)))
        ≡ (not (key == "") && (has_key key side && has_key key others))
  unfolding ordered dedupe has_key
  shared-has_key key =
      has_key-sort_by key (shared_with (dedupe others) (dedupe side))
      ∙ ground (
        arith,
        has_key-shared_with key (dedupe others) (dedupe side),
        has_key-dedupe_from key [] side,
        has_key-dedupe_from key [] others,
      )

-- For each fingerprint: it is one of a new finding exactly if it is one of the head and not of the base,
-- of an unchanged one if it is one of both, and of a fixed one if it is one of the base and not of the
-- head; findings with no fingerprint are in no part. The new and the unchanged findings are findings of the
-- head, the fixed ones of the base, and no two of a part have the same fingerprint.
pub run_diff-parts :
    (base head : List CliFinding) (key : String)
    → let result = run_diff base head in
      let given = not (key == "") in
      ((has_key key result.new ≡ (given && (has_key key head && not (has_key key base))))
        × ((has_key key result.unchanged ≡ (given && (has_key key head && has_key key base)))
            × (has_key key result.fixed ≡ (given && (has_key key base && not (has_key key head))))))
      × (IsPart head result.new × (IsPart head result.unchanged × IsPart base result.fixed))
unfolding run_diff
run_diff-parts base head key = (
  (missing-has_key head base key, (shared-has_key head base key, missing-has_key base head key)),
  (missing-IsPart head base, (shared-IsPart head base, missing-IsPart base head)),
)
