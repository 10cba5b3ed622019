-- ===== src/Report/Diff/Keys.antt =====
-- The keys of the parts of a diff, and that no part has a key twice (cryptiq/app/cli/diff.py).
use cryptiq.Shared.{
  String, true, false, not, ◌&&◌, List, [], ◌∷◌, ◌==◌, ◌≡◌, refl, sym, ap, ◌∙◌, arith, string_eq,
  if◌then◌else◌, Bool-cases, inl, inr, beq_refl,
}
use cryptiq.Shared.Each.{Each, Has, Each-weaken}
use cryptiq.Shared.Sort.{sort_by, insert_by, is_gt}
use cryptiq.Report.Diff.{
  CliFinding, key_of, has_key, dedupe_from, compare_ordered, shared_with, missing_from,
}

-- No two of the findings have one fingerprint.
unfoldable pub AreDistinct : List CliFinding → Type 0
AreDistinct [] = Unit
AreDistinct (finding ∷ findings) =
    (has_key (key_of finding) findings ≡ false) × AreDistinct findings

pub same-has_key :
    (finding : CliFinding) (key : String) (others : List CliFinding)
    → (key_of finding == key) ≡ true
    → has_key (key_of finding) others ≡ has_key key others
same-has_key finding key others e =
    ap (λ k. has_key k others) ((string_eq.beq_iff (key_of finding) key).0 e)

pub beq-sym : (a b : String) → (a == b) ≡ false → (b == a) ≡ false
beq-sym a b h = elim (Bool-cases (b == a)) [
  | inl e ↦ absurd (cc (h, (string_eq.beq_iff a b).1 (sym ((string_eq.beq_iff b a).0 e))))
  | inr e ↦ e
]

-- The order does not matter.
pub has_key-insert_by :
    (key : String) (finding : CliFinding) (findings : List CliFinding)
    → has_key key (insert_by compare_ordered finding findings) ≡ has_key key (finding ∷ findings)
unfolding insert_by has_key
has_key-insert_by key finding [] = refl
has_key-insert_by key finding (other ∷ findings) =
    ground (arith, has_key-insert_by key finding findings)

pub has_key-sort_by :
    (key : String) (findings : List CliFinding)
    → has_key key (sort_by compare_ordered findings) ≡ has_key key findings
unfolding sort_by has_key
has_key-sort_by key [] = refl
has_key-sort_by key (finding ∷ findings) =
    has_key-insert_by key finding (sort_by compare_ordered findings)
    ∙ ap (λ rest. if key_of finding == key then true else rest) (has_key-sort_by key findings)

pub insert_by-AreDistinct :
    (finding : CliFinding) (findings : List CliFinding)
    → has_key (key_of finding) findings ≡ false
    → AreDistinct findings
    → AreDistinct (insert_by compare_ordered finding findings)
unfolding AreDistinct insert_by has_key
insert_by-AreDistinct finding [] h d = (h, tt)
insert_by-AreDistinct finding (other ∷ findings) h (e, d) =
    let apart = beq-sym (key_of other) (key_of finding) (ground (arith, h)) in
    let later = insert_by-AreDistinct finding findings (ground (arith, h)) d in
    elim (Bool-cases (is_gt (compare_ordered finding other))) [
      | inl g ↦ rw g (has_key-insert_by (key_of other) finding findings ∙ rw (apart, e) refl, later)
      | inr g ↦ rw g (h, (e, d))
    ]

pub sort_by-AreDistinct :
    (findings : List CliFinding)
    → AreDistinct findings
    → AreDistinct (sort_by compare_ordered findings)
unfolding AreDistinct sort_by
sort_by-AreDistinct [] d = tt
sort_by-AreDistinct (finding ∷ findings) (h, d) =
    insert_by-AreDistinct finding (sort_by compare_ordered findings)
      (has_key-sort_by (key_of finding) findings ∙ h) (sort_by-AreDistinct findings d)

-- The findings that are kept have the keys of all, but for the empty one and those that were seen.
pub has_key-dedupe_from :
    (key : String) (seen findings : List CliFinding)
    → has_key key (dedupe_from seen findings)
      ≡ (not (key == "") && (not (has_key key seen) && has_key key findings))
unfolding dedupe_from has_key
has_key-dedupe_from key seen [] = ground arith
has_key-dedupe_from key seen (finding ∷ findings) = ground (
  arith,
  has_key-dedupe_from key seen findings,
  has_key-dedupe_from key (finding ∷ seen) findings,
  same-has_key finding key seen,
  λ (e : (key_of finding == key) ≡ true).
      ap (λ k. k == "") ((string_eq.beq_iff (key_of finding) key).0 e),
)

pub gone :
    (seen : List CliFinding) (finding : CliFinding) (findings : List CliFinding)
    → has_key (key_of finding) (dedupe_from (finding ∷ seen) findings) ≡ false
unfolding has_key
gone seen finding findings = ground (
  arith,
  has_key-dedupe_from (key_of finding) (finding ∷ seen) findings,
  beq_refl {A = String} (key_of finding),
)

pub dedupe_from-AreDistinct :
    (seen findings : List CliFinding) → AreDistinct (dedupe_from seen findings)
unfolding AreDistinct dedupe_from
dedupe_from-AreDistinct seen [] = tt
dedupe_from-AreDistinct seen (finding ∷ findings) = elim (Bool-cases (key_of finding == "")) [
  | inl e ↦ rw e (dedupe_from-AreDistinct seen findings)
  | inr e ↦ elim (Bool-cases (has_key (key_of finding) seen)) [
    | inl f ↦ rw (e, f) (dedupe_from-AreDistinct seen findings)
    | inr f ↦
        rw (e, f) (gone seen finding findings, dedupe_from-AreDistinct (finding ∷ seen) findings)
  ]
]

pub has_key-missing_from :
    (key : String) (others findings : List CliFinding)
    → has_key key (missing_from others findings)
      ≡ (has_key key findings && not (has_key key others))
unfolding missing_from has_key
has_key-missing_from key others [] = refl
has_key-missing_from key others (finding ∷ findings) =
    ground (arith, has_key-missing_from key others findings, same-has_key finding key others)

pub has_key-shared_with :
    (key : String) (others findings : List CliFinding)
    → has_key key (shared_with others findings) ≡ (has_key key findings && has_key key others)
unfolding shared_with has_key
has_key-shared_with key others [] = refl
has_key-shared_with key others (finding ∷ findings) =
    ground (arith, has_key-shared_with key others findings, same-has_key finding key others)

pub missing_from-AreDistinct :
    (others findings : List CliFinding)
    → AreDistinct findings
    → AreDistinct (missing_from others findings)
unfolding AreDistinct missing_from
missing_from-AreDistinct others [] d = tt
missing_from-AreDistinct others (finding ∷ findings) (h, d) =
    elim (Bool-cases (has_key (key_of finding) others)) [
      | inl e ↦ rw e (missing_from-AreDistinct others findings d)
      | inr e ↦ rw e (
        has_key-missing_from (key_of finding) others findings ∙ rw h refl,
        missing_from-AreDistinct others findings d,
      )
    ]

pub shared_with-AreDistinct :
    (others findings : List CliFinding)
    → AreDistinct findings
    → AreDistinct (shared_with others findings)
unfolding AreDistinct shared_with
shared_with-AreDistinct others [] d = tt
shared_with-AreDistinct others (finding ∷ findings) (h, d) =
    elim (Bool-cases (has_key (key_of finding) others)) [
      | inl e ↦ rw e (
        has_key-shared_with (key_of finding) others findings ∙ rw h refl,
        shared_with-AreDistinct others findings d,
      )
      | inr e ↦ rw e (shared_with-AreDistinct others findings d)
    ]

-- Each finding that is kept is one of the findings, and so is each of a part of them.
pub dedupe_from-Each :
    (seen findings : List CliFinding)
    → Each (dedupe_from seen findings) (λ f. Has findings (λ other. other ≡ f))
unfolding dedupe_from Each Has
dedupe_from-Each seen [] = tt
dedupe_from-Each seen (finding ∷ findings) =
    let later = λ (table : List CliFinding).
      Each-weaken (dedupe_from table findings) (λ f. Has findings (λ other. other ≡ f))
        (λ f. Has (finding ∷ findings) (λ other. other ≡ f)) (λ f h. inr h)
        (dedupe_from-Each table findings) in
    elim (Bool-cases (key_of finding == "")) [
      | inl e ↦ rw e (later seen)
      | inr e ↦ elim (Bool-cases (has_key (key_of finding) seen)) [
        | inl f ↦ rw (e, f) (later seen)
        | inr f ↦ rw (e, f) (inl refl, later (finding ∷ seen))
      ]
    ]

pub missing_from-Each :
    (others findings : List CliFinding) (P : CliFinding → Type 0)
    → Each findings P
    → Each (missing_from others findings) P
unfolding Each missing_from
missing_from-Each others [] P h = tt
missing_from-Each others (finding ∷ findings) P (h, k) =
    elim (Bool-cases (has_key (key_of finding) others)) [
      | inl e ↦ rw e (missing_from-Each others findings P k)
      | inr e ↦ rw e (h, missing_from-Each others findings P k)
    ]

pub shared_with-Each :
    (others findings : List CliFinding) (P : CliFinding → Type 0)
    → Each findings P
    → Each (shared_with others findings) P
unfolding Each shared_with
shared_with-Each others [] P h = tt
shared_with-Each others (finding ∷ findings) P (h, k) =
    elim (Bool-cases (has_key (key_of finding) others)) [
      | inl e ↦ rw e (h, shared_with-Each others findings P k)
      | inr e ↦ rw e (shared_with-Each others findings P k)
    ]
