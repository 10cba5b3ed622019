-- ===== src/Ingestion/Paths/Links.antt =====
-- Which symbolic links _assert_symlink_stays_inside of cryptiq/app/engine/ingestion/archive.py accepts.
use mathlib.Core.List.{reverse, reverse-append}
use cryptiq.Shared.{
  ℕ, zero, suc, ◌+◌, String, Bool, true, false, not, ◌&&◌, ◌||◌, List, [], ◌∷◌, ◌++◌, ◌≡◌, refl,
  sym, ◌∙◌, ap, arith, string_eq, ◌==◌, if◌then◌else◌, Bool-cases, inl, inr, contains,
}
use cryptiq.Shared.Each.{Each}
use cryptiq.Shared.Dict.{length}
use cryptiq.Shared.Parts.{split}
use cryptiq.Ingestion.Validation.{starts_with}
use cryptiq.Ingestion.Outcome.{ok, err, unsafe, refuse_if}
use cryptiq.Ingestion.Paths.{
  slash, has_drive, climb, norm_from, normpath, escapes, parent, assert_symlink_stays_inside,
}
use cryptiq.Ingestion.Paths.Safe.{IsSafePart, IsSafePath, parent-Each}

-- Whoever follows the components one after the other from a directory at this depth never leaves the
-- root.
pub stays : ℕ → List String → Bool
stays depth [] = true
stays zero (comp ∷ comps) =
    let same = stays zero comps in
    let deeper = stays 1 comps in
    if comp == "" || comp == "." then same else if comp == ".." then false else deeper
stays (suc depth) (comp ∷ comps) =
    let same = stays (suc depth) comps in
    let above = stays depth comps in
    let deeper = stays (suc (suc depth)) comps in
    if comp == "" || comp == "." then same else if comp == ".." then above else deeper

-- The first part of what is kept, which stands last.
bottom : List String → Bool
bottom [] = false
bottom (part ∷ []) = part == ".."
bottom (part ∷ next ∷ parts) = bottom (next ∷ parts)

escapes-snoc :
    (part next : String) (parts : List String)
    → escapes ((next ∷ parts) ++ part ∷ []) ≡ escapes (next ∷ parts)
unfolding escapes
escapes-snoc part next parts = refl

escapes-append :
    (parts : List String) (part next : String)
    → escapes ((parts ++ next ∷ []) ++ part ∷ []) ≡ escapes (parts ++ next ∷ [])
unfolding escapes
escapes-append [] part next = refl
escapes-append (first ∷ parts) part next = refl

escapes-reverse : (kept : List String) → escapes (reverse kept) ≡ bottom kept
unfolding bottom escapes
escapes-reverse [] = refl
escapes-reverse (part ∷ []) = refl
escapes-reverse (part ∷ next ∷ parts) =
    ap escapes (reverse-append (part ∷ []) (next ∷ parts))
    ∙ ap (λ ps. escapes (ps ++ part ∷ [])) (reverse-append (next ∷ []) parts)
    ∙ escapes-append (reverse parts) part next
    ∙ ap escapes (sym (reverse-append (next ∷ []) parts))
    ∙ escapes-reverse (next ∷ parts)

-- One component, and those after it.
step : List String → String → List String
step kept comp =
    if comp == "" || comp == "." then kept else if comp == ".." then climb kept else comp ∷ kept

-- Once above the root, the path starts there.
step-bottom :
    (kept : List String) (comp : String) → bottom kept ≡ true → bottom (step kept comp) ≡ true
unfolding step climb bottom
step-bottom [] comp h = cc
step-bottom (top ∷ []) comp h = ground arith
step-bottom (top ∷ next ∷ kept) comp h = ground arith

norm_from-bottom :
    (comps kept : List String) → bottom kept ≡ true → bottom (norm_from kept comps) ≡ true
unfolding norm_from step
norm_from-bottom [] kept h = h
norm_from-bottom (comp ∷ comps) kept h =
    norm_from-bottom comps (step kept comp) (step-bottom kept comp h)

clean-bottom : (kept : List String) → contains kept ".." ≡ false → bottom kept ≡ false
unfolding bottom contains
clean-bottom [] h = refl
clean-bottom (part ∷ []) h = ground arith
clean-bottom (part ∷ next ∷ kept) h = ground (arith, clean-bottom (next ∷ kept))

clean-parts :
    (top : String) (kept : List String)
    → contains (top ∷ kept) ".." ≡ false
    → ((top == "..") ≡ false) × (contains kept ".." ≡ false)
unfolding contains
clean-parts top kept h = ground (arith, h)

norm_from-stays :
    (comps kept : List String)
    → contains kept ".." ≡ false
    → bottom (norm_from kept comps) ≡ not (stays (length kept) comps)
unfolding norm_from stays climb contains bottom
norm_from-stays [] kept h = clean-bottom kept h
norm_from-stays (comp ∷ comps) [] h = elim (Bool-cases (comp == "" || comp == ".")) [
  | inl e ↦ rw e (norm_from-stays comps [] h)
  | inr e ↦ elim (Bool-cases (comp == "..")) [
    | inl up ↦ rw (e, up) (norm_from-bottom comps (".." ∷ []) refl)
    | inr name ↦ rw (e, name) (norm_from-stays comps (comp ∷ []) (rw name refl))
  ]
]
norm_from-stays (comp ∷ comps) (top ∷ kept) h = elim (Bool-cases (comp == "" || comp == ".")) [
  | inl e ↦ rw e (norm_from-stays comps (top ∷ kept) h)
  | inr e ↦
      let (named, clean) = clean-parts top kept h in
      elim (Bool-cases (comp == "..")) [
        | inl up ↦ rw (e, up, named) (norm_from-stays comps kept clean)
        | inr name ↦ rw (e, name) (norm_from-stays comps (comp ∷ top ∷ kept) (rw name h))
      ]
]

IsSafePart-tests :
    (part : String)
    → IsSafePart part
    → ((part == "" || part == ".") ≡ false) × ((part == "..") ≡ false)
unfolding IsSafePart
IsSafePart-tests part h =
    ground
      (arith, string_eq.beq_iff part "", string_eq.beq_iff part ".", string_eq.beq_iff part "..")

-- The names on the way to the link lead down.
stays-names :
    (names comps : List String) (depth : ℕ)
    → Each names IsSafePart
    → stays depth (names ++ comps) ≡ stays (length names + depth) comps
unfolding stays Each
stays-names [] comps depth h = ap (λ n. stays n comps) (omega arith)
stays-names (name ∷ names) comps zero (p, h) =
    let (visible, down) = IsSafePart-tests name p in
    rw (visible, down) (stays-names names comps 1 h ∙ ap (λ n. stays n comps) (omega arith))
stays-names (name ∷ names) comps (suc depth) (p, h) =
    let (visible, down) = IsSafePart-tests name p in
    rw (visible, down)
      (stays-names names comps (suc (suc depth)) h ∙ ap (λ n. stays n comps) (omega arith))

normpath-stays : (comps : List String) → escapes (normpath comps) ≡ not (stays 0 comps)
unfolding normpath contains
normpath-stays comps = escapes-reverse (norm_from [] comps) ∙ norm_from-stays comps [] refl

-- A link at a safe path is accepted exactly if its text is no absolute path and leads, followed one
-- component after the other from the directory that holds the link, at no point out of the root.
pub assert_symlink_stays_inside-stays :
    (relative : List String) (target : String)
    → IsSafePath relative
    → assert_symlink_stays_inside relative target ≡ (
        if not (starts_with "/" target || has_drive target)
          && stays (length (parent relative)) (split slash target)
        then ok tt
        else err unsafe)
unfolding assert_symlink_stays_inside IsSafePath
assert_symlink_stays_inside-stays relative target h =
    let comps = split slash target in
    let depth : length (parent relative) + 0 ≡ length (parent relative) = omega arith in
    let followed =
      normpath-stays (parent relative ++ comps)
      ∙ ap not (
          stays-names (parent relative) comps 0 (parent-Each relative h.1)
          ∙ ap (λ n. stays n comps) depth) in
    elim (Bool-cases (starts_with "/" target || has_drive target)) [
      | inl e ↦ rw e refl
      | inr e ↦ rw (e, followed) (last (stays (length (parent relative)) comps))
    ]
  where
    last : (b : Bool) → refuse_if (not b) unsafe ≡ (if not false && b then ok tt else err unsafe)
    last true = refl
    last false = refl
