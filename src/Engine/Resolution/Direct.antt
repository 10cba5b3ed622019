-- ===== src/Engine/Resolution/Direct.antt =====
-- What the first round of `_collect_assignments` establishes
-- (cryptiq/app/engine/rules/resolution.py): the names that are assigned constructed keys only.
use cryptiq.Shared.{
  Bool, true, false, Option, none, some, List, [], ◌∷◌, ◌==◌, ◌≡◌, refl, arith, string_eq,
  option_eq, pair_eq, Eq, if◌then◌else◌, Bool-cases, Option-cases, inl, inr, subst,
}
use cryptiq.Shared.Dict.{lookup, lookup-put}
use cryptiq.Engine.Parsed.{ParsedFile, Assignment}
use cryptiq.Engine.Match.{KeyKind, kind_eq}
use cryptiq.Engine.Resolution.{BindingKey, NamespaceSpec, Established}
use cryptiq.Engine.Resolution.Assigned.{Outcomes, merged, merge, constructed, merge_direct}

abbrev pub key_eq : Eq BindingKey
key_eq = pair_eq

-- Each assignment to the name constructs a key of the kind.
unfoldable pub AllConstruct :
    ParsedFile → NamespaceSpec → BindingKey → KeyKind → List (Assignment × BindingKey) → Type 0
AllConstruct file spec key kind [] = Unit
AllConstruct file spec key kind ((assignment, other) ∷ rest) =
    ((other == key) ≡ true
      → (new : Established) × ((constructed file spec assignment.value_call ≡ some new)
          × (new.kind ≡ kind)))
    × AllConstruct file spec key kind rest

-- What is in the table already agrees with what comes out.
unfoldable Agrees : Option (Option Established) → Established → Type 0
Agrees none out = Unit
Agrees (some old) out = old ≡ some out

pub lookup-merge :
    (replace : Bool) (key j : BindingKey) (new : Option Established) (table : Outcomes)
    → lookup j (merge replace key new table) ≡ (
        if key == j
        then some (elim (lookup key table) [ none ↦ new | some old ↦ merged replace old new ])
        else lookup j table)
unfolding merge
lookup-merge replace key j new table = elim (Option-cases (lookup key table)) [
  | inl e ↦ rw (e, merge) (lookup-put key j new table)
  | inr (old, e) ↦ rw (e, merge) (lookup-put key j (merged replace old new) table)
]

merged-same :
    (old made out : Established)
    → merged false (some old) (some made) ≡ some out
    → (◌≡◌ {A = Option Established} (some old) (some out)) × (made.kind ≡ out.kind)
unfolding merged
merged-same old made out h = elim (Bool-cases (old.kind == made.kind)) [
  | inl e ↦
      let kept : ◌≡◌ {A = Option Established} (some old) (some out) =
        subst (λ b. ◌≡◌ {A = Option Established} (if b then some old else none) (some out)) e h in
      (kept, ground (arith, kept, kind_eq.beq_iff old.kind made.kind))
  | inr e ↦ absurd (ground (arith, e, h))
]

-- One assignment's outcome in a table that already agrees with what comes out.
merged-Agrees :
    (before : Option (Option Established)) (new : Option Established) (out : Established)
    → elim before [ none ↦ new | some old ↦ merged false old new ] ≡ some out
    → Agrees before out × ((made : Established) × ((new ≡ some made) × (made.kind ≡ out.kind)))
unfolding Agrees merged
merged-Agrees none new out h = (tt, (out, (h, refl)))
merged-Agrees (some none) none out h = cc
merged-Agrees (some none) (some made) out h = cc
merged-Agrees (some (some old)) none out h = cc
merged-Agrees (some (some old)) (some made) out h =
    let same = merged-same old made out h in (same.0, (made, (refl, same.1)))

pub false≢true : {b : Bool} → b ≡ false → b ≡ true → ⊥
false≢true e f = cc

step-Agrees :
    (key other : BindingKey) (new : Option Established) (table : Outcomes) (out : Established)
    → Agrees (lookup key (merge false other new table)) out
    → Agrees (lookup key table) out
      × ((other == key) ≡ true
          → (made : Established) × ((new ≡ some made) × (made.kind ≡ out.kind)))
unfolding Agrees
step-Agrees key other new table out h =
    let joined =
      some (elim (lookup other table) [ none ↦ new | some old ↦ merged false old new ]) in
    let moved : Agrees (if other == key then joined else lookup key table) out =
      subst (λ o. Agrees o out) (lookup-merge false other key new table) h in
    elim (Bool-cases (other == key)) [
      | inl e ↦
          let now =
            merged-Agrees (lookup other table) new out
              (subst (λ b. Agrees (if b then joined else lookup key table) out) e moved) in
          (
            subst (λ k. Agrees (lookup k table) out) ((key_eq.beq_iff other key).0 e) now.0,
            λ _. now.1,
          )
      | inr e ↦ (
        subst (λ b. Agrees (if b then joined else lookup key table) out) e moved,
        λ f. absurd (false≢true e f),
      )
    ]

merge_direct-Agrees :
    (file : ParsedFile) (spec : NamespaceSpec) (chosen : List (Assignment × BindingKey))
    (table : Outcomes) (key : BindingKey) (out : Established)
    → lookup key (merge_direct file spec chosen table) ≡ some (some out)
    → Agrees (lookup key table) out × AllConstruct file spec key out.kind chosen
unfolding merge_direct Agrees AllConstruct
merge_direct-Agrees file spec [] table key out h = (rw h refl, tt)
merge_direct-Agrees file spec ((assignment, other) ∷ rest) table key out h =
    let later =
      merge_direct-Agrees file spec rest
        (merge false other (constructed file spec assignment.value_call) table) key out h in
    let step =
      step-Agrees key other (constructed file spec assignment.value_call) table out later.0 in
    (step.0, (step.1, later.1))

-- If the first round gives a name a kind, then every assignment to the name constructs a key of that
-- kind, whatever the order of the assignments.
pub merge_direct-AllConstruct :
    (file : ParsedFile) (spec : NamespaceSpec) (chosen : List (Assignment × BindingKey))
    (key : BindingKey) (out : Established)
    → lookup key (merge_direct file spec chosen []) ≡ some (some out)
    → AllConstruct file spec key out.kind chosen
merge_direct-AllConstruct file spec chosen key out h =
    (merge_direct-Agrees file spec chosen [] key out h).1
