-- ===== src/Engine/Rules/Contexts.antt =====
-- Which names hold an AES context: `_build_contexts` and `_context_method` of
-- cryptiq/app/engine/rules/aes.py.
use cryptiq.Shared.{
  String, Option, none, some, List, [], ◌∷◌, ◌==◌, ◌≡◌, refl, arith, string_eq, option_eq, pair_eq,
  if◌then◌else◌, Bool-cases, inl, inr, ap, subst, ◌∙◌, ◌⊎◌,
}
use cryptiq.Shared.Dict.{lookup, put, lookup-put}
use cryptiq.Shared.Each.{Has}
use cryptiq.Engine.Parsed.{ParsedFile, Assignment}
use cryptiq.Engine.Match.{KeyKind, kind_eq}
use cryptiq.Engine.Resolution.{BindingKey}
use cryptiq.Engine.Resolution.Direct.{key_eq, false≢true}
use cryptiq.Engine.Resolution.Assigned.{bound_name}
use cryptiq.Engine.Rules.Aes.{
  context_kind, next_context, contexts_from, build_contexts, context_of, found_kind,
}

-- Each assignment to the name builds a context of the kind.
unfoldable pub AllBuild : ParsedFile → BindingKey → KeyKind → List Assignment → Type 0
AllBuild file key kind [] = Unit
AllBuild file key kind (assignment ∷ rest) =
    (bound_name assignment assignment.targets ≡ some key → context_kind file assignment ≡ some kind)
    × AllBuild file key kind rest

abbrev Contexts : Type 0
Contexts = List (BindingKey × Option KeyKind)

some-injective : {x y : BindingKey} → some x ≡ some y → x ≡ y
some-injective h = cc

unfoldable AgreesKind : Option (Option KeyKind) → KeyKind → Type 0
AgreesKind none out = Unit
AgreesKind (some old) out = old ≡ some out

next_context-Agrees :
    (before : Option (Option KeyKind)) (kind : Option KeyKind) (out : KeyKind)
    → next_context before kind ≡ some out
    → AgreesKind before out × (kind ≡ some out)
unfolding AgreesKind next_context
next_context-Agrees none kind out h = (tt, h)
next_context-Agrees (some old) kind out h = elim (Bool-cases (old == kind)) [
  | inl e ↦
      let kept = subst (λ b. (if b then kind else none) ≡ some out) e h in
      ((option_eq.beq_iff old kind).0 e ∙ kept, kept)
  | inr e ↦ absurd (ground (arith, e, h))
]

-- The table after one more assignment.
abbrev entered : ParsedFile → Assignment → Option BindingKey → Contexts → Contexts
entered file assignment none table = table
entered file assignment (some key) table =
    put key (next_context (lookup key table) (context_kind file assignment)) table

split-Agrees :
    (file : ParsedFile) (assignment : Assignment) (other : BindingKey) (table : Contexts)
    (key : BindingKey) (out : KeyKind)
    → AgreesKind
        (if other == key
          then some (next_context (lookup other table) (context_kind file assignment))
          else lookup key table)
        out
    → AgreesKind (lookup key table) out
      × (some other ≡ some key → context_kind file assignment ≡ some out)
unfolding AgreesKind
split-Agrees file assignment other table key out h =
    let new = next_context (lookup other table) (context_kind file assignment) in
    elim (Bool-cases (other == key)) [
      | inl e ↦
          let now =
            next_context-Agrees (lookup other table) (context_kind file assignment) out
              (subst (λ b. AgreesKind (if b then some new else lookup key table) out) e h) in
          (
            subst (λ k. AgreesKind (lookup k table) out) ((key_eq.beq_iff other key).0 e) now.0,
            λ _. now.1,
          )
      | inr e ↦ (
        subst (λ b. AgreesKind (if b then some new else lookup key table) out) e h,
        λ f. absurd (false≢true e ((key_eq.beq_iff other key).1 (some-injective f))),
      )
    ]

entered-Agrees :
    (file : ParsedFile) (assignment : Assignment) (bound : Option BindingKey) (table : Contexts)
    (key : BindingKey) (out : KeyKind)
    → AgreesKind (lookup key (entered file assignment bound table)) out
    → AgreesKind (lookup key table) out
      × (bound ≡ some key → context_kind file assignment ≡ some out)
entered-Agrees file assignment none table key out h = (h, λ e. cc)
entered-Agrees file assignment (some other) table key out h =
    let new = next_context (lookup other table) (context_kind file assignment) in
    let moved : AgreesKind (if other == key then some new else lookup key table) out =
      subst (λ o. AgreesKind o out) (lookup-put other key new table) h in
    split-Agrees file assignment other table key out moved

entered-elim :
    (file : ParsedFile) (assignment : Assignment) (bound : Option BindingKey) (table : Contexts)
    → (elim bound [
      | none ↦ table
      | some key ↦ put key (next_context (lookup key table) (context_kind file assignment)) table
    ])
      ≡ entered file assignment bound table
entered-elim file assignment none table = refl
entered-elim file assignment (some key) table = refl

contexts_from-Agrees :
    (file : ParsedFile) (assignments : List Assignment) (table : Contexts) (key : BindingKey)
    (out : KeyKind)
    → lookup key (contexts_from file assignments table) ≡ some (some out)
    → AgreesKind (lookup key table) out × AllBuild file key out assignments
unfolding contexts_from AgreesKind AllBuild
contexts_from-Agrees file [] table key out h = (rw h refl, tt)
contexts_from-Agrees file (assignment ∷ rest) table key out h =
    let bound = bound_name assignment assignment.targets in
    let later = contexts_from-Agrees file rest (entered file assignment bound table) key out (
      subst (λ t. lookup key (contexts_from file rest t) ≡ some (some out))
        (entered-elim file assignment bound table) h) in
    let step = entered-Agrees file assignment bound table key out later.0 in
    (step.0, (step.1, later.1))

-- The assignment is to the name, and builds a context of the kind.
abbrev Builds : ParsedFile → BindingKey → KeyKind → Assignment → Type 0
Builds file key kind assignment =
    (bound_name assignment assignment.targets ≡ some key)
    × (context_kind file assignment ≡ some kind)

entered-Has :
    (file : ParsedFile) (assignment : Assignment) (bound : Option BindingKey) (table : Contexts)
    (key : BindingKey) (out : KeyKind)
    → lookup key (entered file assignment bound table) ≡ some (some out)
    → (lookup key table ≡ some (some out))
      ⊎ ((bound ≡ some key) × (context_kind file assignment ≡ some out))
entered-Has file assignment none table key out h = inl h
entered-Has file assignment (some other) table key out h =
    let new = next_context (lookup other table) (context_kind file assignment) in
    let moved : (if other == key then some new else lookup key table) ≡ some (some out) =
      subst (λ o. o ≡ some (some out)) (lookup-put other key new table) h in
    elim (Bool-cases (other == key)) [
      | inr e ↦
          inl (subst (λ b. (if b then some new else lookup key table) ≡ some (some out)) e moved)
      | inl e ↦
          let now =
            subst (λ b. (if b then some new else lookup key table) ≡ some (some out)) e moved in
          inr (
            ap some ((key_eq.beq_iff other key).0 e),
            (next_context-Agrees (lookup other table) (context_kind file assignment) out
                (ground (arith, now))).1,
          )
    ]

contexts_from-Has :
    (file : ParsedFile) (assignments : List Assignment) (table : Contexts) (key : BindingKey)
    (out : KeyKind)
    → lookup key (contexts_from file assignments table) ≡ some (some out)
    → (lookup key table ≡ some (some out)) ⊎ Has assignments (Builds file key out)
unfolding contexts_from Has
contexts_from-Has file [] table key out h = inl h
contexts_from-Has file (assignment ∷ rest) table key out h =
    let bound = bound_name assignment assignment.targets in
    let later = contexts_from-Has file rest (entered file assignment bound table) key out (
      subst (λ t. lookup key (contexts_from file rest t) ≡ some (some out))
        (entered-elim file assignment bound table) h) in
    elim later [
      | inr k ↦ inr (inr k)
      | inl k ↦ elim (entered-Has file assignment bound table key out k) [
        | inl here ↦ inl here
        | inr built ↦ inr (inl built)
      ]
    ]

-- A name that holds an AES context: each assignment in its scope, outside a class body, whose only target
-- is the name builds a context of that kind, and there is such an assignment.
pub build_contexts-AllBuild :
    (file : ParsedFile) (key : BindingKey) (kind : KeyKind)
    → lookup key (build_contexts file) ≡ some (some kind)
    → AllBuild file key kind file.assignments
      × Has file.assignments (λ assignment.
        (bound_name assignment assignment.targets ≡ some key)
        × (context_kind file assignment ≡ some kind))
unfolding build_contexts lookup
build_contexts-AllBuild file key kind h = (
  (contexts_from-Agrees file file.assignments [] key kind h).1,
  elim (contexts_from-Has file file.assignments [] key kind h) [
    | inl e ↦ absurd (ground (arith, e))
    | inr k ↦ k
  ],
)

-- A method called on a name in a function: where the function's assignments to the name build no
-- context, or contexts of two kinds, the kind of the module's name of the same spelling is taken.
pub context_of-module :
    (file : ParsedFile) (function receiver : String) (kind : KeyKind)
    → found_kind (lookup (some function, receiver) (build_contexts file)) ≡ none
    → lookup (none, receiver) (build_contexts file) ≡ some (some kind)
    → context_of file (some function) receiver ≡ some kind
unfolding context_of
context_of-module file function receiver kind h k = rw (h, context_of) (rw (k, context_of) refl)
