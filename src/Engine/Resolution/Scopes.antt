-- ===== src/Engine/Resolution/Scopes.antt =====
-- The chain of the enclosing scopes, and what shadows what: `BindingIndex.scope_chain` and
-- `BindingIndex.lookup` of cryptiq/app/engine/rules/resolution.py.
use cryptiq.Shared.{
  ℕ, zero, suc, ◌<◌, String, Bool, true, false, Option, none, some, List, [], ◌∷◌, ◌++◌, ◌==◌, ◌≡◌,
  refl, arith, string_eq, nat_eq, pair_eq, option_eq, if◌then◌else◌, Bool-cases, Option-cases, inl,
  inr, contains, ap, subst,
}
use Prim.Native.Char.{code}
use cryptiq.Shared.Dict.{lookup}
use cryptiq.Engine.Resolution.{
  Scope, Binding, BindingIndex, size, before_last_dot, scopes_from, scope_size, scope_chain,
  lookup_along, lookup_binding,
}

empty-size : (b : Bool) (t : String) → (if b then some "" else none) ≡ some t → size t ≡ 0
unfolding size
empty-size true t h =
    subst (λ x. size x ≡ 0) (ap (λ (o : Option String). elim o [ none ↦ "" | some x ↦ x ]) h) refl
empty-size false t h = cc

before_last_dot-size : (s : String) → (t : String) → before_last_dot s ≡ some t → size t < size s
unfolding before_last_dot size
before_last_dot-size String.[] t h = cc
before_last_dot-size (String.◌∷◌ c s) t h = elim (Option-cases (before_last_dot s)) [
  | inl e ↦
      let nothing = empty-size (code c == b'.') t (
        subst
          (λ o.
            elim o [
              | none ↦ if code c == b'.' then some "" else none
              | some p ↦ some (String.◌∷◌ c p)
            ]
            ≡ some t)
          e h) in
      omega (arith, nothing)
  | inr (p, e) ↦
      let longer : size (String.◌∷◌ c p) ≡ suc (size p) = refl in
      ground (arith, e, longer, before_last_dot-size s p e)
]

scope_size-outer : (s : String) → (s == "") ≡ false → scope_size (before_last_dot s) < size s
unfolding size
scope_size-outer String.[] h = cc
scope_size-outer (String.◌∷◌ c s) h = elim (Option-cases (before_last_dot (String.◌∷◌ c s))) [
  | inl e ↦ rw e (omega arith)
  | inr (t, e) ↦ rw e (before_last_dot-size (String.◌∷◌ c s) t e)
]

-- The rest of the chain, once the next enclosing scopes are known.
abbrev pub extended : List String → String → List Scope → List Scope
extended functions s outer =
    if s == "" then none ∷ [] else if contains functions s then some s ∷ outer else outer

extended-eq :
    (functions : List String) (s : String) (xs ys : List Scope)
    → ((s == "") ≡ false → xs ≡ ys)
    → extended functions s xs ≡ extended functions s ys
extended-eq functions s xs ys h = elim (Bool-cases (s == "")) [
  | inl e ↦ rw e refl
  | inr e ↦ ap (extended functions s) (h e)
]

scopes_from-fuel :
    (n m : ℕ) (functions : List String) (scope : Scope)
    → scope_size scope < n
    → scope_size scope < m
    → scopes_from n functions scope ≡ scopes_from m functions scope
unfolding scopes_from
scopes_from-fuel zero m functions scope h k = ground arith
scopes_from-fuel (suc n) zero functions scope h k = ground arith
scopes_from-fuel (suc n) (suc m) functions none h k = refl
scopes_from-fuel (suc n) (suc m) functions (some s) h k = extended-eq functions s _ _ (λ nonempty.
    scopes_from-fuel n m functions (before_last_dot s) (omega (arith, scope_size-outer s nonempty))
      (omega (arith, scope_size-outer s nonempty)))

-- The chain of a scope is the scope itself, if it is that of a function, and then the chain of the
-- scope that its name has up to the last dot: the fuel of the loop never runs out.
pub scope_chain-step :
    (index : BindingIndex) (s : String)
    → scope_chain index (some s)
      ≡ extended index.function_scopes s (scope_chain index (before_last_dot s))
unfolding scope_chain scopes_from
scope_chain-step index s = extended-eq index.function_scopes s _ _ (λ nonempty.
    scopes_from-fuel (size s) (suc (scope_size (before_last_dot s))) index.function_scopes
      (before_last_dot s) (scope_size-outer s nonempty) (omega arith))

-- A scope in which a lookup finds nothing and goes on to the next.
unfoldable pub IsOpen : BindingIndex → String → Scope → Type 0
IsOpen index name level =
    (lookup (level, name) index.bindings ≡ none)
    × (elim (lookup level index.locally_bound) [ none ↦ false | some bound ↦ contains bound name ]
        ≡ false)

unfoldable pub AllOpen : BindingIndex → String → List Scope → Type 0
AllOpen index name [] = Unit
AllOpen index name (level ∷ levels) = IsOpen index name level × AllOpen index name levels

-- A scope of the chain has the binding, and no scope inside that one stops the lookup.
unfoldable pub IsInnermost : BindingIndex → String → Binding → List Scope → Type 0
IsInnermost index name binding levels =
    (inner : List Scope) × ((level : Scope) × ((outer : List Scope) × ((levels
            ≡ inner ++ level ∷ outer)
          × ((lookup (level, name) index.bindings ≡ some binding) × AllOpen index name inner))))

IsInnermost-cons :
    (index : BindingIndex) (name : String) (binding : Binding) (level : Scope) (levels : List Scope)
    → IsOpen index name level
    → IsInnermost index name binding levels
    → IsInnermost index name binding (level ∷ levels)
unfolding IsInnermost AllOpen
IsInnermost-cons index name binding level levels free (inner, (at, (outer, (p, (q, r))))) =
    (level ∷ inner, (at, (outer, (ap (λ rest. level ∷ rest) p, (q, (free, r))))))

IsInnermost-here :
    (index : BindingIndex) (name : String) (binding : Binding) (level : Scope) (levels : List Scope)
    → lookup (level, name) index.bindings ≡ some binding
    → IsInnermost index name binding (level ∷ levels)
unfolding IsInnermost AllOpen
IsInnermost-here index name binding level levels h = ([], (level, (levels, (refl, (h, tt)))))

-- Where the next scopes are asked, the name has no kind here and is not bound here.
passed-IsOpen :
    (index : BindingIndex) (name : String) (level : Scope) (rest : Option Binding)
    (binding : Binding)
    → lookup (level, name) index.bindings ≡ none
    → elim (lookup level index.locally_bound) [
      | none ↦ rest
      | some bound ↦ if contains bound name then none else rest
    ]
      ≡ some binding
    → IsOpen index name level × (rest ≡ some binding)
unfolding IsOpen
passed-IsOpen index name level rest binding e h = ground arith

lookup_along-IsInnermost :
    (index : BindingIndex) (levels : List Scope) (name : String) (binding : Binding)
    → lookup_along index levels name ≡ some binding
    → IsInnermost index name binding levels
unfolding lookup_along
lookup_along-IsInnermost index [] name binding h = cc
lookup_along-IsInnermost index (level ∷ levels) name binding h =
    elim (Option-cases (lookup (level, name) index.bindings)) [
      | inr (found, e) ↦ IsInnermost-here index name binding level levels (ground arith)
      | inl e ↦
          let passed =
            passed-IsOpen index name level (lookup_along index levels name) binding e
              (ground arith) in
          IsInnermost-cons index name binding level levels passed.0
            (lookup_along-IsInnermost index levels name binding passed.1)
    ]

-- A lookup that finds a binding found it in a scope of the chain, and no scope inside that one gives
-- the name a kind or binds it in any other way: an inner assignment or parameter shadows.
pub lookup_binding-IsInnermost :
    (index : BindingIndex) (scope : Scope) (name : String) (binding : Binding)
    → lookup_binding index scope name ≡ some binding
    → IsInnermost index name binding (scope_chain index scope)
unfolding lookup_binding
lookup_binding-IsInnermost index scope name binding h =
    lookup_along-IsInnermost index (scope_chain index scope) name binding h
