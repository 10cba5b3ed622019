-- ===== src/Engine/Resolution.antt =====
-- What the rules can establish about a name: cryptiq/app/engine/rules/resolution.py. The scan of a
-- file into an index of bindings is in the module `Index` below.
pub mod Index
pub mod Assigned
pub mod Annotations
pub mod Annotated
pub mod Functions
pub mod Scopes
pub mod Direct
pub mod Revived
use Prim.Native.Char.{code}
use cryptiq.Shared.{
  ℕ, String, Bool, true, false, Option, none, some, List, [], ◌∷◌, ◌==◌, nat_eq, string_eq,
  option_eq, pair_eq, if◌then◌else◌, contains,
}
use cryptiq.Shared.Text.{strip_prefix, has_char}
use cryptiq.Shared.Parts.{split, join, format}
use cryptiq.Shared.Dict.{lookup}
use cryptiq.Engine.Parsed.{ParsedFile, resolve}
use cryptiq.Engine.Match.{KeyKind, kind_eq, EvidenceBasis, basis_eq, MatchConfidence}

-- `None` is the module's own scope.
abbrev pub Scope : Type 0
Scope = Option String

abbrev pub BindingKey : Type 0
BindingKey = Scope × String

-- `resolve_chain`
unfoldable pub resolve_chain : ParsedFile → Option (List String) → Option String
resolve_chain file none = none
resolve_chain file (some []) = none
resolve_chain file (some (root ∷ rest)) = elim (resolve file root) [
  | none ↦ none
  | some target ↦ some (join "." (target ∷ rest))
]

-- `resolve_dotted`
unfoldable pub resolve_dotted : ParsedFile → Option String → Option String
resolve_dotted file none = none
resolve_dotted file (some dotted) =
    if dotted == "" then none else resolve_chain file (some (split b'.' dotted))

-- `member_of`
unfoldable pub member_of : String → Option String → Option String
member_of module_name none = none
member_of module_name (some path) = strip_prefix (format (module_name ∷ "." ∷ [])) path

-- `member_of_any`
unfoldable pub member_of_any : List String → Option String → Option String
member_of_any [] path = none
member_of_any (module_name ∷ modules) path = elim (member_of module_name path) [
  | none ↦ member_of_any modules path
  | some member ↦ some member
]

-- `is_class_body`
unfoldable pub is_class_body : Scope → Option String → Bool
is_class_body scope none = false
is_class_body none (some class_name) = true
is_class_body (some function) (some class_name) =
    elim (strip_prefix (format (function ∷ "." ∷ [])) class_name) [ none ↦ false | some _ ↦ true ]

pub record NamespaceSpec : Type 0 where
  pub modules : List String
  pub classes : List (String × KeyKind)
  pub constructors : List (String × KeyKind)
  pub derivations : List (String × (KeyKind × KeyKind))

-- `NamespaceSpec.member`
unfoldable pub member : NamespaceSpec → ParsedFile → Option (List String) → Option String
member spec file chain = member_of_any spec.modules (resolve_chain file chain)

-- `self.classes.get(member) if member else None`, and the same for the other tables.
unfoldable pub get_named {ℓ} : {V : Type ℓ} → List (String × V) → Option String → Option V
get_named table none = none
get_named table (some m) = if m == "" then none else lookup m table

-- `NamespaceSpec.class_kind`
unfoldable pub class_kind : NamespaceSpec → Option String → Option KeyKind
class_kind spec m = get_named spec.classes m

pub record Binding : Type 0 where
  pub kind : KeyKind
  pub basis : EvidenceBasis
  pub confidence : MatchConfidence

-- `_Established`
pub record Established : Type 0 where
  pub kind : KeyKind
  pub basis : EvidenceBasis

pub record BindingIndex : Type 0 where
  pub bindings : List (BindingKey × Binding)
  pub locally_bound : List (Scope × List String)
  pub function_scopes : List String

-- `BindingIndex.lookup` along a chain of scopes: the loop.
unfoldable pub lookup_along : BindingIndex → List Scope → String → Option Binding
lookup_along index [] name = none
lookup_along index (level ∷ levels) name = elim (lookup (level, name) index.bindings) [
  | some binding ↦ some binding
  | none ↦ elim (lookup level index.locally_bound) [
    | none ↦ lookup_along index levels name
    | some bound ↦ if contains bound name then none else lookup_along index levels name
  ]
]

-- The number of the characters of a text.
unfoldable pub size : String → ℕ
size String.[] = 0
size (String.◌∷◌ c s) = ℕ.suc (size s)

-- `s.rsplit(".", 1)[0] if "." in s else None`
unfoldable pub before_last_dot : String → Option String
before_last_dot String.[] = none
before_last_dot (String.◌∷◌ c s) = elim (before_last_dot s) [
  | none ↦ if code c == b'.' then some "" else none
  | some p ↦ some (String.◌∷◌ c p)
]

-- The loop of `BindingIndex.scope_chain`; the fuel is above the size of the text.
unfoldable pub scopes_from : ℕ → List String → Scope → List Scope
scopes_from ℕ.zero functions current = none ∷ []
scopes_from (ℕ.suc fuel) functions none = none ∷ []
scopes_from (ℕ.suc fuel) functions (some current) =
    let outer = scopes_from fuel functions (before_last_dot current) in
    if current == ""
    then none ∷ []
    else if contains functions current
    then some current ∷ outer
    else outer

abbrev pub scope_size : Scope → ℕ
scope_size none = 0
scope_size (some s) = size s

-- `BindingIndex.scope_chain`
unfoldable pub scope_chain : BindingIndex → Scope → List Scope
scope_chain index scope = scopes_from (ℕ.suc (scope_size scope)) index.function_scopes scope

-- `BindingIndex.lookup`
unfoldable pub lookup_binding : BindingIndex → Scope → String → Option Binding
lookup_binding index scope name = lookup_along index (scope_chain index scope) name
