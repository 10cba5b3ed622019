-- ===== src/Engine/Rules/Receivers.antt =====
-- What a key-class rule reports of a method call (cryptiq/app/engine/rules/keypair.py).
use cryptiq.Shared.{
  String, false, none, some, [], ◌∷◌, ◌==◌, ◌≡◌, refl, string_eq, option_eq, pair_eq, if◌then◌else◌,
}
use cryptiq.Shared.Dict.{lookup}
use cryptiq.Shared.Parts.{format}
use cryptiq.Engine.Parsed.{ParsedFile, Call}
use cryptiq.Engine.Match.{KeyKind, kind_eq, CryptoOperation, EvidenceBasis, MatchConfidence}
use cryptiq.Engine.Resolution.{
  Scope, NamespaceSpec, lookup_binding, lookup_along, scope_chain, scopes_from,
}
use cryptiq.Engine.Resolution.Assigned.{build_index}
use cryptiq.Engine.Resolution.Annotations.{IsAnnotated}
use cryptiq.Engine.Resolution.Annotated.{by_annotation, build_index-annotated}
use cryptiq.Engine.Resolution.Functions.{DefinesFunction, build_index-function}
use cryptiq.Engine.Rules.KeyPair.{KeyPairRule, make_match, receiver_match}

-- The module, or a function that the file defines.
unfoldable pub IsScope : ParsedFile → Scope → Type 0
IsScope file none = Unit
IsScope file (some function) = ((function == "") ≡ false) × DefinesFunction file function

lookup_binding-own :
    (file : ParsedFile) (spec : NamespaceSpec) (scope : Scope) (name : String) (kind : KeyKind)
    → IsScope file scope
    → lookup (scope, name) (build_index file spec).bindings ≡ some (by_annotation kind)
    → lookup_binding (build_index file spec) scope name ≡ some (by_annotation kind)
unfolding IsScope lookup_binding lookup_along scope_chain scopes_from
lookup_binding-own file spec none name kind h e = rw (e, lookup_along) refl
lookup_binding-own file spec (some function) name kind (h, k) e =
    rw (h, scopes_from) (rw (build_index-function function file spec k) (rw (e, lookup_along) refl))

-- If a name has an annotation in a scope, and all its annotations there name the same half of a key, then
-- a call of a method of the rule's table on the name in that scope is reported exactly if the table asks
-- for that half: as the class and the operation of the table, with the annotation as its basis and HIGH
-- confidence, and whatever the assignments of the file do with the name. The scope is the module or
-- a function of the file, and the rule has a class for the half.
pub receiver_match-annotated :
    (version : String) (rule : KeyPairRule) (file : ParsedFile) (call : Call)
    (receiver method class_name : String) (operation : CryptoOperation) (kind required : KeyKind)
    → IsScope file call.enclosing_function
    → IsAnnotated file rule.spec (call.enclosing_function, receiver) kind
    → lookup method rule.method_operations ≡ some (operation, required)
    → lookup kind rule.canonical_class ≡ some class_name
    → receiver_match version rule file call receiver method ≡ (
        if kind == required
        then some (
            make_match version rule call
              (format (class_name ∷ "." ∷ method ∷ []))
              operation
              MatchConfidence.high
              EvidenceBasis.class_annotation)
        else none)
unfolding receiver_match
receiver_match-annotated version rule file call receiver method class_name operation kind required s
      a m c =
    let bound =
      lookup_binding-own file rule.spec call.enclosing_function receiver kind s
        (build_index-annotated file rule.spec (call.enclosing_function, receiver) kind a) in
    rw (m, receiver_match) (rw bound (rw c refl))
