-- ===== src/Engine/Tests.antt =====
-- Files as the parser gives them, what the rules find in them, and the theorems at these.
use cryptiq.Shared.{
  String, true, Option, none, some, List, [], ◌∷◌, ◌++◌, ◌≡◌, refl, string_eq, option_eq, pair_eq,
  contains, inl, inr, if◌then◌else◌, ◌==◌,
}
use mathlib.Core.List.{Perm}
use cryptiq.Shared.Text.{strip_prefix, has_char}
use cryptiq.Shared.Parts.{split, join, format, partition}
use cryptiq.Shared.Dict.{lookup, put}
use cryptiq.Shared.Each.{Each, Has}
use cryptiq.Engine.Parsed.{
  Expr, Exprs, SymbolKind, ParsedFile, Assignment, Call, SourceLocation, resolve, attribute_chain,
}
use cryptiq.Engine.Match.{
  KeyKind, KeyKind-discrete, kind_eq, RuleMatch, CryptoOperation, MatchConfidence, EvidenceBasis,
}
use cryptiq.Engine.Resolution.{
  Scope, BindingKey, Binding, BindingIndex, Established, resolve_chain, resolve_dotted, member_of,
  member_of_any, is_class_body, member, get_named, class_kind, lookup_along, size, before_last_dot,
  scopes_from, scope_chain, lookup_binding,
}
use cryptiq.Engine.Resolution.Index.{
  is_identifier, is_letter, all_word, collect_scopes, collect_annotations, collect_functions,
  collect_function, collect_stores, add, bind_names, is_load, annotated, find_kinds, bind_kinds,
}
use cryptiq.Engine.Resolution.Assigned.{
  merged, merge, constructed, established_kind, derived_from, derived, aliased, bound_name,
  candidates, merge_direct, inferred, merge_inferred, bind_established, collect_assignments,
  build_index,
}
use cryptiq.Engine.Resolution.Scopes.{
  scope_chain-step, extended, IsInnermost, lookup_binding-IsInnermost,
}
use cryptiq.Engine.Resolution.Direct.{AllConstruct, merge_direct-AllConstruct}
use cryptiq.Engine.Resolution.Revived.{merge_inferred-revives}
use cryptiq.Engine.Rules.KeyPair.{
  make_match, api_name, member_match, imported_api, receiver_match, receiver_api, evaluate_key_pair,
}
use cryptiq.Engine.Rules.Tables.{rsa_rule, rsa_spec}
use cryptiq.Engine.Rules.Aes.{
  member_among, aes_match, construction, is_aes_call, any_aes_call, uses_aes_algorithm,
  context_kind, next_context, contexts_from, build_contexts, context_of, context_match,
  context_method, evaluate_aes,
}
use cryptiq.Engine.Rules.Marker.{resolved_callee}
use cryptiq.Engine.Rules.Contexts.{AllBuild, build_contexts-AllBuild}
use cryptiq.Engine.Rules.Shadowed.{evaluate_aes-hidden, Hides}
use cryptiq.Engine.Resolution.Functions.{DefinesFunction}
use cryptiq.Engine.Resolution.Annotations.{IsAnnotated}
use cryptiq.Engine.Rules.Receivers.{IsScope, receiver_match-annotated}
use cryptiq.Engine.Rules.Runner.{evaluate, CryptoRule, gather, evaluate_files}
use cryptiq.Engine.Rules.Origin.{IsObserved, evaluate_files-IsObserved}

program : Unit {0}
unfolding contains strip_prefix has_char split join format partition lookup put resolve
    attribute_chain KeyKind-discrete resolve_chain resolve_dotted member_of member_of_any
    is_class_body member get_named class_kind lookup_along size before_last_dot scopes_from
    scope_chain lookup_binding is_identifier is_letter all_word collect_scopes collect_annotations
    collect_functions collect_function collect_stores add bind_names is_load annotated find_kinds
    bind_kinds merged merge constructed established_kind derived_from derived aliased bound_name
    candidates merge_direct inferred merge_inferred bind_established collect_assignments build_index
    make_match api_name member_match imported_api receiver_match receiver_api evaluate_key_pair
    member_among aes_match construction is_aes_call any_aes_call uses_aes_algorithm context_kind
    next_context contexts_from build_contexts context_of context_match context_method evaluate_aes
    resolved_callee Has
program = tt

abbrev no_location : SourceLocation
no_location = record { start_line = 1; end_line = 1; start_column = 0; end_column = 0 }

-- `name = rsa.generate_private_key()` in a scope, and `name = other`.
abbrev generated : Scope → String → Assignment
generated scope name = record {
  targets = name ∷ [];
  value_expression = some "rsa.generate_private_key()";
  value_call = some "rsa.generate_private_key";
  enclosing_function = scope;
  enclosing_class = none;
  value = none;
}

abbrev copied : Scope → String → String → Assignment
copied scope name other = record {
  targets = name ∷ [];
  value_expression = some other;
  value_call = none;
  enclosing_function = scope;
  enclosing_class = none;
  value = none;
}

abbrev called : Scope → String → String → Option Expr → Assignment
called scope name callee value = record {
  targets = name ∷ [];
  value_expression = some "_()";
  value_call = some callee;
  enclosing_function = scope;
  enclosing_class = none;
  value = value;
}

-- `receiver.method(…)` in a scope.
abbrev method_call : Scope → String → String → Call
method_call scope receiver method = record {
  chain = some (receiver ∷ method ∷ []);
  attribute = some method;
  path = "app.py";
  location = no_location;
  enclosing_function = scope;
  enclosing_class = none;
  arguments = [];
}

abbrev file_with : List Assignment → List Call → ParsedFile
file_with assignments calls = record {
  path = "app.py";
  module_path = some "app";
  import_index =
      ("rsa", "cryptography.hazmat.primitives.asymmetric.rsa")
      ∷ ("Cipher", "cryptography.hazmat.primitives.ciphers.Cipher")
      ∷ ("AES", "cryptography.hazmat.primitives.ciphers.algorithms.AES")
      ∷ [];
  symbols = [];
  calls = calls;
  names = [];
  assignments = assignments;
  annotations = [];
  parsed = true;
}

abbrev key_file : ParsedFile
key_file = file_with (generated none "key" ∷ []) (method_call (some "f") "key" "sign" ∷ [])

abbrev signed : RuleMatch
signed =
    make_match "1" rsa_rule (method_call (some "f") "key" "sign") "RSAPrivateKey.sign"
      CryptoOperation.sign MatchConfidence.medium EvidenceBasis.constructor_assignment

-- `def f(key: RSAPrivateKey): key = rsa.generate_private_key(); key.sign()`
abbrev annotated_file : ParsedFile
annotated_file = record key_file {
  import_index =
      ("RSAPrivateKey", "cryptography.hazmat.primitives.asymmetric.rsa.RSAPrivateKey")
      ∷ key_file.import_index;
  symbols =
      record {
        kind = SymbolKind.function;
        name = "f";
        qualified_name = "f";
        parameters = some ("key" ∷ []);
      }
      ∷ [];
  assignments = generated (some "f") "key" ∷ [];
  annotations =
      record {
        target = some "key";
        annotation_chain = some ("RSAPrivateKey" ∷ []);
        enclosing_function = some "f";
        enclosing_class = none;
      }
      ∷ [];
}

receiver_match-annotated_example :
    receiver_match "1" rsa_rule annotated_file (method_call (some "f") "key" "sign") "key" "sign"
    ≡ (if KeyKind.private_key == KeyKind.private_key
        then some (
            make_match "1" rsa_rule
              (method_call (some "f") "key" "sign")
              (format ("RSAPrivateKey" ∷ "." ∷ "sign" ∷ []))
              CryptoOperation.sign
              MatchConfidence.high
              EvidenceBasis.class_annotation)
        else none)
unfolding program IsScope DefinesFunction IsAnnotated Each
receiver_match-annotated_example =
    receiver_match-annotated "1" rsa_rule annotated_file (method_call (some "f") "key" "sign") "key"
      "sign" "RSAPrivateKey" CryptoOperation.sign KeyKind.private_key KeyKind.private_key
      (refl, inl (refl, inl refl)) (inl refl, (inr refl, tt)) refl refl

evaluate_files-IsObserved_example :
    let report = evaluate_files "1" (CryptoRule.key_pair rsa_rule ∷ []) (key_file ∷ []) in
    Has report (λ m. m ≡ signed)
    × (Each report (IsObserved "1" (CryptoRule.key_pair rsa_rule ∷ []) (key_file ∷ []))
        × Perm report (gather "1" (CryptoRule.key_pair rsa_rule ∷ []) (key_file ∷ [])))
unfolding program IsObserved Has evaluate
evaluate_files-IsObserved_example =
    evaluate_files-IsObserved "1" (CryptoRule.key_pair rsa_rule ∷ []) (key_file ∷ []) signed
      (inl (refl, inl (inl refl)))

-- The index of a file with a method `C.f` that holds a key of the module.
abbrev index : BindingIndex
index = record {
  bindings =
      (
        (none, "key"),
        record {
          kind = KeyKind.private_key;
          basis = EvidenceBasis.constructor_assignment;
          confidence = MatchConfidence.medium;
        },
      )
      ∷ [];
  locally_bound = (some "C.f", "other" ∷ []) ∷ [];
  function_scopes = "C.f" ∷ [];
}

-- The class is no scope of the chain.
chain : scope_chain index (some "C.f") ≡ some "C.f" ∷ none ∷ []
unfolding program
chain = refl

scope_chain-step_example :
    scope_chain index (some "C.f")
    ≡ extended index.function_scopes "C.f" (scope_chain index (before_last_dot "C.f"))
scope_chain-step_example = scope_chain-step index "C.f"

abbrev key_binding : Binding
key_binding = record {
  kind = KeyKind.private_key;
  basis = EvidenceBasis.constructor_assignment;
  confidence = MatchConfidence.medium;
}

lookup_binding-IsInnermost_example :
    IsInnermost index "key" key_binding (scope_chain index (some "C.f"))
unfolding program
lookup_binding-IsInnermost_example =
    lookup_binding-IsInnermost index (some "C.f") "key" key_binding refl

abbrev made : Established
made = record { kind = KeyKind.private_key; basis = EvidenceBasis.constructor_assignment }

abbrev twice : List (Assignment × BindingKey)
twice = (generated none "key", (none, "key")) ∷ (generated none "key", (none, "key")) ∷ []

merge_direct-AllConstruct_example :
    AllConstruct key_file rsa_spec (none, "key") KeyKind.private_key twice
unfolding program
merge_direct-AllConstruct_example =
    merge_direct-AllConstruct key_file rsa_spec twice (none, "key") made refl

-- `x = load(); x = key`
abbrev reassigned : ParsedFile
reassigned =
    file_with (generated none "key" ∷ called none "x" "load" none ∷ copied none "x" "key" ∷ []) []

abbrev copy : Established
copy = record { kind = KeyKind.private_key; basis = EvidenceBasis.established_alias }

-- The name is bound in the end, although one of its assignments establishes nothing.
x-Bound :
    lookup_binding (build_index reassigned rsa_spec) none "x"
    ≡ some (record {
      kind = KeyKind.private_key;
      basis = EvidenceBasis.established_alias;
      confidence = MatchConfidence.medium;
    })
unfolding program
x-Bound = refl

-- In the other order it is not.
x-Unbound :
    lookup_binding
      (build_index
        (file_with
          (generated none "key" ∷ copied none "x" "key" ∷ called none "x" "load" none ∷ [])
          [])
        rsa_spec)
      none
      "x"
    ≡ none
unfolding program
x-Unbound = refl

abbrev bare : BindingIndex
bare = record { bindings = []; locally_bound = []; function_scopes = [] }

abbrev direct : List (BindingKey × Option Established)
direct = ((none, "key"), some made) ∷ ((none, "x"), none) ∷ []

merge_inferred-revives_example :
    lookup
      (none, "x")
      (merge_inferred reassigned rsa_spec bare direct
        ([] ++ (copied none "x" "key", (none, "x")) ∷ [])
        direct)
    ≡ some (some copy)
unfolding program
merge_inferred-revives_example =
    merge_inferred-revives reassigned rsa_spec bare direct direct [] (copied none "x" "key")
      (none, "x") copy refl refl refl

-- `Cipher(AES(key))`
abbrev cipher_value : Expr
cipher_value =
    Expr.call (Expr.name "Cipher")
      (Exprs.cons (Expr.call (Expr.name "AES") (Exprs.cons (Expr.name "key") Exprs.nil)) Exprs.nil)

-- A module's cipher `c`, and a function with another `c`, of which it calls `encryptor`.
abbrev hidden : ParsedFile
hidden =
    file_with
      (called none "c" "Cipher" (some cipher_value) ∷ called (some "f") "c" "load" none ∷ []) []

abbrev encryptor_call : Call
encryptor_call = method_call (some "f") "c" "encryptor"

build_contexts-AllBuild_example :
    AllBuild hidden (none, "c") KeyKind.cipher hidden.assignments
    × Has hidden.assignments (λ assignment.
      (bound_name assignment assignment.targets ≡ some (none, "c"))
      × (context_kind hidden assignment ≡ some KeyKind.cipher))
unfolding program
build_contexts-AllBuild_example = build_contexts-AllBuild hidden (none, "c") KeyKind.cipher refl

hides : Has hidden.assignments (Hides hidden (some "f", "c"))
unfolding program
hides = inr (inl (refl, refl))

evaluate_aes-hidden_example :
    evaluate_aes "1" hidden (some encryptor_call)
    ≡ some (
        aes_match "1" encryptor_call "Cipher.encryptor" CryptoOperation.encrypt
          MatchConfidence.medium EvidenceBasis.constructor_assignment)
unfolding program
evaluate_aes-hidden_example =
    evaluate_aes-hidden "1" hidden encryptor_call "f" "c" hides refl refl refl refl
