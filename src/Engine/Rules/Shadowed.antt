-- ===== src/Engine/Rules/Shadowed.antt =====
-- A local name that hides a module's AES context (cryptiq/app/engine/rules/aes.py).
use cryptiq.Shared.{
  String, Option, none, some, List, [], ◌∷◌, ◌≡◌, refl, string_eq, option_eq, pair_eq, Option-cases,
  inl, inr, sym, ◌∙◌, ap, subst,
}
use cryptiq.Shared.Dict.{lookup}
use cryptiq.Shared.Each.{Has}
use cryptiq.Shared.Parts.{format}
use cryptiq.Engine.Parsed.{ParsedFile, Assignment, Call}
use cryptiq.Engine.Match.{
  KeyKind, kind_eq, KeyKind-discrete, CryptoOperation, MatchConfidence, EvidenceBasis,
}
use cryptiq.Engine.Resolution.{BindingKey}
use cryptiq.Engine.Resolution.Assigned.{bound_name}
use cryptiq.Engine.Rules.Aes.{
  context_kind, build_contexts, context_of, found_kind, context_match, context_method, construction,
  evaluate_aes, aes_match,
}
use cryptiq.Engine.Rules.Contexts.{AllBuild, build_contexts-AllBuild, context_of-module}

-- The assignment gives the name something that is no AES context.
abbrev pub Hides : ParsedFile → BindingKey → Assignment → Type 0
Hides file key assignment =
    (bound_name assignment assignment.targets ≡ some key) × (context_kind file assignment ≡ none)

hidden-AllBuild :
    (file : ParsedFile) (key : BindingKey) (kind : KeyKind) (assignments : List Assignment)
    → Has assignments (Hides file key)
    → AllBuild file key kind assignments
    → ⊥
unfolding Has AllBuild
hidden-AllBuild file key kind [] h k = h
hidden-AllBuild file key kind (assignment ∷ rest) (inl (b, c)) (k, l) = none≢kind (sym c ∙ k b)
  where
    none≢kind : none ≡ some kind → ⊥
    none≢kind e = cc
hidden-AllBuild file key kind (assignment ∷ rest) (inr h) (k, l) =
    hidden-AllBuild file key kind rest h l

hidden-none :
    (file : ParsedFile) (key : BindingKey)
    → Has file.assignments (Hides file key)
    → found_kind (lookup key (build_contexts file)) ≡ none
hidden-none file key h = elim (Option-cases (found_kind (lookup key (build_contexts file)))) [
  | inl e ↦ e
  | inr (kind, e) ↦ absurd (
      hidden-AllBuild file key kind file.assignments h
        (build_contexts-AllBuild file key kind (found_some _ kind e)).0)
]
  where
    found_some :
        (o : Option (Option KeyKind)) (kind : KeyKind)
        → found_kind o ≡ some kind
        → o ≡ some (some kind)
    found_some none kind e = cc
    found_some (some o) kind e = ap some e

context_method-at :
    (version : String) (file : ParsedFile) (call : Call) (chain : Option (List String))
    (receiver method : String) (kind : KeyKind)
    → chain ≡ some (receiver ∷ method ∷ [])
    → context_of file call.enclosing_function receiver ≡ some kind
    → context_method version file call chain ≡ context_match version call kind method
unfolding context_method
context_method-at version file call chain receiver method kind c at =
    subst (λ ch. context_method version file call ch ≡ context_match version call kind method)
      (sym c) (rw (at, context_method) refl)

encryptor-match :
    (version : String) (call : Call)
    → context_match version call KeyKind.cipher "encryptor"
      ≡ some (
          aes_match version call "Cipher.encryptor" CryptoOperation.encrypt MatchConfidence.medium
            EvidenceBasis.constructor_assignment)
unfolding context_match KeyKind-discrete lookup format
encryptor-match version call = refl

-- In a function that assigns `receiver` something other than an AES context, a call of
-- `receiver.encryptor` is reported as an AES encryption all the same, if the module has an AES cipher
-- of that name: the local assignment does not hide the module's name.
pub evaluate_aes-hidden :
    (version : String) (file : ParsedFile) (call : Call) (function receiver : String)
    → Has file.assignments (Hides file (some function, receiver))
    → lookup (none, receiver) (build_contexts file) ≡ some (some KeyKind.cipher)
    → call.enclosing_function ≡ some function
    → call.chain ≡ some (receiver ∷ "encryptor" ∷ [])
    → construction version file call ≡ none
    → evaluate_aes version file (some call)
      ≡ some (
          aes_match version call "Cipher.encryptor" CryptoOperation.encrypt MatchConfidence.medium
            EvidenceBasis.constructor_assignment)
unfolding evaluate_aes
evaluate_aes-hidden version file call function receiver h k f c n =
    let at =
      context_of-module file function receiver KeyKind.cipher
        (hidden-none file (some function, receiver) h) k in
    rw (n, evaluate_aes)
      (context_method-at version file call call.chain receiver "encryptor" KeyKind.cipher c
          (subst (λ scope. context_of file scope receiver ≡ some KeyKind.cipher) (sym f) at)
        ∙ encryptor-match version call)
