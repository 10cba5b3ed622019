-- ===== src/Engine/Rules/Origin.antt =====
-- Where the observations of a run come from (cryptiq/app/engine/rules/runner.py).
use cryptiq.Shared.{
  String, true, Option, none, some, List, [], ◌∷◌, ◌≡◌, ◌⊎◌, refl, arith, inl, inr, if◌then◌else◌,
  Bool-cases, subst, sym,
}
use mathlib.Core.List.{Perm}
use cryptiq.Shared.Sort.{sort_by, sort_by-perm}
use cryptiq.Shared.Each.{
  Each, Has, Each-append, Each-sort_by, Each-weaken, Has-left, Has-right, Has-sort_by,
}
use cryptiq.Engine.Parsed.{ParsedFile, Call}
use cryptiq.Engine.Match.{RuleMatch}
use cryptiq.Engine.Rules.Runner.{
  CryptoRule, evaluate, compare_matches, matches_of_call, matches_of_calls, evaluate_file, gather,
  evaluate_files,
}

abbrev OfCall : String → List CryptoRule → ParsedFile → RuleMatch → Call → Type 0
OfCall version rules file found call =
    Has rules (λ rule. evaluate version rule file (some call) ≡ some found)

abbrev OfCalls : String → List CryptoRule → ParsedFile → List Call → RuleMatch → Type 0
OfCalls version rules file calls found = Has calls (λ call. OfCall version rules file found call)

Each-found :
    (outcome : Option RuleMatch) (rest : List RuleMatch) (P : RuleMatch → Type 0)
    → ((found : RuleMatch) → outcome ≡ some found → P found)
    → Each rest P
    → Each (elim outcome [ none ↦ rest | some found ↦ found ∷ rest ]) P
unfolding Each
Each-found none rest P h k = k
Each-found (some found) rest P h k = (h found refl, k)

matches_of_call-Each :
    (version : String) (rules : List CryptoRule) (file : ParsedFile) (call : Call)
    → Each (matches_of_call version rules file call) (λ found. OfCall version rules file found call)
unfolding matches_of_call Each Has
matches_of_call-Each version [] file call = tt
matches_of_call-Each version (rule ∷ rules) file call =
    Each-found (evaluate version rule file (some call)) (matches_of_call version rules file call)
      (λ found. OfCall version (rule ∷ rules) file found call) (λ found e. inl e)
      (Each-weaken (matches_of_call version rules file call)
        (λ found. OfCall version rules file found call)
        (λ found. OfCall version (rule ∷ rules) file found call) (λ found h. inr h)
        (matches_of_call-Each version rules file call))

matches_of_calls-Each :
    (version : String) (rules : List CryptoRule) (file : ParsedFile) (calls : List Call)
    → Each (matches_of_calls version rules file calls) (OfCalls version rules file calls)
unfolding matches_of_calls Each Has
matches_of_calls-Each version rules file [] = tt
matches_of_calls-Each version rules file (call ∷ calls) =
    Each-append (matches_of_call version rules file call)
      (matches_of_calls version rules file calls) (OfCalls version rules file (call ∷ calls))
      (Each-weaken (matches_of_call version rules file call)
        (λ found. OfCall version rules file found call) (OfCalls version rules file (call ∷ calls))
        (λ found h. inl h) (matches_of_call-Each version rules file call))
      (Each-weaken (matches_of_calls version rules file calls) (OfCalls version rules file calls)
        (OfCalls version rules file (call ∷ calls)) (λ found h. inr h)
        (matches_of_calls-Each version rules file calls))

abbrev OfFile : String → List CryptoRule → RuleMatch → ParsedFile → Type 0
OfFile version rules found file = (file.parsed ≡ true) × OfCalls version rules file file.calls found

evaluate_file-Each :
    (version : String) (rules : List CryptoRule) (file : ParsedFile)
    → Each (evaluate_file version rules file) (λ found. OfFile version rules found file)
unfolding Each evaluate_file
evaluate_file-Each version rules file = elim (Bool-cases file.parsed) [
  | inl e ↦
      subst
        (λ b.
          Each
            (if b
              then sort_by compare_matches (matches_of_calls version rules file file.calls)
              else [])
            (λ found. OfFile version rules found file))
        (sym e)
        (Each-sort_by compare_matches (matches_of_calls version rules file file.calls)
          (λ found. OfFile version rules found file)
          (Each-weaken (matches_of_calls version rules file file.calls)
            (OfCalls version rules file file.calls) (λ found. OfFile version rules found file)
            (λ found h. (e, h)) (matches_of_calls-Each version rules file file.calls)))
  | inr e ↦
      subst
        (λ b.
          Each
            (if b
              then sort_by compare_matches (matches_of_calls version rules file file.calls)
              else [])
            (λ found. OfFile version rules found file))
        (sym e) tt
]

-- The match is what a rule of the list says of a call of a file of the list, and the file parsed.
unfoldable pub IsObserved : String → List CryptoRule → List ParsedFile → RuleMatch → Type 0
IsObserved version rules files found = Has files (OfFile version rules found)

gather-Each :
    (version : String) (rules : List CryptoRule) (files : List ParsedFile)
    → Each (gather version rules files) (IsObserved version rules files)
unfolding gather Each Has IsObserved
gather-Each version rules [] = tt
gather-Each version rules (file ∷ files) =
    Each-append (evaluate_file version rules file) (gather version rules files)
      (IsObserved version rules (file ∷ files))
      (Each-weaken (evaluate_file version rules file) (λ found. OfFile version rules found file)
        (IsObserved version rules (file ∷ files)) (λ found h. inl h)
        (evaluate_file-Each version rules file))
      (Each-weaken (gather version rules files) (IsObserved version rules files)
        (IsObserved version rules (file ∷ files)) (λ found h. inr h)
        (gather-Each version rules files))

cons-Has :
    (found : RuleMatch) (outcome : Option RuleMatch) (rest : List RuleMatch)
    → (outcome ≡ some found) ⊎ Has rest (λ m. m ≡ found)
    → Has (elim outcome [ none ↦ rest | some m ↦ m ∷ rest ]) (λ m. m ≡ found)
unfolding Has
cons-Has found none rest (inl e) = absurd (ground (arith, e))
cons-Has found none rest (inr h) = h
cons-Has found (some m) rest (inl e) = inl cc
cons-Has found (some m) rest (inr h) = inr h

matches_of_call-Has :
    (version : String) (rules : List CryptoRule) (file : ParsedFile) (call : Call)
    (found : RuleMatch)
    → OfCall version rules file found call
    → Has (matches_of_call version rules file call) (λ m. m ≡ found)
unfolding matches_of_call Has
matches_of_call-Has version [] file call found h = absurd h
matches_of_call-Has version (rule ∷ rules) file call found (inl e) =
    cons-Has found (evaluate version rule file (some call))
      (matches_of_call version rules file call) (inl e)
matches_of_call-Has version (rule ∷ rules) file call found (inr h) =
    cons-Has found (evaluate version rule file (some call))
      (matches_of_call version rules file call)
      (inr (matches_of_call-Has version rules file call found h))

module _ (version : String) (rules : List CryptoRule) (found : RuleMatch) where
  matches_of_calls-Has :
      (file : ParsedFile) (calls : List Call)
      → OfCalls version rules file calls found
      → Has (matches_of_calls version rules file calls) (λ m. m ≡ found)
  unfolding matches_of_calls Has
  matches_of_calls-Has file [] h = absurd h
  matches_of_calls-Has file (call ∷ calls) (inl h) =
      Has-left (matches_of_call version rules file call) (matches_of_calls version rules file calls)
        (λ m. m ≡ found) (matches_of_call-Has version rules file call found h)
  matches_of_calls-Has file (call ∷ calls) (inr h) =
      Has-right (matches_of_call version rules file call)
        (matches_of_calls version rules file calls) (λ m. m ≡ found)
        (matches_of_calls-Has file calls h)

  evaluate_file-Has :
      (file : ParsedFile)
      → OfFile version rules found file
      → Has (evaluate_file version rules file) (λ m. m ≡ found)
  unfolding evaluate_file
  evaluate_file-Has file (e, h) = simp e (
      Has-sort_by compare_matches (matches_of_calls version rules file file.calls) (λ m. m ≡ found)
        (matches_of_calls-Has file file.calls h))

  gather-Has :
      (files : List ParsedFile)
      → IsObserved version rules files found
      → Has (gather version rules files) (λ m. m ≡ found)
  unfolding gather Has IsObserved
  gather-Has [] h = absurd h
  gather-Has (file ∷ files) (inl h) =
      Has-left (evaluate_file version rules file) (gather version rules files) (λ m. m ≡ found)
        (evaluate_file-Has file h)
  gather-Has (file ∷ files) (inr h) =
      Has-right (evaluate_file version rules file) (gather version rules files) (λ m. m ≡ found)
        (gather-Has files h)

pub evaluate_files-IsObserved :
    (version : String) (rules : List CryptoRule) (files : List ParsedFile) (found : RuleMatch)
    → IsObserved version rules files found
    → Has (evaluate_files version rules files) (λ m. m ≡ found)
      × (Each (evaluate_files version rules files) (IsObserved version rules files)
          × Perm (evaluate_files version rules files) (gather version rules files))
unfolding evaluate_files
evaluate_files-IsObserved version rules files found h = (
  Has-sort_by compare_matches (gather version rules files) (λ m. m ≡ found)
      (gather-Has version rules found files h),
  (
    Each-sort_by compare_matches (gather version rules files) (IsObserved version rules files)
        (gather-Each version rules files),
    sort_by-perm compare_matches (gather version rules files),
  ),
)
