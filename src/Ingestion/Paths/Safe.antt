-- ===== src/Ingestion/Paths/Safe.antt =====
-- What safe_relative_path of cryptiq/app/engine/ingestion/archive.py lets through.
use Prim.Native.Char.{Char, code}
use cryptiq.Shared.{
  ℕ, String, false, List, [], ◌∷◌, ◌≡◌, ◌≢◌, refl, sym, subst, arith, inl, inr, Bool-cases,
  string_eq, nat_eq, ◌==◌, contains,
}
use cryptiq.Shared.Each.{Each, Each-weaken}
use cryptiq.Shared.Text.{has_char}
use cryptiq.Shared.Parts.{split, push_front}
use cryptiq.Ingestion.Outcome.{ok}
use cryptiq.Ingestion.Paths.{
  visible, root_of, pure_parts, is_empty, safe_relative_path, slash, parent,
}

push_front-Each :
    (sep : ℕ) (c : Char) (parts : List String)
    → (code c == sep) ≡ false
    → Each parts (λ p. has_char sep p ≡ false)
    → Each (push_front c parts) (λ p. has_char sep p ≡ false)
unfolding has_char Each
push_front-Each sep c [] h e = (rw h refl, tt)
push_front-Each sep c (part ∷ parts) h (e, es) = (rw h e, es)

-- No part of a text has the separator in it.
split-Each : (sep : ℕ) (text : String) → Each (split sep text) (λ p. has_char sep p ≡ false)
unfolding split has_char Each
split-Each sep String.[] = (refl, tt)
split-Each sep (String.◌∷◌ c text) = elim (Bool-cases (code c == sep)) [
  | inl e ↦ rw e (refl, split-Each sep text)
  | inr e ↦ rw e (push_front-Each sep c (split sep text) e (split-Each sep text))
]

IsVisible : String → Type 0
IsVisible part = (part ≢ "") × (part ≢ ".") × (has_char slash part ≡ false)

visible-Each :
    (parts : List String)
    → Each parts (λ p. has_char slash p ≡ false)
    → Each (visible parts) IsVisible
unfolding visible Each IsVisible
visible-Each [] e = tt
visible-Each (part ∷ parts) (e, es) =
    ground (arith, visible-Each parts es, string_eq.beq_iff part "", string_eq.beq_iff part ".")

-- A name of a file or directory below another: it cannot lead to another place.
unfoldable pub IsSafePart : String → Type 0
IsSafePart part = (part ≢ "") × (part ≢ ".") × (part ≢ "..") × (has_char slash part ≡ false)

unfoldable pub IsSafePath : List String → Type 0
IsSafePath parts = (parts ≢ []) × Each parts IsSafePart

no_parent-Each :
    (parts : List String)
    → contains parts ".." ≡ false
    → Each parts IsVisible
    → Each parts IsSafePart
unfolding contains Each IsVisible IsSafePart
no_parent-Each [] h e = tt
no_parent-Each (part ∷ parts) h (e, es) =
    ground (arith, no_parent-Each parts, string_eq.beq_iff part "..")

-- What the tests of the code leave of a name.
Passed : String → List String → Type 0
Passed member parts =
    (parts ≡ visible (pure_parts member))
    × (root_of member ≡ [])
    × (contains parts ".." ≡ false)
    × (is_empty parts ≡ false)

safe_relative_path-Passed :
    (member : String) (parts : List String)
    → safe_relative_path member ≡ ok parts
    → Passed member parts
unfolding safe_relative_path Passed
safe_relative_path-Passed member parts h = ground arith

relative-visible :
    (member : String) → root_of member ≡ [] → Each (visible (pure_parts member)) IsVisible
unfolding pure_parts IsVisible
relative-visible member h = rw h (
    visible-Each (visible (split slash member)) (
      Each-weaken _ IsVisible (λ p. has_char slash p ≡ false) (λ p v. v.2)
        (visible-Each (split slash member) (split-Each slash member))))

-- A name that is let through leads to a place below the directory that it is written under.
pub safe_relative_path-IsSafePath :
    (member : String) (parts : List String)
    → safe_relative_path member ≡ ok parts
    → IsSafePath parts
unfolding Passed IsSafePath
safe_relative_path-IsSafePath member parts h =
    let (whole, root, below, some_part) = safe_relative_path-Passed member parts h in
    (
      ground (arith, some_part),
      no_parent-Each parts below
          (subst (λ ps. Each ps IsVisible) (sym whole) (relative-visible member root)),
    )

pub parent-Each : (path : List String) → Each path IsSafePart → Each (parent path) IsSafePart
unfolding parent Each
parent-Each [] h = tt
parent-Each (part ∷ []) h = tt
parent-Each (part ∷ next ∷ path) (p, h) = (p, parent-Each (next ∷ path) h)
