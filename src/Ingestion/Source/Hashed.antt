-- ===== src/Ingestion/Source/Hashed.antt =====
-- What is hashed of a snapshot by cryptiq/app/engine/ingestion/source.py tells its files apart.
use Prim.Native.Char.{Char, code}
use Prim.Native.String.{◌++◌}
use text.Mathlib.TextLemmas.{nil-append, cons-append}
use cryptiq.Shared.{
  String, true, false, List, [], ◌∷◌, ◌≡◌, refl, sym, ap, ◌∙◌, arith, nat_eq, ◌==◌, Bool-cases, inl,
  inr, ◌⊎◌, ◌≢◌, string_eq, beq_refl,
}
use cryptiq.Shared.Each.{Each}
use cryptiq.Shared.Text.{has_char}
use cryptiq.Shared.Parts.{partition}
use cryptiq.Ingestion.Source.{nul, newline, hashed_text, hashed_files, compute_content_hash}
use cryptiq.Ingestion.Disk.{Bytes}
use cryptiq.Ingestion.Discovery.{Entry}

-- A text is read up to its first separator.
partition-append :
    (sep : Char) (s t : String)
    → has_char (code sep) s ≡ false
    → partition (code sep) (s ++ String.◌∷◌ sep t) ≡ (s, t)
unfolding partition has_char
partition-append sep String.[] t h = rw nil-append (ground (arith, beq_refl (code sep)))
partition-append sep (String.◌∷◌ c s) t h =
    rw cons-append (ground (arith, partition-append sep s t))

has_char-append : (sep : Char) (s t : String) → has_char (code sep) (s ++ String.◌∷◌ sep t) ≡ true
unfolding has_char
has_char-append sep String.[] t = rw nil-append (ground (arith, beq_refl (code sep)))
has_char-append sep (String.◌∷◌ c s) t = rw cons-append (ground (arith, has_char-append sep s t))

nothing : has_char (code nul) "" ≡ false
unfolding has_char
nothing = refl

-- A path with no NUL in it, and a digest with no line end in it.
unfoldable pub IsHashed : String × String → Type 0
IsHashed (path, digest) =
    (has_char (code nul) path ≡ false) × (has_char (code newline) digest ≡ false)

first-eq :
    (sep : Char) (s s' t t' : String)
    → has_char (code sep) s ≡ false
    → has_char (code sep) s' ≡ false
    → s ++ String.◌∷◌ sep t ≡ s' ++ String.◌∷◌ sep t'
    → (s ≡ s') × (t ≡ t')
first-eq sep s s' t t' h h' e =
    let both =
      sym (partition-append sep s t h)
      ∙ ap (partition (code sep)) e
      ∙ partition-append sep s' t' h' in
    (ap (λ (p : String × String). p.0) both, ap (λ (p : String × String). p.1) both)

-- Two snapshots give the same text to be hashed only if they have the same paths with the same
-- digests, in the same order.
hashed_text-injective :
    (files others : List (String × String))
    → Each files IsHashed
    → Each others IsHashed
    → hashed_text files ≡ hashed_text others
    → files ≡ others
unfolding hashed_text Each IsHashed
hashed_text-injective [] [] h k e = refl
hashed_text-injective [] ((path, digest) ∷ others) h k e =
    cc (nothing, ap (has_char (code nul)) e, has_char-append nul path _)
hashed_text-injective ((path, digest) ∷ files) [] h k e =
    cc (nothing, ap (has_char (code nul)) e, has_char-append nul path _)
hashed_text-injective ((path, digest) ∷ files) ((path', digest') ∷ others) ((p, d), h) ((p', d'), k)
      e =
    let (same_path, rest) = first-eq nul path path' _ _ p p' e in
    let (same_digest, later) = first-eq newline digest digest' _ _ d d' rest in
    cc (same_path, same_digest, hashed_text-injective files others h k later)

-- Two texts that one digest does not tell apart.
unfoldable pub Collides : (String → String) → Type 0
Collides digest = (s : String) × (t : String) × (s ≢ t) × (digest s ≡ digest t)

-- Two snapshots have one content hash only if they have the same paths with the same digests, in the
-- same order, or the digest has a collision; the paths have no NUL in them, and the digests of the
-- files no line end.
pub compute_content_hash-tells :
    (text_digest : String → String) (file_digest : Bytes → String) (entries others : List Entry)
    → Each (hashed_files file_digest entries) IsHashed
    → Each (hashed_files file_digest others) IsHashed
    → compute_content_hash text_digest file_digest entries
      ≡ compute_content_hash text_digest file_digest others
    → (hashed_files file_digest entries ≡ hashed_files file_digest others) ⊎ Collides text_digest
unfolding compute_content_hash Collides
compute_content_hash-tells text_digest file_digest entries others h k e =
    let text = hashed_text (hashed_files file_digest entries) in
    let other = hashed_text (hashed_files file_digest others) in
    elim (Bool-cases (text == other)) [
      | inl same ↦ inl (
          hashed_text-injective (hashed_files file_digest entries) (hashed_files file_digest others)
            h k ((string_eq.beq_iff text other).0 same))
      | inr apart ↦ inr (text, other, λ same. cc (apart, (string_eq.beq_iff text other).1 same), e)
    ]
