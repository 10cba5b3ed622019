-- ===== src/Ingestion/Extract/Directories.antt =====
-- The directories that an extraction makes are below the destination too.
use cryptiq.Shared.{
  String, Option, none, some, List, [], ◌∷◌, ◌++◌, ◌≡◌, subst, arith, Bool-cases, Option-cases, inl,
  inr, list_eq, string_eq, contains,
}
use cryptiq.Shared.Each.{Each, Each-append}
use cryptiq.Shared.Dict.{lookup}
use cryptiq.Ingestion.Outcome.{ok}
use cryptiq.Ingestion.Paths.Safe.{IsSafePart, IsSafePath}
use cryptiq.Ingestion.Disk.{Disk, add_dir, mkdir_below, mkdir}
use cryptiq.Ingestion.Disk.Laws.{AreAll}
use cryptiq.Ingestion.Extract.{below_prefix}

add_dir-AreAll :
    (path : List String) (disk : Disk)
    → IsSafePath path
    → AreAll IsSafePath disk
    → AreAll IsSafePath (add_dir path disk)
unfolding AreAll Each
add_dir-AreAll path disk p (ds, fs) = elim (Bool-cases (contains disk.dirs path)) [
  | inl e ↦ rw e (ds, fs)
  | inr e ↦ rw e ((p, ds), fs)
]

snoc-IsSafePath :
    (above : List String) (part : String)
    → Each above IsSafePart
    → IsSafePart part
    → IsSafePath (above ++ part ∷ [])
unfolding IsSafePath Each
snoc-IsSafePath [] part a p = (λ e. cc, (p, tt))
snoc-IsSafePath (top ∷ above) part a p =
    (λ e. cc, (a.0, Each-append above (part ∷ []) IsSafePart a.1 (p, tt)))

mkdir_below-AreAll :
    (above parts : List String) (disk disk' : Disk)
    → Each above IsSafePart
    → Each parts IsSafePart
    → AreAll IsSafePath disk
    → mkdir_below above parts disk ≡ some disk'
    → AreAll IsSafePath disk'
unfolding mkdir_below Each
mkdir_below-AreAll above [] disk disk' a ps all h = subst (AreAll IsSafePath) (some-injective h) all
  where
    some-injective : {x y : Disk} → some x ≡ some y → x ≡ y
    some-injective e = cc
mkdir_below-AreAll above (part ∷ parts) disk disk' a (p, ps) all h =
    let here = above ++ part ∷ [] in
    elim (Option-cases (lookup here disk.files)) [
      | inl e ↦
          mkdir_below-AreAll here parts (add_dir here disk) disk'
            (Each-append above (part ∷ []) IsSafePart a (p, tt)) ps
            (add_dir-AreAll here disk (snoc-IsSafePath above part a p) all) (ground (arith, e, h))
      | inr (bytes, e) ↦ absurd (ground (arith, e, h))
    ]

-- The directories on the way to a safe path have safe paths.
pub mkdir-AreAll :
    (path : List String) (disk disk' : Disk)
    → Each path IsSafePart
    → AreAll IsSafePath disk
    → mkdir path disk ≡ some disk'
    → AreAll IsSafePath disk'
unfolding mkdir Each
mkdir-AreAll path disk disk' p all h = mkdir_below-AreAll [] path disk disk' tt p all h

cons-IsSafePath :
    (part : String) (parts : List String)
    → Each (part ∷ parts) IsSafePart
    → IsSafePath (part ∷ parts)
unfolding IsSafePath
cons-IsSafePath part parts p = (λ e. cc, p)

-- What is left of a safe path below the top-level directory is one, if anything is.
pub below_prefix-IsSafePath :
    (prefix : Option String) (path place : List String)
    → IsSafePath path
    → below_prefix prefix path ≡ ok (some place)
    → IsSafePath place
unfolding below_prefix IsSafePath Each
below_prefix-IsSafePath none path place p h = subst IsSafePath (ground (arith, h)) p
below_prefix-IsSafePath (some prefix) [] place p h = cc
below_prefix-IsSafePath (some prefix) (top ∷ []) place p h = absurd (ground (arith, h))
below_prefix-IsSafePath (some prefix) (top ∷ part ∷ parts) place p h =
    subst IsSafePath (ground (arith, h)) (cons-IsSafePath part parts p.1.1)
