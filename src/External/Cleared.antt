-- ===== src/External/Cleared.antt =====
-- The resilience directory of demos/resilience-demo/lib/external.py before and after a run.
use wallaroo.Base.{Bool, true, false, Option, none, some, [], ◌∷◌, ◌≡◌, refl, ◌∙◌, ok-injective}
use wallaroo.Base.{if◌then◌else◌, All, ok}
use wallaroo.Base.Text.{Text}
use wallaroo.Base.Dict.{lookup, insert, same, same_refl, text_eq, lookup-insert}
use wallaroo.External.Files.{
  Entry, Entries, System, Rights, exists, create_resilience_dir, removed, remove_files, clear,
  setup_resilience_path,
}
use mathlib.Core.Path.{subst}

module _ (rights : Rights) (dir : Text) where
  abbrev pub Stays : Text × Entry → Type 0
  Stays (name, e) = removed rights dir name e ≡ false

  -- The directory holds what cannot be removed, and the other directories are as they were.
  pub record IsCleared (s s' : System) : Type 0 where
    pub left : Entries
    pub left_of : lookup dir s' ≡ some left
    pub stays : All Stays left
    pub others : (d : Text) → same dir d ≡ false → lookup d s' ≡ lookup d s

  remove_files-Stays : (es : Entries) → All Stays (remove_files rights dir es)
  remove_files-Stays [] = tt
  remove_files-Stays ((name, e) ∷ es) = go (remove_files-Stays es) (removed rights dir name e) refl
    where
      go :
          All Stays (remove_files rights dir es)
          → (b : Bool) → removed rights dir name e ≡ b
          → All Stays
              (if b then remove_files rights dir es else (name, e) ∷ remove_files rights dir es)
      go rest true h = rest
      go rest false h = (h, rest)

  clear-IsCleared :
      (s s' : System) (o : Option Entries) → clear rights dir s o ≡ ok s' → IsCleared s s'
  clear-IsCleared s s' none e = cc
  clear-IsCleared s s' (some es) e = subst (IsCleared s) (ok-injective e) (record {
    left = remove_files rights dir es;
    left_of = rw (lookup-insert dir dir (remove_files rights dir es) s, same_refl dir) refl;
    stays = remove_files-Stays es;
    others = λ d n. rw (lookup-insert d dir (remove_files rights dir es) s, n) refl;
  })

  -- Where `setup_resilience_path` returns, the directory is there and holds only what the operating
  -- system does not let it remove, and no other directory has changed.
  pub setup_resilience_path-IsCleared :
      (s s' : System) → setup_resilience_path rights dir s ≡ ok s' → IsCleared s s'
  unfolding setup_resilience_path create_resilience_dir
  setup_resilience_path-IsCleared s s' e = go (exists dir s) e
    where
      made : Bool → System
      made there = if there then s else create_resilience_dir rights dir s

      others_of :
          (there make : Bool)
          → (d : Text) → same dir d ≡ false
          → lookup d (if there then s else (if make then insert dir [] s else s)) ≡ lookup d s
      others_of true make d n = refl
      others_of false true d n = rw (lookup-insert d dir [] s, n) refl
      others_of false false d n = refl

      go :
          (there : Bool)
          → clear rights dir (made there) (lookup dir (made there)) ≡ ok s'
          → IsCleared s s'
      go there e =
          let c = clear-IsCleared (made there) s' (lookup dir (made there)) e in
          record {
            left = c.left;
            left_of = c.left_of;
            stays = c.stays;
            others = λ d n. c.others d n ∙ others_of there (rights.may_make dir) d n;
          }
