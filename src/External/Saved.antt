-- ===== src/External/Saved.antt =====
-- What `save_logs_to_file` of demos/resilience-demo/lib/external.py leaves in its directory.
use mathlib.Core.Path.{subst}
use wallaroo.Base.{
  Bool, true, false, Option, none, some, List, [], ◌∷◌, ◌≡◌, refl, sym, ap, ◌∙◌, ◌⊎◌, inl, inr,
  Bool-cases,
}
use wallaroo.Base.{if◌then◌else◌, All, Result, ok, err, os_error}
use wallaroo.Base.Text.{Text}
use wallaroo.Base.Dict.{
  lookup, insert, erase, same, same_refl, same→≡, text_eq, lookup-insert, lookup-erase,
}
use wallaroo.External.Files.{
  Entry, file, Entries, System, Rights, exists, makedirs_if_not_exists, Logs, is_core, write,
  then_write, write_all, move, entry_of, move_all, core_names, cores_in, log_files, save_cores,
  save_in, save_logs_to_file,
}

-- The file of a name in a directory.
abbrev pub found : Text → Text → System → Option Entry
found dir name s = entry_of name (lookup dir s)

-- What the last of the files with that name holds, or else what was there.
abbrev pub last_written : Text → List (Text × Text) → Option Entry → Option Entry
last_written name [] before = before
last_written name ((n, content) ∷ files) before =
    last_written name files (if same n name then some (file content) else before)

-- Every file can be written and moved.
pub record IsWritable (rights : Rights) (dir : Text) : Type 0 where
  pub writes : (name : Text) → rights.may_write dir name ≡ true
  pub moves : (name : Text) → rights.may_move name ≡ true

found-insert :
    (dir name : Text) (es : Entries) (s : System)
    → found dir name (insert dir es s) ≡ lookup name es
found-insert dir name es s = rw (lookup-insert dir dir es s, same_refl dir) refl

module _ (rights : Rights) (dir : Text) (w : IsWritable rights dir) where
  -- The directory is there still, with the last content of each name.
  record Written (files : List (Text × Text)) (s : System) (r : Bool × System) : Type 0 where
    pub done : r.0 ≡ true
    pub there : exists dir r.1 ≡ true
    pub contents : (name : Text) → found dir name r.1 ≡ last_written name files (found dir name s)

  write_all-Written :
      (files : List (Text × Text)) (s : System) (es : Entries)
      → lookup dir s ≡ some es
      → Written files s (write_all rights dir files s)
  unfolding write_all
  write_all-Written [] s es h = record {
    done = refl;
    there = rw (h, exists) refl;
    contents = λ name. refl;
  }
  write_all-Written ((n, content) ∷ files) s es h =
      let s' = insert dir (insert n (file content) es) s in
      let e : write rights dir n content s ≡ (true, s') = rw (w.writes n, h) refl in
      let there : lookup dir s' ≡ some (insert n (file content) es) =
        rw (lookup-insert dir dir (insert n (file content) es) s, same_refl dir) refl in
      let rest = write_all-Written files s' (insert n (file content) es) there in
      subst (λ r. Written ((n, content) ∷ files) s (then_write r (write_all rights dir files)))
        (sym e)
        (record {
          done = rest.done;
          there = rest.there;
          contents = λ name.
              rest.contents name
              ∙ ap (last_written name files) (
                  found-insert dir name (insert n (file content) es) s
                  ∙ (lookup-insert name n (file content) es
                      ∙ ap (λ o. if same n name then some (file content) else entry_of name o)
                          (sym h)));
        })

-- Only core files are moved.
apart : (core name : Text) → is_core core ≡ true → is_core name ≡ false → same core name ≡ false
apart core name c n = elim (Bool-cases (same core name)) [
  | inl e ↦ let e' : core ≡ name = same→≡ core name e in let bad = sym c ∙ (ap is_core e' ∙ n) in cc
  | inr e ↦ e
]

module _ (rights : Rights) (cwd dir name : Text) (n : is_core name ≡ false) where
  found_after_erase :
      (core : Text) (s : System) (es : Entries)
      → is_core core ≡ true
      → lookup cwd s ≡ some es
      → found dir name (insert cwd (erase core es) s) ≡ found dir name s
  found_after_erase core s es c h =
      rw (lookup-insert dir cwd (erase core es) s) (go (same cwd dir) refl)
    where
      go :
          (b : Bool)
          → same cwd dir ≡ b
          → entry_of name (if b then some (erase core es) else lookup dir s)
            ≡ entry_of name (lookup dir s)
      go true e =
          rw (lookup-erase name core es, apart core name c n)
            (ap (entry_of name) (sym h ∙ ap (λ d. lookup d s) (same→≡ cwd dir e)))
      go false e = refl

  found_after_move :
      (core : Text) (s : System) (o : Option Entries) (e : Option Entry)
      → is_core core ≡ true
      → lookup cwd s ≡ o
      → found dir name (move cwd dir core s o e).1 ≡ found dir name s
  found_after_move core s none none c h = refl
  found_after_move core s none (some e) c h = refl
  found_after_move core s (some es) none c h = refl
  found_after_move core s (some es) (some e) c h =
      go (lookup dir (insert cwd (erase core es) s)) refl
    where
      moved : Option Entries → Bool × System
      moved o = elim o [
        | none ↦ (false, s)
        | some to ↦ (true, insert dir (insert core e to) (insert cwd (erase core es) s))
      ]

      go :
          (o : Option Entries)
          → lookup dir (insert cwd (erase core es) s) ≡ o
          → found dir name (moved o).1 ≡ found dir name s
      go none h' = refl
      go (some to) h' =
          found-insert dir name (insert core e to) (insert cwd (erase core es) s)
          ∙ (lookup-insert name core e to
              ∙ (ap (λ b. if b then some e else lookup name to) (apart core name c n)
                  ∙ (ap (entry_of name) (sym h') ∙ found_after_erase core s es c h)))

  found_after_moves :
      (cores : List Text) (s : System)
      → All (λ c. is_core c ≡ true) cores
      → found dir name (move_all rights cwd dir cores s).1 ≡ found dir name s
  unfolding move_all
  found_after_moves [] s a = refl
  found_after_moves (core ∷ cores) s (c, a) =
      first (λ s'. found_after_moves cores s' a) (rights.may_move core)
    where
      Again : Type 0
      Again =
          (s' : System) → found dir name (move_all rights cwd dir cores s').1 ≡ found dir name s'

      next :
          Again
          → (r : Bool × System) → found dir name r.1 ≡ found dir name s
          → found dir name (then_write r (move_all rights cwd dir cores)).1 ≡ found dir name s
      next again (false, s') e = e
      next again (true, s') e = again s' ∙ e

      first :
          Again
          → (b : Bool)
          → found dir name
              (then_write
                (if b
                  then move cwd dir core s (lookup cwd s) (entry_of core (lookup cwd s))
                  else (false, s))
                (move_all rights cwd dir cores)).1
            ≡ found dir name s
      first again true =
          next again _
            (found_after_move core s (lookup cwd s) (entry_of core (lookup cwd s)) c refl)
      first again false = refl

  core_names_are_cores : (es : Entries) → All (λ c. is_core c ≡ true) (core_names es)
  core_names_are_cores [] = tt
  core_names_are_cores ((x, e) ∷ es) = go (core_names_are_cores es) (is_core x) refl
    where
      go :
          All (λ c. is_core c ≡ true) (core_names es)
          → (b : Bool) → is_core x ≡ b
          → All (λ c. is_core c ≡ true) (if b then x ∷ core_names es else core_names es)
      go rest true h = (h, rest)
      go rest false h = rest

  cores_in_are_cores : (o : Option Entries) → All (λ c. is_core c ≡ true) (cores_in o)
  cores_in_are_cores none = tt
  cores_in_are_cores (some es) = core_names_are_cores es

module _ {D : Type 0} (date_text : D → Result Text) (rights : Rights) (cwd dir : Text) where
  saved_in :
      (logs : Logs D) (s s' : System) (es : Entries) (name : Text)
      → IsWritable rights dir
      → is_core name ≡ false
      → lookup dir s' ≡ some es
      → found dir name (save_in date_text rights cwd dir logs s (ok s'))
        ≡ last_written name (log_files date_text logs) (found dir name s')
  unfolding save_in save_cores
  saved_in logs s s' es name w n h =
      let r = write_all-Written rights dir w (log_files date_text logs) s' es h in
      go (write_all rights dir (log_files date_text logs) s') (r.contents name)
    where
      go :
          (r : Bool × System)
          → found dir name r.1 ≡ last_written name (log_files date_text logs) (found dir name s')
          → found dir name (save_cores date_text rights cwd dir r)
            ≡ last_written name (log_files date_text logs) (found dir name s')
      go (false, s2) e = e
      go (true, s2) e =
          found_after_moves rights cwd dir name n (cores_in (lookup cwd s2)) s2
            (cores_in_are_cores rights cwd dir name n (lookup cwd s2))
          ∙ e

  -- Where the directory is there or may be made, and its files may be written, the file of every name
  -- that does not begin with "core" holds what the last log of that name says, so that logs of one
  -- name overwrite one another; where no log has the name, the file is as it was.
  pub save_logs_to_file-last_written :
      (logs : Logs D) (s : System) (name : Text)
      → IsWritable rights dir
      → (exists dir s ≡ true) ⊎ (rights.may_make dir ≡ true)
      → is_core name ≡ false
      → found dir name (save_logs_to_file date_text rights cwd dir logs s)
        ≡ last_written name (log_files date_text logs) (found dir name s)
  unfolding save_logs_to_file makedirs_if_not_exists lookup
  save_logs_to_file-last_written logs s name w m n = go (lookup dir s) refl m
    where
      made : Option Entries → Result System
      made o =
          if (elim o [ none ↦ false | some es ↦ true ])
          then ok s
          else (if rights.may_make dir then ok (insert dir [] s) else err os_error)

      go :
          (o : Option Entries)
          → lookup dir s ≡ o
          → ((elim o [ none ↦ false | some es ↦ true ]) ≡ true) ⊎ (rights.may_make dir ≡ true)
          → found dir name (save_in date_text rights cwd dir logs s (made o))
            ≡ last_written name (log_files date_text logs) (entry_of name o)
      go (some es) h m =
          saved_in logs s s es name w n h
          ∙ ap (λ o. last_written name (log_files date_text logs) (entry_of name o)) h
      go none h (inl e) = cc
      go none h (inr e) = rw e (
          saved_in logs s (insert dir [] s) [] name w n
            (rw (lookup-insert dir dir [] s, same_refl dir) refl)
          ∙ ap (last_written name (log_files date_text logs)) (found-insert dir name [] s))
