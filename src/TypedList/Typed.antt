-- ===== src/TypedList/Typed.antt =====
-- What a list of demos/resilience-demo/lib/typed_list.py holds.
use wallaroo.Base.{Bool, false, List, [], ◌∷◌, ◌≡◌}
use wallaroo.Base.{All, Result, ok, err}
use wallaroo.TypedList.{TypedList, Change, rejects, change}

module _ {A T : Type 0} (has_type : A → T → Bool) where
  abbrev pub IsAccepted : List T → A → Type 0
  IsAccepted ts x = rejects has_type ts x ≡ false

  -- The list holds items of its types only.
  pub record IsTyped (ts : List T) (l : TypedList A T) : Type 0 where
    pub same_types : l.types ≡ ts
    pub items_typed : All (IsAccepted ts) l.items

module _ {A T : Type 0} (has_type : A → T → Bool) (is_list : A → Bool) where
  -- The list after a change: as it was, where the change raises.
  abbrev kept : TypedList A T → Result (TypedList A T) → TypedList A T
  kept l (err e) = l
  kept l (ok l') = l'

  unfoldable pub change_all : List (Change A) → TypedList A T → TypedList A T
  change_all [] l = l
  change_all (c ∷ cs) l = change_all cs (kept l (change has_type is_list c l))
