-- ===== src/TypedList.antt =====
-- The list of demos/resilience-demo/lib/typed_list.py, which checks the types of the items that it
-- takes. `isinstance` on one type is a parameter.
pub mod Typed
mod Tests
use wallaroo.Base.{ℕ, ◌+◌, ◌-◌, Bool, true, false, not, List, [], ◌∷◌, ◌++◌, length, take, drop}
use wallaroo.Base.{if◌then◌else◌, Result, ok, err, ◌>>=◌, type_error, name_error}
use wallaroo.Base.Int.{ℤ, pos, negsuc}

-- No types, or none given, let every item pass.
pub record TypedList (A T : Type 0) : Type 0 where
  pub items : List A
  pub types : List T

-- Where `list.insert` puts an item: a negative index counts from the end, and none is out of range.
abbrev pub position : ℤ → ℕ → ℕ
position (pos i) n = i
position (negsuc i) n = n - (i + 1)

-- What is done to a list. The last two check the item, and then do not change the list.
pub data Change (A : Type 0) : Type 0 where
  appended : A → Change A
  inserted : ℤ → A → Change A
  added : A → Change A
  added_in_place : A → Change A

module _ {A T : Type 0} (has_type : A → T → Bool) where
  -- `isinstance(item, types)` of a tuple of types
  abbrev pub isinstance : A → List T → Bool
  isinstance x [] = false
  isinstance x (t ∷ ts) = if has_type x t then true else isinstance x ts

  abbrev pub rejects : List T → A → Bool
  rejects [] x = false
  rejects (t ∷ ts) x = not (isinstance x (t ∷ ts))

  abbrev pub type_check : List T → A → Result (Unit {0})
  type_check ts x = if rejects ts x then err type_error else ok tt

  unfoldable pub append : A → TypedList A T → Result (TypedList A T)
  append x l = do _ ← type_check l.types x; ok (record l { items = l.items ++ x ∷ [] })

  unfoldable pub insert : ℤ → A → TypedList A T → Result (TypedList A T)
  insert i x l = do
    _ ← type_check l.types x
    let n = position i (length l.items)
    ok (record l { items = take n l.items ++ x ∷ drop n l.items })

  -- `__init__`
  unfoldable pub append_all : List A → TypedList A T → Result (TypedList A T)
  unfolding append
  append_all [] l = ok l
  append_all (x ∷ xs) l = append x l >>= append_all xs

  unfoldable pub new_list : List A → List T → Result (TypedList A T)
  unfolding append_all
  new_list iterable types = append_all iterable (record { items = []; types = types })

  -- `__iadd__` asks for a class that is not there.
  unfoldable pub add_in_place : A → TypedList A T → Result (TypedList A T)
  add_in_place x l = do _ ← type_check l.types x; err name_error

module _ {A T : Type 0} (has_type : A → T → Bool) (is_list : A → Bool) where
  -- `__add__` takes an item, which must be a list itself, and gives nothing back.
  unfoldable pub add : A → TypedList A T → Result (TypedList A T)
  add x l = do _ ← type_check has_type l.types x; if is_list x then ok l else err type_error

  abbrev pub change : Change A → TypedList A T → Result (TypedList A T)
  change (appended x) l = append has_type x l
  change (inserted i x) l = insert has_type i x l
  change (added x) l = add x l
  change (added_in_place x) l = add_in_place has_type x l
