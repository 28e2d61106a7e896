-- ===== src/TypedList/Tests.antt =====
-- Numbers as items, whose types are the bounds that they stay below.
use wallaroo.Base.{ℕ, false, ltb, List, [], ◌∷◌, ◌≡◌, refl, err, type_error}
use wallaroo.Base.Int.{negsuc}
use wallaroo.TypedList.{
  TypedList, Change, appended, inserted, added, added_in_place, append, insert, append_all,
  new_list, add, add_in_place,
}
use wallaroo.TypedList.Typed.{change_all}

abbrev small : TypedList ℕ ℕ
small = record { items = 1 ∷ 2 ∷ []; types = 5 ∷ [] }

abbrev changes : List (Change ℕ)
changes = appended 9 ∷ inserted (negsuc 0) 3 ∷ added 4 ∷ added_in_place 4 ∷ appended 4 ∷ []

changed : (change_all ltb (λ x. false) changes small).items ≡ 1 ∷ 3 ∷ 2 ∷ 4 ∷ []
unfolding change_all append insert add add_in_place
changed = refl

new_list_rejects : new_list ltb (7 ∷ []) (5 ∷ []) ≡ err type_error
unfolding new_list append_all append
new_list_rejects = refl
