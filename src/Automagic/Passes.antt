-- ===== src/Automagic/Passes.antt =====
-- A pass over rows of prices that takes a row only where it is cheaper: what it ends with is not above
-- any row, and is one of them or what it began with.
use mathlib.Core.List.{Memᴰ}
use mathlib.Core.Path.{subst}
use wallaroo.Base.{List, [], ◌∷◌, ◌≡◌, refl, ◌∙◌, sym, All, ◌⊎◌, inl, inr, true, false}
use wallaroo.Automagic.{Floats, Cheapest}

-- The laws of `<` on floats that are numbers.
pub record IsOrdered {F : Type 0} (fl : Floats F) : Type 0 where
  pub asym : (a b : F) → fl.is_less a b ≡ true → fl.is_less b a ≡ false
  pub trans : (a b c : F) → fl.is_less b a ≡ false → fl.is_less c b ≡ false → fl.is_less c a ≡ false
  pub irrefl : (a : F) → fl.is_less a a ≡ false

-- A pass over rows that moves to cheaper ones only.
module _ {F A : Type 0} (fl : Floats F) (o : IsOrdered fl) (Below : F → A → Type 0)
    (From : A → Cheapest F → Type 0)
    (below_lower : (m m' : F) (x : A) → fl.is_less m m' ≡ false → Below m x → Below m' x) where
  pub record Step (x : A) (c c' : Cheapest F) : Type 0 where
    pub lower : fl.is_less c.price c'.price ≡ false
    pub below : Below c'.price x
    pub from : (c' ≡ c) ⊎ From x c'

  pub record Pass (xs : List A) (c c' : Cheapest F) : Type 0 where
    pub lower : fl.is_less c.price c'.price ≡ false
    pub below : All (Below c'.price) xs
    pub from : (c' ≡ c) ⊎ (x : A) × Memᴰ x xs × From x c'

  pub Pass-nil : (c : Cheapest F) → Pass [] c c
  Pass-nil c = record { lower = o.irrefl c.price; below = tt; from = inl refl }

  From-cons :
      (x : A) (xs : List A) (c c1 c' : Cheapest F)
      → (c1 ≡ c) ⊎ From x c1
      → (c' ≡ c1) ⊎ (y : A) × Memᴰ y xs × From y c'
      → (c' ≡ c) ⊎ (y : A) × Memᴰ y (x ∷ xs) × From y c'
  From-cons x xs c c1 c' (inl e) (inl e') = inl (e' ∙ e)
  From-cons x xs c c1 c' (inr f) (inl e') = inr (x, Memᴰ.head refl, subst (From x) (sym e') f)
  From-cons x xs c c1 c' s (inr (y, m, f)) = inr (y, Memᴰ.tail m, f)

  pub Pass-cons :
      (x : A) (xs : List A) (c c1 c' : Cheapest F)
      → Step x c c1
      → Pass xs c1 c'
      → Pass (x ∷ xs) c c'
  Pass-cons x xs c c1 c' s p = record {
    lower = o.trans c'.price c1.price c.price p.lower s.lower;
    below = (below_lower c1.price c'.price x p.lower s.below, p.below);
    from = From-cons x xs c c1 c' s.from p.from;
  }
