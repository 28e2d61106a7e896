-- ===== src/Automagic/Prices.antt =====
-- What orchestration/terraform/automagic_instance.py chooses: no price that it looks at is below the
-- one it takes, which is one of them.
use mathlib.Core.List.{Memᴰ}
use mathlib.Core.Path.{subst}
use wallaroo.Base.{Bool, true, false, ◌&&◌, List, [], ◌∷◌, ◌≡◌, refl, ◌∙◌, sym}
use wallaroo.Base.{if◌then◌else◌, All, Result, ok, >>=-eq-ok, ok-injective}
use wallaroo.Base.{◌≢◌, inl, inr}
use wallaroo.Base.Int.{pos}
use wallaroo.Base.Text.{Text, codes}
use wallaroo.Base.Dict.{same, same→≡, contains, text_eq}
use wallaroo.Automagic.{
  Floats, Instance, SpotPrice, unknown, is_spot, is_on_demand, Cheapest, Args, Tools, not_tiny,
  valid_instances,
}
use wallaroo.Automagic.Fits.{Fitting}
use wallaroo.Automagic.Passes.{IsOrdered, Step, Pass, Pass-nil, Pass-cons}
use wallaroo.Automagic.Choice.{
  take_spot, look_at_spot, find_spot, take_on_demand, look_at_on_demand, find_on_demand,
}

module _ {F : Type 0} (fl : Floats F) where
  -- The price that the text says is not below `m`.
  abbrev pub IsBelow : F → Text → Type 0
  IsBelow m t = (p : F) → fl.float t ≡ ok p → fl.is_less p m ≡ false

  -- The same for an instance on demand that is valid and has a price.
  abbrev pub IsBelowInstance : List Text → F → Instance → Type 0
  IsBelowInstance valid m i = contains valid i.size ≡ true → i.usd ≢ codes "N/A" → IsBelow m i.usd

  -- Where a choice comes from.
  pub data Source (spots : List SpotPrice) (valid : List Text) (instances : List Instance)
      (c : Cheapest F) : Type 0 where
    no_source : c.spot ≡ unknown → c.price ≡ fl.invalid_price → Source spots valid instances c
    spot_source :
        (sp : SpotPrice)
        → Memᴰ sp spots
        → fl.float sp.price ≡ ok c.price
        → c.instance_type ≡ sp.instance_type
        → c.availability_zone ≡ sp.availability_zone
        → c.spot ≡ is_spot
        → Source spots valid instances c
    on_demand_source :
        (i : Instance)
        → Memᴰ i instances
        → fl.float i.usd ≡ ok c.price
        → contains valid i.size ≡ true
        → c.instance_type ≡ i.size
        → c.spot ≡ is_on_demand
        → Source spots valid instances c

  -- The spot prices that are looked at.
  abbrev pub spot_prices : Tools → Args F → List Text → Result (List SpotPrice)
  spot_prices tools args valid =
      if not_tiny args.instance_type && args.spot
      then tools.get_spot_price_history args.availability_zone valid (pos 0) (pos 0)
      else ok []

  pub record IsCheapest (tools : Tools) (args : Args F) (instances : List Instance) (c : Cheapest F)
      : Type 0 where
    pub valid : List Text
    pub valid_of : valid_instances fl args instances ≡ ok valid
    pub fits : (t : Text) → contains valid t ≡ true → Fitting fl args instances t
    pub spots : List SpotPrice
    pub spots_of : spot_prices tools args valid ≡ ok spots
    pub below_spots : All (λ sp. IsBelow c.price sp.price) spots
    pub below_instances : All (IsBelowInstance valid c.price) instances
    pub source : Source spots valid instances c

  pub IsBelow-lower :
      (o : IsOrdered fl) (m m' : F) (t : Text)
      → fl.is_less m m' ≡ false
      → IsBelow m t
      → IsBelow m' t
  IsBelow-lower o m m' t l h p e = o.trans m' m p l (h p e)

  IsBelow-self : (p m : F) (t : Text) → fl.float t ≡ ok p → fl.is_less p m ≡ false → IsBelow m t
  IsBelow-self p m t e h q e' = subst (λ x. fl.is_less x m ≡ false) (ok-injective (sym e ∙ e')) h

  -- The choice is the price of this row.
  unfoldable pub FromSpot : SpotPrice → Cheapest F → Type 0
  FromSpot sp c =
      (fl.float sp.price ≡ ok c.price)
      × (c.instance_type ≡ sp.instance_type)
      × (c.availability_zone ≡ sp.availability_zone)
      × (c.spot ≡ is_spot)

  unfoldable pub FromInstance : List Text → Instance → Cheapest F → Type 0
  FromInstance valid i c =
      (fl.float i.usd ≡ ok c.price)
      × (contains valid i.size ≡ true)
      × (c.instance_type ≡ i.size)
      × (c.spot ≡ is_on_demand)

  module _ (o : IsOrdered fl) where
    SpotStep : SpotPrice → Cheapest F → Cheapest F → Type 0
    unfolding FromSpot
    SpotStep =
        Step fl o (λ m sp. IsBelow m sp.price) FromSpot (λ m m' sp. IsBelow-lower o m m' sp.price)

    spot_step :
        (c : Cheapest F) (sp : SpotPrice) (p : F) (less : Bool)
        → fl.float sp.price ≡ ok p
        → fl.is_less p c.price ≡ less
        → SpotStep sp c (if less then take_spot fl p sp c else c)
    unfolding SpotStep FromSpot
    spot_step c sp p true e h = record {
      lower = o.asym p c.price h;
      below = IsBelow-self p p sp.price e (o.irrefl p);
      from = inr (e, refl, refl, refl);
    }
    spot_step c sp p false e h = record {
      lower = o.irrefl c.price;
      below = IsBelow-self p c.price sp.price e h;
      from = inl refl;
    }

    pub find_spot-Pass :
        (sps : List SpotPrice) (c c' : Cheapest F)
        → find_spot fl c sps ≡ ok c'
        → Pass fl o
            (λ m sp. IsBelow m sp.price)
            FromSpot
            (λ m m' sp. IsBelow-lower o m m' sp.price)
            sps
            c
            c'
    unfolding find_spot look_at_spot SpotStep
    find_spot-Pass [] c c' e = subst (Pass fl o _ _ _ [] c) (ok-injective e) (Pass-nil fl o _ _ _ c)
    find_spot-Pass (sp ∷ sps) c c' e =
        let (c1, e1, rest) = >>=-eq-ok (look_at_spot fl c sp) (λ c1. find_spot fl c1 sps) e in
        let (p, ep, e2) = >>=-eq-ok (fl.float sp.price) _ e1 in
        Pass-cons fl o _ _ _ sp sps c c1 c'
          (subst (SpotStep sp c) (ok-injective e2)
            (spot_step c sp p (fl.is_less p c.price) ep refl))
          (find_spot-Pass sps c1 c' rest)

    InstanceStep : List Text → Instance → Cheapest F → Cheapest F → Type 0
    unfolding FromInstance
    InstanceStep valid =
        Step fl o (IsBelowInstance valid) (FromInstance valid)
          (λ m m' i l h v n. IsBelow-lower o m m' i.usd l (h v n))

    instance_step :
        (valid : List Text) (c : Cheapest F) (i : Instance) (p : F) (less has : Bool)
        → fl.float i.usd ≡ ok p
        → fl.is_less p c.price ≡ less
        → contains valid i.size ≡ has
        → InstanceStep valid i c (if less && has then take_on_demand fl p i c else c)
    unfolding InstanceStep FromInstance
    instance_step valid c i p true true e h v = record {
      lower = o.asym p c.price h;
      below = λ _ _. IsBelow-self p p i.usd e (o.irrefl p);
      from = inr (e, v, refl, refl);
    }
    instance_step valid c i p true false e h v = record {
      lower = o.irrefl c.price;
      below = λ v' n. cc;
      from = inl refl;
    }
    instance_step valid c i p false has e h v = record {
      lower = o.irrefl c.price;
      below = λ _ _. IsBelow-self p c.price i.usd e h;
      from = inl refl;
    }

    -- An instance with no price is passed over.
    unpriced_step :
        (valid : List Text) (c : Cheapest F) (i : Instance)
        → same i.usd (codes "N/A") ≡ true
        → InstanceStep valid i c c
    unfolding InstanceStep
    unpriced_step valid c i h = record {
      lower = o.irrefl c.price;
      below = λ _ n. absurd (n (same→≡ i.usd (codes "N/A") h));
      from = inl refl;
    }

    look_at_on_demand-Step :
        (valid : List Text) (c c' : Cheapest F) (i : Instance) (unpriced : Bool)
        → same i.usd (codes "N/A") ≡ unpriced
        → look_at_on_demand fl valid c i ≡ ok c'
        → InstanceStep valid i c c'
    unfolding look_at_on_demand
    look_at_on_demand-Step valid c c' i true h e =
        subst (InstanceStep valid i c) (ok-injective (rw h at e)) (unpriced_step valid c i h)
    look_at_on_demand-Step valid c c' i false h e =
        let (p, ep, e2) = >>=-eq-ok (fl.float i.usd) _ (rw h at e) in
        subst (InstanceStep valid i c) (ok-injective e2)
          (instance_step valid c i p (fl.is_less p c.price) (contains valid i.size) ep refl refl)

    pub find_on_demand-Pass :
        (valid : List Text) (is : List Instance) (c c' : Cheapest F)
        → find_on_demand fl valid c is ≡ ok c'
        → Pass fl o
            (IsBelowInstance valid)
            (FromInstance valid)
            (λ m m' i l h v n. IsBelow-lower o m m' i.usd l (h v n))
            is
            c
            c'
    unfolding find_on_demand InstanceStep
    find_on_demand-Pass valid [] c c' e =
        subst (Pass fl o _ _ _ [] c) (ok-injective e) (Pass-nil fl o _ _ _ c)
    find_on_demand-Pass valid (i ∷ is) c c' e =
        let (c1, e1, rest) =
          >>=-eq-ok (look_at_on_demand fl valid c i) (λ c1. find_on_demand fl valid c1 is) e in
        Pass-cons fl o _ _ _ i is c c1 c'
          (look_at_on_demand-Step valid c c1 i (same i.usd (codes "N/A")) refl e1)
          (find_on_demand-Pass valid is c1 c' rest)
