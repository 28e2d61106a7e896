-- ===== src/Automagic/Cheap.antt =====
-- The choice of orchestration/terraform/automagic_instance.py as a whole: both passes, and the
-- on-demand price of what they chose.
use wallaroo.Base.{Bool, true, false, ◌&&◌, List, [], ◌∷◌, ◌≡◌, refl, ◌∙◌, sym}
use wallaroo.Base.{All, ok, >>=-eq-ok, ok-injective, inl, inr}
use wallaroo.Base.{◌⊎◌}
use wallaroo.Base.Text.{Text}
use wallaroo.Base.Dict.{same, text_eq}
use wallaroo.Automagic.{
  Floats, Instance, SpotPrice, Cheapest, Args, Tools, not_tiny, valid_instances,
}
use wallaroo.Automagic.Choice.{
  no_instance, find_spot, find_on_demand, look_at_limit, set_on_demand, exit_if_none, spot_round,
  find_cheapest,
}
use wallaroo.Automagic.Fits.{valid_instances_fit}
use wallaroo.Automagic.Passes.{IsOrdered, Pass}
use wallaroo.Automagic.Prices.{
  Source, no_source, spot_source, on_demand_source, spot_prices, IsBelow, IsBelowInstance,
  IsBelow-lower, IsCheapest, FromSpot, FromInstance, find_spot-Pass, find_on_demand-Pass,
}
use mathlib.Core.Path.{subst}
use mathlib.Core.List.{Memᴰ}

module _ {F : Type 0} (fl : Floats F) where
  -- Two choices that differ in the on-demand price at most.
  record Alike (c c' : Cheapest F) : Type 0 where
    pub price : c'.price ≡ c.price
    pub instance_type : c'.instance_type ≡ c.instance_type
    pub zone : c'.availability_zone ≡ c.availability_zone
    pub spot : c'.spot ≡ c.spot

  Alike-refl : (c : Cheapest F) → Alike c c
  Alike-refl c = record { price = refl; instance_type = refl; zone = refl; spot = refl }

  Alike-trans : (a b c : Cheapest F) → Alike a b → Alike b c → Alike a c
  Alike-trans a b c x y = record {
    price = y.price ∙ x.price;
    instance_type = y.instance_type ∙ x.instance_type;
    zone = y.zone ∙ x.zone;
    spot = y.spot ∙ x.spot;
  }

  look_at_limit-Alike :
      (c c' : Cheapest F) (i : Instance) (chosen : Bool)
      → same i.size c.instance_type ≡ chosen
      → look_at_limit fl c i ≡ ok c'
      → Alike c c'
  unfolding look_at_limit
  look_at_limit-Alike c c' i true h e =
      let (p, ep, e2) = >>=-eq-ok (fl.float i.usd) _ (rw h at e) in
      subst (Alike c) (ok-injective e2)
        (record { price = refl; instance_type = refl; zone = refl; spot = refl })
  look_at_limit-Alike c c' i false h e = subst (Alike c) (ok-injective (rw h at e)) (Alike-refl c)

  set_on_demand-Alike :
      (c c' : Cheapest F) (is : List Instance) → set_on_demand fl c is ≡ ok c' → Alike c c'
  unfolding set_on_demand
  set_on_demand-Alike c c' [] e = subst (Alike c) (ok-injective e) (Alike-refl c)
  set_on_demand-Alike c c' (i ∷ is) e =
      let (c1, e1, rest) = >>=-eq-ok (look_at_limit fl c i) (λ c1. set_on_demand fl c1 is) e in
      Alike-trans c c1 c' (look_at_limit-Alike c c1 i (same i.size c.instance_type) refl e1)
        (set_on_demand-Alike c1 c' is rest)

  Source-of_Alike :
      (spots : List SpotPrice) (valid : List Text) (is : List Instance) (c c' : Cheapest F)
      → Alike c c'
      → Source fl spots valid is c
      → Source fl spots valid is c'
  Source-of_Alike spots valid is c c' a (no_source s p) = no_source (a.spot ∙ s) (a.price ∙ p)
  Source-of_Alike spots valid is c c' a (spot_source sp m e t z s) =
      spot_source sp m (rw a.price e) (a.instance_type ∙ t) (a.zone ∙ z) (a.spot ∙ s)
  Source-of_Alike spots valid is c c' a (on_demand_source i m e v t s) =
      on_demand_source i m (rw a.price e) v (a.instance_type ∙ t) (a.spot ∙ s)

  spot_round-prices :
      (tools : Tools) (args : Args F) (valid : List Text) (c : Cheapest F) (looked : Bool)
      → (not_tiny args.instance_type && args.spot) ≡ looked
      → spot_round fl tools args valid ≡ ok c
      → (spots : List SpotPrice) × (spot_prices fl tools args valid ≡ ok spots)
        × (find_spot fl (no_instance fl) spots ≡ ok c)
  unfolding spot_round find_spot
  spot_round-prices tools args valid c true h e =
      let (spots, e1, e2) = >>=-eq-ok _ (find_spot fl (no_instance fl)) (rw h at e) in
      (spots, rw h e1, e2)
  spot_round-prices tools args valid c false h e = ([], rw h refl, rw h at e)

  module _ (o : IsOrdered fl) where
    SpotPass : List SpotPrice → Cheapest F → Cheapest F → Type 0
    SpotPass =
        Pass fl o (λ m sp. IsBelow fl m sp.price) (FromSpot fl)
          (λ m m' sp. IsBelow-lower fl o m m' sp.price)

    InstancePass : List Text → List Instance → Cheapest F → Cheapest F → Type 0
    InstancePass valid =
        Pass fl o (IsBelowInstance fl valid) (FromInstance fl valid)
          (λ m m' i l h v n. IsBelow-lower fl o m m' i.usd l (h v n))

    Source-of_passes :
        (spots : List SpotPrice) (valid : List Text) (is : List Instance) (c c' : Cheapest F)
        → (c ≡ no_instance fl) ⊎ (sp : SpotPrice) × Memᴰ sp spots × FromSpot fl sp c
        → (c' ≡ c) ⊎ (i : Instance) × Memᴰ i is × FromInstance fl valid i c'
        → Source fl spots valid is c'
    unfolding FromSpot FromInstance
    Source-of_passes spots valid is c c' (inl e) (inl e') =
        subst (Source fl spots valid is) (sym (e' ∙ e)) (no_source refl refl)
    Source-of_passes spots valid is c c' (inr (sp, m, (e, t, z, s))) (inl e') =
        subst (Source fl spots valid is) (sym e') (spot_source sp m e t z s)
    Source-of_passes spots valid is c c' s (inr (i, m, (e, v, t, d))) = on_demand_source i m e v t d

    below_both :
        (spots : List SpotPrice) (c c' : Cheapest F)
        → fl.is_less c.price c'.price ≡ false
        → All (λ sp. IsBelow fl c.price sp.price) spots
        → All (λ sp. IsBelow fl c'.price sp.price) spots
    below_both [] c c' l h = tt
    below_both (sp ∷ spots) c c' l (h, hs) =
        (IsBelow-lower fl o c.price c'.price sp.price l h, below_both spots c c' l hs)

    -- Where the prices that `float` reads are ordered and a choice is made, no spot price that is looked
    -- at is below the price chosen, nor is that of a valid instance that has a price on demand. The
    -- choice is one of these rows, with its type and price, or no price was below 9999. A valid size is
    -- that of a listed instance with the processors and the memory asked for, not a paravirtual one
    -- and, where a type is asked for, of that type.
    pub find_cheapest-IsCheapest :
        (tools : Tools) (args : Args F) (instances : List Instance) (c : Cheapest F)
        → find_cheapest fl tools args instances ≡ ok c
        → IsCheapest fl tools args instances c
    unfolding find_cheapest SpotPass InstancePass
    find_cheapest-IsCheapest tools args instances c e =
        let (valid, ev, e1) = >>=-eq-ok (valid_instances fl args instances) _ e in
        let (u, eu, e2) = >>=-eq-ok (exit_if_none fl valid) _ e1 in
        let (c1, es, e3) = >>=-eq-ok (spot_round fl tools args valid) _ e2 in
        let (c2, ei, e4) = >>=-eq-ok (find_on_demand fl valid c1 instances) _ e3 in
        let (spots, ep, ef) =
          spot_round-prices tools args valid c1 (not_tiny args.instance_type && args.spot) refl
            es in
        let p1 : SpotPass spots (no_instance fl) c1 =
          find_spot-Pass fl o spots (no_instance fl) c1 ef in
        let p2 : InstancePass valid instances c1 c2 =
          find_on_demand-Pass fl o valid instances c1 c2 ei in
        let a = set_on_demand-Alike c2 c instances e4 in
        record {
          valid = valid;
          valid_of = ev;
          spots = spots;
          spots_of = ep;
          fits = valid_instances_fit fl args instances valid ev;
          below_spots =
              subst (λ m. All (λ sp. IsBelow fl m sp.price) spots) (sym a.price)
                (below_both spots c1 c2 p2.lower p1.below);
          below_instances =
              subst (λ m. All (IsBelowInstance fl valid m) instances) (sym a.price) p2.below;
          source =
              Source-of_Alike spots valid instances c2 c a
                (Source-of_passes spots valid instances c1 c2 p1.from p2.from);
        }
