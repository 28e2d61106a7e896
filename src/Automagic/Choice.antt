-- ===== src/Automagic/Choice.antt =====
-- The cheapest instance of orchestration/terraform/automagic_instance.py, by the spot prices and then
-- by the on-demand prices, with its on-demand price.
use wallaroo.Base.{false, ◌&&◌, none, some, List, [], ◌∷◌}
use wallaroo.Base.{if◌then◌else◌, Result, ok, err, ◌>>=◌, system_exit}
use wallaroo.Base.Int.{pos}
use wallaroo.Base.Text.{Text, codes}
use wallaroo.Base.Dict.{same, contains, text_eq}
use wallaroo.Automagic.{
  Floats, Instance, SpotPrice, unknown, is_spot, is_on_demand, Cheapest, Args, Tools, not_tiny,
  valid_instances,
}

module _ {F : Type 0} (fl : Floats F) where
  abbrev pub no_instance : Cheapest F
  no_instance = record {
    price = fl.invalid_price;
    current_price = fl.invalid_price;
    instance_type = codes "INVALID";
    availability_zone = codes "INVALID";
    spot = unknown;
    on_demand_price = none;
    placement_group = false;
  }

  abbrev pub take_spot : F → SpotPrice → Cheapest F → Cheapest F
  take_spot p sp c = record c {
    price = p;
    current_price = p;
    instance_type = sp.instance_type;
    availability_zone = sp.availability_zone;
    spot = is_spot;
  }

  -- One spot price, and all of them.
  unfoldable pub look_at_spot : Cheapest F → SpotPrice → Result (Cheapest F)
  look_at_spot c sp = do
    p ← fl.float sp.price
    ok (if fl.is_less p c.price then take_spot p sp c else c)

  unfoldable pub find_spot : Cheapest F → List SpotPrice → Result (Cheapest F)
  unfolding look_at_spot
  find_spot c [] = ok c
  find_spot c (sp ∷ sps) = look_at_spot c sp >>= λ c'. find_spot c' sps

  abbrev pub take_on_demand : F → Instance → Cheapest F → Cheapest F
  take_on_demand p i c = record c {
    price = p;
    current_price = p;
    instance_type = i.size;
    availability_zone = codes "ANY";
    spot = is_on_demand;
  }

  -- One on-demand price, and all of them.
  unfoldable pub look_at_on_demand : List Text → Cheapest F → Instance → Result (Cheapest F)
  look_at_on_demand valid c i =
      if same i.usd (codes "N/A")
      then ok c
      else (fl.float i.usd >>= λ p.
          ok (if fl.is_less p c.price && contains valid i.size then take_on_demand p i c else c))

  unfoldable pub find_on_demand : List Text → Cheapest F → List Instance → Result (Cheapest F)
  unfolding look_at_on_demand
  find_on_demand valid c [] = ok c
  find_on_demand valid c (i ∷ is) = look_at_on_demand valid c i >>= λ c'. find_on_demand valid c' is

  -- The on-demand price of the chosen instance: the last one listed.
  unfoldable pub look_at_limit : Cheapest F → Instance → Result (Cheapest F)
  look_at_limit c i =
      if same i.size c.instance_type
      then (fl.float i.usd >>= λ p. ok (record c { on_demand_price = some p }))
      else ok c

  unfoldable pub set_on_demand : Cheapest F → List Instance → Result (Cheapest F)
  unfolding look_at_limit
  set_on_demand c [] = ok c
  set_on_demand c (i ∷ is) = look_at_limit c i >>= λ c'. set_on_demand c' is

  abbrev pub exit_if_none : List Text → Result (Unit {0})
  exit_if_none [] = err system_exit
  exit_if_none (v ∷ valid) = ok tt

  -- The spot prices count unless a tiny instance is asked for, or spot prices are ruled out.
  unfoldable pub spot_round : Tools → Args F → List Text → Result (Cheapest F)
  unfolding find_spot
  spot_round tools args valid =
      if not_tiny args.instance_type && args.spot
      then (tools.get_spot_price_history args.availability_zone valid (pos 0) (pos 0)
          >>= find_spot no_instance)
      else ok no_instance

  -- The cheapest of the instances that fit.
  unfoldable pub find_cheapest : Tools → Args F → List Instance → Result (Cheapest F)
  unfolding valid_instances spot_round find_on_demand set_on_demand
  find_cheapest tools args instances = do
    valid ← valid_instances fl args instances
    _ ← exit_if_none valid
    c ← spot_round tools args valid
    c' ← find_on_demand valid c instances
    set_on_demand c' instances
