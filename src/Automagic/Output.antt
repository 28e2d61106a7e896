-- ===== src/Automagic/Output.antt =====
-- The bid of orchestration/terraform/automagic_instance.py, what the script prints, and the script as
-- a whole.
use wallaroo.Base.{Bool, true, false, Option, none, some, List, [], ◌∷◌, ◌++◌, ◌==◌}
use wallaroo.Base.{if◌then◌else◌, Result, ok, err, ◌>>=◌, system_exit, key_error}
use wallaroo.Base.Int.{ℤ, pos, negsuc}
use wallaroo.Base.Text.{Text, codes}
use wallaroo.Base.Dict.{text_eq}
use wallaroo.Automagic.{
  Floats, SpotPrice, Spot, unknown, is_spot, is_on_demand, Cheapest, Args, Tools, get_instances,
}
use wallaroo.Automagic.Choice.{find_cheapest}

abbrev pub starts_with : Text → Text → Bool
starts_with [] s = true
starts_with (c ∷ t) [] = false
starts_with (c ∷ t) (x ∷ s) = if c == x then starts_with t s else false

-- `t in s`
abbrev pub is_part : Text → Text → Bool
is_part t [] = starts_with t []
is_part t (x ∷ s) = if starts_with t (x ∷ s) then true else is_part t s

module _ {F : Type 0} (fl : Floats F) where
  -- `max_price` over a history
  unfoldable pub max_price : F → List SpotPrice → Result F
  max_price m [] = ok m
  max_price m (sp ∷ sps) = do p ← fl.float sp.price; max_price (if fl.is_less m p then p else m) sps

  -- The bid for the highest price, capped on both ends.
  unfoldable pub bid_price : F → Cheapest F → F → Result F
  bid_price factor c highest = elim c.on_demand_price [
    | none ↦ err key_error
    | some limit ↦
        let bid = fl.times highest factor in
        let capped = if fl.is_less limit bid then limit else bid in
        ok (if fl.is_less capped c.current_price then c.current_price else capped)
  ]

  -- The history of the chosen instance in its zone.
  abbrev pub history : Tools → Cheapest F → ℤ → ℤ → Result (List SpotPrice)
  history tools c from to =
      tools.get_spot_price_history (some c.availability_zone) (c.instance_type ∷ []) from to

  -- The bid, from the last six hours and from twelve hours a week ago.
  unfoldable pub make_bid : Tools → F → Cheapest F → Result (Cheapest F)
  unfolding max_price bid_price
  make_bid tools factor c = do
    last6 ← history tools c (negsuc 5) (pos 0)
    weekago ← history tools c (negsuc 173) (negsuc 161)
    highest6 ← max_price c.price last6
    highest ← max_price highest6 weekago
    bid ← bid_price factor c highest
    ok (record c { price = bid })

  abbrev pub check_zone : Tools → Option Text → Result (Unit {0})
  check_zone tools none = ok tt
  check_zone tools (some []) = ok tt
  check_zone tools (some (x ∷ t)) = if tools.is_zone (x ∷ t) then ok tt else err system_exit

  abbrev pub pg_output : Bool → Text
  pg_output false = codes "ci_pg=is not using placement groups#"
  pg_output true =
      codes "ci_pg=is using placement groups#pg_arg=-var placement_group=wallaroo-$(cluster_name)#"

  -- What is printed for a spot instance.
  abbrev pub spot_output : Cheapest F → Text
  spot_output c =
      pg_output c.placement_group
      ++ (codes "ci_current_price="
          ++ (fl.str c.current_price
              ++ (codes "#ci_inst_type="
                  ++ (c.instance_type
                      ++ (codes "#ci_inst_price="
                          ++ (fl.str c.price
                              ++ (codes "#ci_az="
                                  ++ (c.availability_zone
                                      ++ (codes "#availability_zone="
                                          ++ (c.availability_zone
                                              ++ (codes "#ci_args=-var leader_instance_type="
                                                  ++ (c.instance_type
                                                      ++ (codes " -var follower_instance_type="
                                                          ++ (c.instance_type
                                                            ++ (codes " -var 'leader_spot_price=\""
                                                            ++ (fl.str c.price
                                                            ++ (codes
                                                            "\"' -var 'follower_spot_price=\""
                                                            ++ (fl.str c.price
                                                            ++ codes "\"'"))))))))))))))))))

  abbrev pub az_output : Option Text → Text
  az_output none = []
  az_output (some []) = []
  az_output (some (x ∷ t)) =
      codes "ci_az=" ++ ((x ∷ t) ++ (codes "#availability_zone=" ++ ((x ∷ t) ++ codes "#")))

  -- What is printed otherwise.
  abbrev pub on_demand_output : Option Text → Cheapest F → Text
  on_demand_output az c =
      pg_output c.placement_group
      ++ (az_output az
          ++ (codes "ci_inst_type="
              ++ (c.instance_type
                  ++ (codes "#ci_args=-var leader_instance_type="
                      ++ (c.instance_type
                          ++ (codes " -var follower_instance_type=" ++ c.instance_type))))))

  -- The string "UNKNOWN" is true.
  abbrev pub is_true : Spot → Bool
  is_true unknown = true
  is_true is_spot = true
  is_true is_on_demand = false

  -- The script, with what it prints.
  unfoldable pub automagic : Tools → Args F → Result Text
  unfolding get_instances find_cheapest make_bid
  automagic tools args = do
    _ ← check_zone tools args.availability_zone
    instances ← get_instances tools args.burst
    c ← find_cheapest fl tools args instances
    pg ← tools.pg_instances
    let c' = record c { placement_group = is_part c.instance_type pg }
    if is_true c'.spot
        then (make_bid tools args.spot_bid_factor c' >>= λ b. ok (spot_output b))
        else ok (on_demand_output args.availability_zone c')
