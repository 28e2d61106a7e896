-- ===== src/Automagic.antt =====
-- The choice of an instance of orchestration/terraform/automagic_instance.py: the instances that
-- fit, the cheapest of them by spot and on-demand prices, and the bid. Floats, with the texts that
-- `float` reads and `str` writes, and the command line tools that are asked for the prices are
-- parameters. Messages to the standard error are left out.
pub mod Choice
pub mod Output
pub mod Fits
pub mod Passes
pub mod Prices
pub mod Cheap
pub mod Bids
mod Tests
use wallaroo.Base.{Bool, true, false, not, ◌&&◌, Option, none, some, List, [], ◌∷◌, ◌++◌, map, ◌==◌}
use wallaroo.Base.{if◌then◌else◌, Result, ok, err, ◌>>=◌, system_exit, type_error, key_error}
use wallaroo.Base.Int.{ℤ, pos, negsuc}
use wallaroo.Base.Text.{Text, codes}
use wallaroo.Base.Dict.{Dict, same, contains, lookup, keys, text_eq}

-- `float` of what is no number raises. `is_less a b` is `a < b`, and `at_least a b` is `a >= b`.
pub record Floats (F : Type 0) : Type 0 where
  pub float : Text → Result F
  pub str : F → Text
  pub is_less : F → F → Bool
  pub at_least : F → F → Bool
  pub times : F → F → F
  pub minus_one : F
  pub invalid_price : F

-- `i['vCPU']`, a text of the price list or the number that `get_instances` puts there
pub data Vcpu : Type 0 where
  written : Text → Vcpu
  unburstable : Vcpu

pub record Instance : Type 0 where
  pub size : Text
  pub vcpu : Vcpu
  pub memory_gib : Text
  pub usd : Text

pub record SpotPrice : Type 0 where
  pub price : Text
  pub instance_type : Text
  pub availability_zone : Text

pub data Spot : Type 0 where
  unknown is_spot is_on_demand : Spot

-- `cheapest_instance`, whose `OnDemandPrice` is missing at first
pub record Cheapest (F : Type 0) : Type 0 where
  pub price : F
  pub current_price : F
  pub instance_type : Text
  pub availability_zone : Text
  pub spot : Spot
  pub on_demand_price : Option F
  pub placement_group : Bool

pub record Args (F : Type 0) : Type 0 where
  pub availability_zone : Option Text
  pub cpus : F
  pub mem : F
  pub burst : Bool
  pub instance_type : Option Text
  pub spot : Bool
  pub spot_bid_factor : F

-- The commands that are run: curl on the price lists of both generations, the check of a zone,
-- curl on the page of placement groups, and the history of spot prices of a zone and of instances
-- between two offsets in hours. A command that fails exits, and `jq` may print `null`.
pub record Tools : Type 0 where
  pub current_gen : Result (Option (List Instance))
  pub previous_gen : Result (Option (List Instance))
  pub is_zone : Text → Bool
  pub pg_instances : Result Text
  pub get_spot_price_history : Option Text → List Text → ℤ → ℤ → Result (List SpotPrice)

abbrev pub tiny_insts : Dict Text Text
tiny_insts =
    (codes "t1.micro", codes "0.1")
    ∷ (codes "t2.nano", codes "0.05")
    ∷ (codes "t2.micro", codes "0.10")
    ∷ (codes "t2.small", codes "0.2")
    ∷ (codes "t2.medium", codes "0.4")
    ∷ (codes "t2.large", codes "0.6")
    ∷ []

abbrev pub pv_insts : List Text
pv_insts = map codes (
    "t1.micro" ∷ "cg1.4xlarge" ∷ "m2.xlarge" ∷ "m2.2xlarge" ∷ "m2.4xlarge" ∷ "c1.medium"
    ∷ "c1.xlarge" ∷ "m1.small" ∷ "m1.medium" ∷ "m1.large" ∷ "m1.xlarge" ∷ [])

-- The body of the loop of `get_instances`, by what `TINY_INSTS` has for the size.
abbrev pub set_vcpu : Bool → Instance → Option Text → Instance
set_vcpu burst i none = i
set_vcpu burst i (some v) =
    let i' = record i { vcpu = written v } in
    if burst then record i' { vcpu = written v } else record i' { vcpu = unburstable }

abbrev pub tiny_vcpu : Bool → Instance → Instance
tiny_vcpu burst i = set_vcpu burst i (lookup i.size tiny_insts)

abbrev pub concat_generations :
    Option (List Instance) → Option (List Instance) → Result (List Instance)
concat_generations none pi = err system_exit
concat_generations (some ci) none = err type_error
concat_generations (some ci) (some pi) = ok (ci ++ pi)

unfoldable pub get_instances : Tools → Bool → Result (List Instance)
get_instances tools burst = do
  ci ← tools.current_gen
  pi ← tools.previous_gen
  insts ← concat_generations ci pi
  ok (map (tiny_vcpu burst) insts)

-- `not args.instance_type or i['size'] == args.instance_type`; an empty text is no choice.
abbrev pub is_wanted : Option Text → Text → Bool
is_wanted none size = true
is_wanted (some []) size = true
is_wanted (some (c ∷ t)) size = same size (c ∷ t)

-- `args.instance_type not in TINY_INSTS`
abbrev pub not_tiny : Option Text → Bool
not_tiny none = true
not_tiny (some t) = not (contains (keys tiny_insts) t)

module _ {F : Type 0} (fl : Floats F) where
  abbrev pub vcpu_float : Vcpu → Result F
  vcpu_float (written t) = fl.float t
  vcpu_float unburstable = ok fl.minus_one

  -- The test of a valid instance: `and` asks for the memory only if the processors suffice.
  unfoldable pub is_valid : Args F → Instance → Result Bool
  is_valid args i = do
    v ← vcpu_float i.vcpu
    if fl.at_least v args.cpus
        then (fl.float i.memory_gib >>= λ m.
            ok (fl.at_least m args.mem && not (contains pv_insts i.size)))
        else ok false

  unfoldable pub valid_instances : Args F → List Instance → Result (List Text)
  valid_instances args [] = ok []
  valid_instances args (i ∷ is) = do
    fits ← is_valid args i
    rest ← valid_instances args is
    ok (if fits && is_wanted args.instance_type i.size then i.size ∷ rest else rest)
