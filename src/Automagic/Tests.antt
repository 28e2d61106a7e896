-- ===== src/Automagic/Tests.antt =====
-- The choice and the bid on two instances, with prices that are written as whole numbers.
use wallaroo.Base.{ℕ, ◌+◌, ◌-◌, ◌*◌, arith, leb, ltb, ◌&&◌, ◌≡◌, refl, true, false, none, some}
use wallaroo.Base.{List, [], ◌∷◌, Result, ok, err, value_error, if◌then◌else◌}
use wallaroo.Base.Int.{ℤ, pos, negsuc}
use wallaroo.Base.Text.{Text, codes}
use wallaroo.Base.Dict.{contains, lookup, text_eq}
use wallaroo.Automagic.{
  Floats, Instance, written, SpotPrice, Cheapest, is_spot, Args, Tools, get_instances, is_valid,
  valid_instances,
}
use wallaroo.Automagic.Choice.{
  find_cheapest, spot_round, find_spot, look_at_spot, find_on_demand, look_at_on_demand,
  set_on_demand, look_at_limit,
}
use wallaroo.Automagic.Output.{max_price, bid_price, make_bid, automagic}
use wallaroo.Automagic.Passes.{IsOrdered}
use wallaroo.Automagic.Prices.{IsCheapest}
use wallaroo.Automagic.Cheap.{find_cheapest-IsCheapest}
use wallaroo.Automagic.Bids.{IsBidFor, make_bid-IsBidFor}

abbrev digits_from : ℕ → Text → Result ℕ
digits_from n [] = ok n
digits_from n (c ∷ t) =
    let rest = digits_from (n * 10 + (c - 48)) t in
    if leb 48 c && leb c 57 then rest else err value_error

abbrev digit : ℕ → Text
digit n = (48 + n) ∷ []

abbrev whole : Floats ℕ
whole = record {
  float = digits_from 0;
  str = digit;
  is_less = ltb;
  at_least = λ a b. leb b a;
  times = λ a b. a * b;
  minus_one = 0;
  invalid_price = 9999;
}

whole-IsOrdered : IsOrdered whole
whole-IsOrdered = record {
  asym = λ a b h. ground (arith);
  trans = λ a b c h k. ground (arith);
  irrefl = λ a. ground (arith);
}

abbrev m4 : Instance
m4 = record {
  size = codes "m4.large";
  vcpu = written (codes "2");
  memory_gib = codes "8";
  usd = codes "10";
}

abbrev c4 : Instance
c4 = record {
  size = codes "c4.large";
  vcpu = written (codes "2");
  memory_gib = codes "4";
  usd = codes "9";
}

abbrev spot_of : Instance → Text → SpotPrice
spot_of i p = record { price = p; instance_type = i.size; availability_zone = codes "a" }

abbrev spot_history : ℤ → List SpotPrice
spot_history (pos n) = spot_of c4 (codes "4") ∷ spot_of m4 (codes "3") ∷ []
spot_history (negsuc n) = spot_of m4 (codes "5") ∷ spot_of m4 (codes "2") ∷ []

abbrev tools : Tools
tools = record {
  current_gen = ok (some (m4 ∷ []));
  previous_gen = ok (some (c4 ∷ []));
  is_zone = λ z. true;
  pg_instances = ok (codes "c4.large");
  get_spot_price_history = λ az types from to. ok (spot_history from);
}

abbrev args : Args ℕ
args = record {
  availability_zone = none;
  cpus = 1;
  mem = 2;
  burst = true;
  instance_type = none;
  spot = true;
  spot_bid_factor = 1;
}

abbrev chosen : Cheapest ℕ
chosen = record {
  price = 3;
  current_price = 3;
  instance_type = codes "m4.large";
  availability_zone = codes "a";
  spot = is_spot;
  on_demand_price = some 10;
  placement_group = false;
}

-- The spot price of m4.large is the lowest.
find_cheapest-IsCheapest_example : IsCheapest whole tools args (m4 ∷ c4 ∷ []) chosen
unfolding find_cheapest spot_round find_spot look_at_spot find_on_demand look_at_on_demand
    set_on_demand look_at_limit valid_instances is_valid contains text_eq
find_cheapest-IsCheapest_example =
    find_cheapest-IsCheapest whole whole-IsOrdered tools args (m4 ∷ c4 ∷ []) chosen refl

make_bid-IsBidFor_example : IsBidFor whole tools 1 chosen (record chosen { price = 5 })
unfolding make_bid max_price bid_price
make_bid-IsBidFor_example =
    make_bid-IsBidFor whole whole-IsOrdered tools 1 chosen (record chosen { price = 5 }) refl

printed :
    automagic whole tools args
    ≡ ok (
        codes
          "ci_pg=is not using placement groups#ci_current_price=3#ci_inst_type=m4.large#ci_inst_price=5#ci_az=a#availability_zone=a#ci_args=-var leader_instance_type=m4.large -var follower_instance_type=m4.large -var 'leader_spot_price=\"5\"' -var 'follower_spot_price=\"5\"'")
unfolding automagic get_instances find_cheapest spot_round find_spot look_at_spot find_on_demand
    look_at_on_demand set_on_demand look_at_limit valid_instances is_valid contains make_bid
    max_price bid_price lookup text_eq
printed = refl
