-- ===== src/Automagic/Bids.antt =====
-- The bid of orchestration/terraform/automagic_instance.py: not below the current price, and not above
-- the on-demand price but for that.
use wallaroo.Base.{Bool, true, false, ◌⊎◌, inl, inr, Option, none, some, List, [], ◌∷◌, ◌≡◌}
use wallaroo.Base.{refl, sym, ◌∙◌}
use wallaroo.Base.{if◌then◌else◌, All, ok, >>=-eq-ok, ok-injective}
use wallaroo.Base.Int.{pos, negsuc}
use wallaroo.Automagic.{Floats, SpotPrice, Cheapest, Tools}
use wallaroo.Automagic.Output.{max_price, bid_price, history, make_bid}
use wallaroo.Automagic.Passes.{IsOrdered}
use mathlib.Core.Path.{subst}
use mathlib.Core.List.{Memᴰ}

module _ {F : Type 0} (fl : Floats F) where
  -- The price that the text says is not above `m`.
  abbrev pub IsAbove : F → SpotPrice → Type 0
  IsAbove m sp = (p : F) → fl.float sp.price ≡ ok p → fl.is_less m p ≡ false

  -- The bid `b` of a highest price, for the current price and the limit of the choice.
  pub record IsBid (factor current limit highest b : F) : Type 0 where
    pub not_below : fl.is_less b current ≡ false
    pub not_above : fl.is_less limit current ≡ false → fl.is_less limit b ≡ false
    pub one_of : (b ≡ fl.times highest factor) ⊎ (b ≡ limit) ⊎ (b ≡ current)
    pub uncapped :
        fl.is_less limit (fl.times highest factor) ≡ false
        → fl.is_less (fl.times highest factor) current ≡ false
        → b ≡ fl.times highest factor

  pub record IsBidFor (tools : Tools) (factor : F) (c b : Cheapest F) : Type 0 where
    pub last6 : List SpotPrice
    pub last6_of : history fl tools c (negsuc 5) (pos 0) ≡ ok last6
    pub weekago : List SpotPrice
    pub weekago_of : history fl tools c (negsuc 173) (negsuc 161) ≡ ok weekago
    pub limit : F
    pub limit_of : c.on_demand_price ≡ some limit
    pub highest : F
    pub above_price : fl.is_less highest c.price ≡ false
    pub above_last6 : All (IsAbove highest) last6
    pub above_weekago : All (IsAbove highest) weekago
    pub highest_of :
        (highest ≡ c.price)
        ⊎ (sp : SpotPrice) × (Memᴰ sp last6 ⊎ Memᴰ sp weekago) × (fl.float sp.price ≡ ok highest)
    pub bid : IsBid factor c.current_price limit highest b.price
    pub same_choice : b ≡ record c { price = b.price }

  module _ (o : IsOrdered fl) where
    IsBid-of_limit :
        (factor current limit highest : F) (over : Bool)
        → fl.is_less limit (fl.times highest factor) ≡ over
        → (under : Bool)
        → fl.is_less (if over then limit else fl.times highest factor) current ≡ under
        → IsBid factor current limit highest
            (if under then current else (if over then limit else fl.times highest factor))
    IsBid-of_limit factor current limit highest over h true u = record {
      not_below = o.irrefl current;
      not_above = λ l. l;
      one_of = inr (inr refl);
      uncapped = over_uncapped over h u;
    }
      where
        over_uncapped :
            (over : Bool)
            → fl.is_less limit (fl.times highest factor) ≡ over
            → fl.is_less (if over then limit else fl.times highest factor) current ≡ true
            → fl.is_less limit (fl.times highest factor) ≡ false
            → fl.is_less (fl.times highest factor) current ≡ false
            → current ≡ fl.times highest factor
        over_uncapped true h u a b = cc
        over_uncapped false h u a b = cc
    IsBid-of_limit factor current limit highest true h false u = record {
      not_below = u;
      not_above = λ _. o.irrefl limit;
      one_of = inr (inl refl);
      uncapped = λ a b. cc;
    }
    IsBid-of_limit factor current limit highest false h false u = record {
      not_below = u;
      not_above = λ _. h;
      one_of = inl refl;
      uncapped = λ a b. refl;
    }

    bid_price-IsBid :
        (factor : F) (c : Cheapest F) (highest bid : F) (found : Option F)
        → c.on_demand_price ≡ found
        → bid_price fl factor c highest ≡ ok bid
        → (limit : F) × (c.on_demand_price ≡ some limit)
          × IsBid factor c.current_price limit highest bid
    unfolding bid_price
    bid_price-IsBid factor c highest bid none f e = let raised = rw f at e in cc
    bid_price-IsBid factor c highest bid (some limit) f e = (
      limit,
      f,
      subst (IsBid factor c.current_price limit highest) (ok-injective (rw f at e)) (
          IsBid-of_limit factor c.current_price limit highest
            (fl.is_less limit (fl.times highest factor)) refl _ refl),
    )

    larger :
        (m p : F) (less : Bool)
        → fl.is_less m p ≡ less
        → (fl.is_less (if less then p else m) m ≡ false)
          × (fl.is_less (if less then p else m) p ≡ false)
    larger m p true h = (o.asym m p h, o.irrefl p)
    larger m p false h = (o.irrefl m, h)

    IsAbove-self :
        (m p : F) (sp : SpotPrice)
        → fl.float sp.price ≡ ok p
        → fl.is_less m p ≡ false
        → IsAbove m sp
    IsAbove-self m p sp e h q e' = subst (λ x. fl.is_less m x ≡ false) (ok-injective (sym e ∙ e')) h

    IsAbove-higher :
        (m m' : F) (sps : List SpotPrice)
        → fl.is_less m' m ≡ false
        → All (IsAbove m) sps
        → All (IsAbove m') sps
    IsAbove-higher m m' [] h a = tt
    IsAbove-higher m m' (sp ∷ sps) h (a, as') =
        ((λ p e. o.trans p m m' (a p e) h), IsAbove-higher m m' sps h as')

    -- The highest price is that of the rows and of what it began with.
    max_price-highest :
        (m h : F) (sps : List SpotPrice)
        → max_price fl m sps ≡ ok h
        → (fl.is_less h m ≡ false) × All (IsAbove h) sps
    unfolding max_price
    max_price-highest m h [] e =
        (subst (λ x. fl.is_less x m ≡ false) (ok-injective e) (o.irrefl m), tt)
    max_price-highest m h (sp ∷ sps) e =
        let (p, ep, e1) = >>=-eq-ok (fl.float sp.price) _ e in
        let m' : F = if fl.is_less m p then p else m in
        let (low, above) = max_price-highest m' h sps e1 in
        let (l1, l2) = larger m p (fl.is_less m p) refl in
        (o.trans m m' h l1 low, (IsAbove-self h p sp ep (o.trans p m' h l2 low), above))

    -- Where the highest price comes from.
    From : F → F → List SpotPrice → Type 0
    From m h sps = (h ≡ m) ⊎ (sp : SpotPrice) × Memᴰ sp sps × (fl.float sp.price ≡ ok h)

    From-cons :
        (m p h : F) (less : Bool) (sp : SpotPrice) (sps : List SpotPrice)
        → fl.float sp.price ≡ ok p
        → From (if less then p else m) h sps
        → From m h (sp ∷ sps)
    unfolding From
    From-cons m p h less sp sps e (inr (x, m', ex)) = inr (x, Memᴰ.tail m', ex)
    From-cons m p h true sp sps e (inl q) = inr (sp, Memᴰ.head refl, rw q e)
    From-cons m p h false sp sps e (inl q) = inl q

    max_price-From : (m h : F) (sps : List SpotPrice) → max_price fl m sps ≡ ok h → From m h sps
    unfolding max_price From
    max_price-From m h [] e = inl (sym (ok-injective e))
    max_price-From m h (sp ∷ sps) e =
        let (p, ep, e1) = >>=-eq-ok (fl.float sp.price) _ e in
        From-cons m p h (fl.is_less m p) sp sps ep
          (max_price-From (if fl.is_less m p then p else m) h sps e1)

    highest-From :
        (m h6 h : F) (last6 weekago : List SpotPrice)
        → From m h6 last6
        → From h6 h weekago
        → (h ≡ m)
          ⊎ (sp : SpotPrice) × (Memᴰ sp last6 ⊎ Memᴰ sp weekago) × (fl.float sp.price ≡ ok h)
    unfolding From
    highest-From m h6 h last6 weekago (inl a) (inl b) = inl (b ∙ a)
    highest-From m h6 h last6 weekago (inr (x, k, e)) (inl b) = inr (x, inl k, rw b e)
    highest-From m h6 h last6 weekago a (inr (x, k, e)) = inr (x, inr k, e)

    -- Where the prices that `float` reads are ordered and a bid is made, the choice has an on-demand
    -- price. The bid is not below the current price, and it is not above the on-demand price unless
    -- that is below the current price. The bid is the highest price of both histories and of the
    -- choice times the factor, or one of these two caps; it is the former where no cap applies.
    -- Nothing else of the choice changes.
    pub make_bid-IsBidFor :
        (tools : Tools) (factor : F) (c b : Cheapest F)
        → make_bid fl tools factor c ≡ ok b
        → IsBidFor tools factor c b
    unfolding make_bid
    make_bid-IsBidFor tools factor c b e =
        let (last6, e6, e1) = >>=-eq-ok (history fl tools c (negsuc 5) (pos 0)) _ e in
        let (weekago, ew, e2) = >>=-eq-ok (history fl tools c (negsuc 173) (negsuc 161)) _ e1 in
        let (h6, eh6, e3) = >>=-eq-ok (max_price fl c.price last6) _ e2 in
        let (h, eh, e4) = >>=-eq-ok (max_price fl h6 weekago) _ e3 in
        let (bid, eb, e5) = >>=-eq-ok (bid_price fl factor c h) _ e4 in
        let (limit, el, is) = bid_price-IsBid factor c h bid c.on_demand_price refl eb in
        let (low6, above6) = max_price-highest c.price h6 last6 eh6 in
        let (low, above) = max_price-highest h6 h weekago eh in
        let eq : record c { price = bid } ≡ b = ok-injective e5 in
        record {
          last6 = last6;
          last6_of = e6;
          weekago = weekago;
          weekago_of = ew;
          limit = limit;
          limit_of = el;
          highest = h;
          above_price = o.trans c.price h6 h low6 low;
          above_last6 = IsAbove-higher h6 h last6 low above6;
          above_weekago = above;
          highest_of =
              highest-From c.price h6 h last6 weekago (max_price-From c.price h6 last6 eh6)
                (max_price-From h6 h weekago eh);
          bid = subst (λ x. IsBid factor c.current_price limit h x.price) eq is;
          same_choice = subst (λ x. x ≡ record c { price = x.price }) eq refl;
        }
