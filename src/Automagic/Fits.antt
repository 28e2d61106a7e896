-- ===== src/Automagic/Fits.antt =====
-- The instances that orchestration/terraform/automagic_instance.py takes into account.
use mathlib.Core.List.{Memᴰ}
use mathlib.Core.Path.{subst}
use wallaroo.Base.{Bool, true, false, not, ◌&&◌, List, [], ◌∷◌, ◌≡◌, refl}
use wallaroo.Base.{if◌then◌else◌, ok, ◌>>=◌, >>=-eq-ok, ok-injective}
use wallaroo.Base.Text.{Text}
use wallaroo.Base.Dict.{same, same→≡, contains, text_eq}
use wallaroo.Automagic.{
  Floats, Instance, Args, vcpu_float, is_valid, is_wanted, pv_insts, valid_instances,
}

module _ {F : Type 0} (fl : Floats F) where
  -- A listed instance of that size has what is asked for.
  pub record Fitting (args : Args F) (instances : List Instance) (t : Text) : Type 0 where
    pub row : Instance
    pub listed : Memᴰ row instances
    pub named : row.size ≡ t
    pub cpu : F
    pub cpu_of : vcpu_float fl row.vcpu ≡ ok cpu
    pub enough_cpus : fl.at_least cpu args.cpus ≡ true
    pub gib : F
    pub gib_of : fl.float row.memory_gib ≡ ok gib
    pub enough_mem : fl.at_least gib args.mem ≡ true
    pub no_pv : contains pv_insts row.size ≡ false
    pub wanted : is_wanted args.instance_type row.size ≡ true

  row_fits :
      (args : Args F) (i : Instance) (is : List Instance)
      → is_valid fl args i ≡ ok true
      → is_wanted args.instance_type i.size ≡ true
      → Fitting args (i ∷ is) i.size
  unfolding is_valid
  row_fits args i is h w =
      let (v, ev, h1) = >>=-eq-ok (vcpu_float fl i.vcpu) _ h in
      cpu_fits v ev (fl.at_least v args.cpus) refl h1
    where
      mem_fits :
          (v : F)
          → vcpu_float fl i.vcpu ≡ ok v
          → fl.at_least v args.cpus ≡ true
          → (m : F) → fl.float i.memory_gib ≡ ok m
          → (enough pv : Bool) → fl.at_least m args.mem ≡ enough
          → contains pv_insts i.size ≡ pv
          → (enough && not pv) ≡ true
          → Fitting args (i ∷ is) i.size
      mem_fits v ev ec m em true false hm hp e = record {
        row = i;
        listed = Memᴰ.head refl;
        named = refl;
        cpu = v;
        cpu_of = ev;
        enough_cpus = ec;
        gib = m;
        gib_of = em;
        enough_mem = hm;
        no_pv = hp;
        wanted = w;
      }
      mem_fits v ev ec m em true true hm hp e = cc
      mem_fits v ev ec m em false pv hm hp e = cc

      cpu_fits :
          (v : F)
          → vcpu_float fl i.vcpu ≡ ok v
          → (enough : Bool) → fl.at_least v args.cpus ≡ enough
          → (if enough
              then (fl.float i.memory_gib >>= λ m.
                  ok (fl.at_least m args.mem && not (contains pv_insts i.size)))
              else ok false)
            ≡ ok true
          → Fitting args (i ∷ is) i.size
      cpu_fits v ev true ec h1 =
          let (m, em, h2) = >>=-eq-ok (fl.float i.memory_gib) _ h1 in
          mem_fits v ev ec m em (fl.at_least m args.mem) (contains pv_insts i.size) refl refl
            (ok-injective h2)
      cpu_fits v ev false ec h1 = cc

  Fitting-cons :
      (args : Args F) (i : Instance) (is : List Instance) (t : Text)
      → Fitting args is t
      → Fitting args (i ∷ is) t
  Fitting-cons args i is t f = record {
    row = f.row;
    listed = Memᴰ.tail f.listed;
    named = f.named;
    cpu = f.cpu;
    cpu_of = f.cpu_of;
    enough_cpus = f.enough_cpus;
    gib = f.gib;
    gib_of = f.gib_of;
    enough_mem = f.enough_mem;
    no_pv = f.no_pv;
    wanted = f.wanted;
  }

  pub valid_instances_fit :
      (args : Args F) (is : List Instance) (valid : List Text)
      → valid_instances fl args is ≡ ok valid
      → (t : Text) → contains valid t ≡ true
      → Fitting args is t
  unfolding valid_instances contains
  valid_instances_fit args [] valid e t h = let none_left = rw (← ok-injective e) at h in cc
  valid_instances_fit args (i ∷ is) valid e t h =
      let (fits, ef, e1) = >>=-eq-ok (is_valid fl args i) _ e in
      let (rest, er, e2) = >>=-eq-ok (valid_instances fl args is) _ e1 in
      go fits rest ef (is_wanted args.instance_type i.size) refl (ok-injective e2)
        (valid_instances_fit args is rest er t)
    where
      named :
          (rest : List Text) (b : Bool)
          → is_valid fl args i ≡ ok true
          → is_wanted args.instance_type i.size ≡ true
          → same i.size t ≡ b
          → (if b then true else contains rest t) ≡ true
          → (contains rest t ≡ true → Fitting args is t)
          → Fitting args (i ∷ is) t
      named rest true ef ew s e ih =
          subst (Fitting args (i ∷ is)) (same→≡ i.size t s) (row_fits args i is ef ew)
      named rest false ef ew s e ih = Fitting-cons args i is t (ih e)

      go :
          (fits : Bool) (rest : List Text)
          → is_valid fl args i ≡ ok fits
          → (wanted : Bool) → is_wanted args.instance_type i.size ≡ wanted
          → (if fits && wanted then i.size ∷ rest else rest) ≡ valid
          → (contains rest t ≡ true → Fitting args is t)
          → Fitting args (i ∷ is) t
      go true rest ef true ew e2 ih = named rest (same i.size t) ef ew refl (rw (← e2) at h) ih
      go true rest ef false ew e2 ih = Fitting-cons args i is t (ih (rw (← e2) at h))
      go false rest ef wanted ew e2 ih = Fitting-cons args i is t (ih (rw (← e2) at h))
