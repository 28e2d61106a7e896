-- ===== src/Cluster/Init/Ports.antt =====
-- How the ports that a cluster of demos/resilience-demo/lib/cluster.py asks for are given out.
use wallaroo.Base.{
  ℕ, zero, suc, ◌+◌, ◌*◌, ◌≡◌, refl, ap, ◌∙◌, arith, Bool, some, List, [], ◌∷◌, ◌++◌, map, take,
  drop, length, length-take, length-drop, length-map, take-append-drop,
}
use wallaroo.Base.Text.{Text}
use wallaroo.External.{get_port_values}
use wallaroo.External.Ports.{IsRising, get_port_values-IsRising}
use wallaroo.Cluster.Start.{Addresses}
use wallaroo.Cluster.Init.{Config, address, in_threes, split_addresses}

-- The addresses of the workers in their order.
abbrev pub all_addresses : List Addresses → List Text
all_addresses [] = []
all_addresses (a ∷ as') = a.my_control ∷ a.my_data ∷ a.my_external ∷ all_addresses as'

in_threes_all :
    (n : ℕ) (xs : List Text)
    → length xs ≡ 3 * n
    → (length (in_threes xs) ≡ n) × (all_addresses (in_threes xs) ≡ xs)
unfolding in_threes
in_threes_all zero [] h = (refl, refl)
in_threes_all zero (a ∷ xs) h = absurd (omega arith)
in_threes_all (suc n) [] h = absurd (omega arith)
in_threes_all (suc n) (a ∷ []) h = absurd (omega arith)
in_threes_all (suc n) (a ∷ b ∷ []) h = absurd (omega arith)
in_threes_all (suc n) (a ∷ b ∷ c ∷ xs) h =
    let (count, all) = in_threes_all n xs (omega arith) in
    (ap suc count, ap (λ t. a ∷ b ∷ c ∷ t) all)

-- The ports that a cluster asks for are free and rise, so no two are equal. Each source gets one of
-- their addresses, and each worker three, in this order: every address is given out, and just once.
pub split_addresses-all :
    (is_free : ℕ → Bool) (fuel base : ℕ) (c : Config) (ports : List ℕ)
    → get_port_values is_free fuel (c.sources + 3 * c.workers) base ≡ some ports
    → let (source_addrs, worker_addrs) = split_addresses c ports in
      IsRising is_free base (base + fuel) ports
      × (length source_addrs ≡ c.sources)
      × (length worker_addrs ≡ c.workers)
      × (source_addrs ++ all_addresses worker_addrs ≡ map (address c.host) ports)
unfolding split_addresses
split_addresses-all is_free fuel base c ports e =
    let (count, rising) =
      get_port_values-IsRising is_free fuel (c.sources + 3 * c.workers) base ports e in
    let addresses = map (address c.host) ports in
    let total : length addresses ≡ c.sources + 3 * c.workers =
      length-map (address c.host) ports ∙ count in
    let front : length (take c.sources addresses) ≡ c.sources =
      omega (arith, length-take c.sources addresses) in
    let back : length (drop c.sources addresses) ≡ 3 * c.workers =
      omega (arith, length-drop c.sources addresses) in
    let (workers, all) = in_threes_all c.workers (drop c.sources addresses) back in
    (
      rising,
      front,
      workers,
      ap (λ t. take c.sources addresses ++ t) all ∙ take-append-drop c.sources addresses,
    )
