-- ===== src/Cluster/Sinks.antt =====
-- How a cluster of demos/resilience-demo/lib/cluster.py waits for its sinks and senders. A list holds
-- what the threads of each sink see; a thread that has not ended keeps its caller waiting, which is
-- `none`.
use wallaroo.Base.{ℕ, ◌+◌, ◌-◌, Bool, true, false, Option, none, some, List, map, length, get_elem?}
use wallaroo.Base.{◌≡◌, refl}
use wallaroo.Base.{if◌then◌else◌, leb, Error, Result, ok, err, ◌>>=◌, index_error, timeout_error}
use wallaroo.Base.Int.{ℤ, pos, negsuc}
use wallaroo.Base.Dict.{Eq}
use wallaroo.Threads.{Thread, look}
use wallaroo.Control.{SinkExpect, SinkLook, sink_expect, AwaitLook, await_values}
use wallaroo.Control.Awaiting.{new_await}

-- A call that may wait for ever.
abbrev pub Call {ℓ} : Type ℓ → Type ℓ
Call B = Option (Result B)

abbrev pub and_then {ℓ κ} : {B : Type ℓ} {C : Type κ} → Call B → (B → Call C) → Call C
and_then none next = none
and_then (some (err e)) next = some (err e)
and_then (some (ok b)) next = next b

pub and_then-eq-ok {ℓ κ} :
    {B : Type ℓ} {C : Type κ} (m : Call B) (next : B → Call C) {c : C}
    → and_then m next ≡ some (ok c)
    → (b : B) × (m ≡ some (ok b)) × (next b ≡ some (ok c))
and_then-eq-ok none next h = cc
and_then-eq-ok (some (err e)) next h = cc
and_then-eq-ok (some (ok b)) next h = (b, refl, h)

-- A sink or a sender that is given, or its index in the cluster's list.
pub data Which (S : Type 0) : Type 0 where
  given : S → Which S
  index : ℤ → Which S

abbrev or_index_error {ℓ} : {S : Type ℓ} → Option S → Result S
or_index_error none = err index_error
or_index_error (some s) = ok s

-- `sinks[i]`
unfoldable pub item_at : {S : Type 0} → List S → ℤ → Result S
item_at ss (pos i) = or_index_error (get_elem? ss i)
item_at ss (negsuc i) =
    if leb (i + 1) (length ss)
    then or_index_error (get_elem? ss (length ss - (i + 1)))
    else err index_error

unfoldable pub choose : {S : Type 0} → List S → Which S → Result S
unfolding item_at
choose ss (given s) = ok s
choose ss (index i) = item_at ss i

abbrev pub result_of : {S : Type 0} → S → Option Error → Result S
result_of s none = ok s
result_of s (some e) = err e

-- `t.join()`, and `raise t.error` where there is one
abbrev pub joined : {S : Type 0} → S → Thread → Call S
joined s t = if t.stop_event then some (result_of s t.error) else none

-- A sink: what a thread that waits for it sees, and its messages at the end.
pub record SinkRun (A : Type 0) : Type 0 where
  pub expect_looks : List SinkLook
  pub await_looks : List (AwaitLook A)
  pub items : List A

unfoldable pub expect_at_sink :
    {A : Type 0} → List (SinkRun A) → SinkExpect → Which (SinkRun A) → Call (SinkRun A)
unfolding choose
expect_at_sink sinks c which =
    and_then (some (choose sinks which)) (λ s. joined s (sink_expect c (map look s.expect_looks)))

unfoldable pub await_at_sink :
    {A V : Type 0} ⦃e : Eq V⦄
    → (A → V)
    → List (SinkRun A)
    → List V
    → ℕ
    → Which (SinkRun A)
    → Call (SinkRun A)
unfolding choose
await_at_sink func sinks values timeout which =
    and_then (some (choose sinks which))
      (λ s. joined s (await_values func timeout s.await_looks (new_await func values)).thread)

-- A sender when `join` has returned.
pub record SenderEnd : Type 0 where
  pub error : Option Error
  pub is_alive : Bool

abbrev pub after_sender : SenderEnd → Result (Unit {0})
after_sender s = result_of s s.error >>= λ s'. if s'.is_alive then err timeout_error else ok tt

-- `wait_for_sender`
unfoldable pub wait_for_sender : List SenderEnd → Which SenderEnd → Result (Unit {0})
unfolding choose
wait_for_sender senders which = choose senders which >>= after_sender

-- Joined without an error, a thread has stopped without one.
pub joined-eq-ok :
    {S : Type 0} (s : S) (t : Thread) {s' : S}
    → joined s t ≡ some (ok s')
    → (t.stop_event ≡ true) × (t.error ≡ none)
joined-eq-ok s t {s'} h = go t.stop_event t.error h
  where
    go :
        (b : Bool) (e : Option Error)
        → (if b then some (result_of s e) else none) ≡ some (ok s')
        → (b ≡ true) × (e ≡ none)
    go true none h = (refl, refl)
    go true (some e) h = cc
    go false e h = cc
