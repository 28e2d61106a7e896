-- ===== src/Control/Awaiting.antt =====
-- `SinkAwaitValue`: what it has found when it stops.
use wallaroo.Base.{ℕ, ◌+◌, ◌<◌, ◌≤◌, ◌≡◌, ◌↔◌, refl, sym, ap, ◌∙◌, true, false, none}
use wallaroo.Base.{
  some, List, [], ◌∷◌, ◌++◌, map, All, arith, timeout_error, drop, length, Bool-cases, inl, inr,
}
use wallaroo.Base.{if◌then◌else◌, le→ltb, lt→ltb, length-append, drop-append_left}
use wallaroo.Base.Dict.{Eq, same, contains, same_refl}
use mathlib.Core.List.{map-append}
use wallaroo.Threads.{stop}
use wallaroo.Control.{
  SinkAwaitValue, AwaitLook, discard, no_values, scan_items, await_round, await_values,
}

contains-discard :
    {V : Type 0} ⦃e : Eq V⦄ (seen v : V) (vs : List V)
    → contains (discard seen vs) v ≡ (if same seen v then false else contains vs v)
unfolding contains discard
contains-discard seen v [] = ground arith
contains-discard seen v (x ∷ vs) = ground (arith, contains-discard seen v vs)

no_values-contains :
    {V : Type 0} ⦃e : Eq V⦄ (vs : List V)
    → (no_values vs ≡ true) ↔ ((v : V) → contains vs v ≡ false)
unfolding contains
no_values-contains [] = ((λ h v. refl), λ h. refl)
no_values-contains (x ∷ vs) = (
  (λ h. cc),
  (λ h.
      let here : contains (x ∷ vs) x ≡ true = rw (same_refl x) refl in
      let gone : contains (x ∷ vs) x ≡ false = h x in cc),
)

module _ {A V : Type 0} ⦃e : Eq V⦄ (func : A → V) where
  -- Of a scan that began with values still wanted, by a thread that runs.
  record Scanned (items : List A) (s s' : SinkAwaitValue A V) : Type 0 where
    found :
        (v : V)
        → contains s'.wanted v
          ≡ (if contains (map func items) v then false else contains s.wanted v)
    stopped : s'.thread.stop_event ≡ no_values s'.wanted
    no_error : s'.thread.error ≡ s.thread.error
    same_items : s'.sink_items ≡ s.sink_items
    position : s'.thread.stop_event ≡ false → s'.position ≡ s.position + length items

  scan_items-Scanned :
      (items : List A) (s : SinkAwaitValue A V)
      → s.thread.stop_event ≡ false
      → no_values s.wanted ≡ false
      → Scanned items s (scan_items func items s)
  unfolding scan_items contains stop
  scan_items-Scanned [] s r w = record {
    found = λ v. refl;
    stopped = r ∙ sym w;
    no_error = refl;
    same_items = refl;
    position = λ h. omega arith;
  }
  scan_items-Scanned (item ∷ items) s r w =
      elim (Bool-cases (no_values (discard (func item) s.wanted))) [
        | inl done ↦
            let none_left = (no_values-contains (discard (func item) s.wanted)).0 done in
            rw done (record {
              found = λ v. ground (arith, none_left v, contains-discard (func item) v s.wanted);
              stopped = sym done;
              no_error = refl;
              same_items = refl;
              position = λ h. cc;
            })
        | inr more ↦
            let s1 : SinkAwaitValue A V = record s {
              wanted = discard (func item) s.wanted;
              position = s.position + 1;
            } in
            let ih = scan_items-Scanned items s1 r more in
            rw more (record {
              found = λ v. ground (arith, ih.found v, contains-discard (func item) v s.wanted);
              stopped = ih.stopped;
              no_error = ih.no_error;
              same_items = ih.same_items;
              position = λ h. omega (arith, ih.position h);
            })
      ]

  -- What a thread that waits for `values` knows after its looks, each in time.
  pub record IsSeen (values : List V) (s : SinkAwaitValue A V) : Type 0 where
    pub found :
        (v : V)
        → contains s.wanted v
          ≡ (if contains (map func s.sink_items) v then false else contains values v)
    pub stopped : s.thread.stop_event ≡ no_values s.wanted
    pub no_error : s.thread.error ≡ none
    pub position : s.thread.stop_event ≡ false → s.position ≡ length s.sink_items

  -- `SinkAwaitValue(sink, values)`
  unfoldable pub new_await : List V → SinkAwaitValue A V
  new_await values = record {
    sink_items = [];
    wanted = values;
    position = 0;
    thread = record { stop_event = false; error = none };
  }

  contains-append :
      (xs ys : List V) (v : V)
      → contains (xs ++ ys) v ≡ (if contains xs v then true else contains ys v)
  unfolding contains
  contains-append [] ys v = refl
  contains-append (x ∷ xs) ys v = ground (arith, contains-append xs ys v)

  all_items :
      (s : SinkAwaitValue A V) (o : AwaitLook A) {l : List A}
      → l ≡ s.sink_items ++ o.arrived
      → (v : V)
      → contains (map func l) v
        ≡ (if contains (map func s.sink_items) v then true else contains (map func o.arrived) v)
  all_items s o same v =
      ap (λ l. contains (map func l) v) same
      ∙ ap (λ l. contains l v) (map-append func s.sink_items o.arrived)
      ∙ contains-append (map func s.sink_items) (map func o.arrived) v

  await_round-IsSeen :
      (values : List V) (timeout : ℕ) (o : AwaitLook A) (s : SinkAwaitValue A V)
      → o.elapsed ≤ timeout
      → s.thread.stop_event ≡ false
      → IsSeen values s
      → IsSeen values (await_round func timeout o s)
  unfolding await_round
  await_round-IsSeen values timeout o s t r h =
      let items = s.sink_items ++ o.arrived in
      let new : drop s.position items ≡ o.arrived =
        drop-append_left s.position s.sink_items o.arrived (sym (h.position r)) in
      let sc =
        scan_items-Scanned o.arrived (record s { sink_items = items }) r (sym h.stopped ∙ r) in
      rw (le→ltb timeout o.elapsed t, new)
        (record {
          found = λ v. ground (arith, sc.found v, h.found v, all_items s o sc.same_items v);
          stopped = sc.stopped;
          no_error = sc.no_error ∙ h.no_error;
          position = λ q. omega (
            arith,
            sc.position q,
            h.position r,
            ap length sc.same_items,
            length-append {0} s.sink_items o.arrived,
          );
        })

  await_values-IsSeen :
      (values : List V) (timeout : ℕ) (os : List (AwaitLook A)) (s : SinkAwaitValue A V)
      → All (λ o. o.elapsed ≤ timeout) os
      → IsSeen values s
      → IsSeen values (await_values func timeout os s)
  unfolding await_values
  await_values-IsSeen values timeout [] s t h = h
  await_values-IsSeen values timeout (o ∷ os) s (t, ts) h = elim (Bool-cases s.thread.stop_event) [
    | inl stopped ↦ simp stopped h
    | inr runs ↦ simp runs (
        await_values-IsSeen values timeout os (await_round func timeout o s) ts
          (await_round-IsSeen values timeout o s t runs h))
  ]

  -- While there is time, a thread that waits for some values raises no error, and it has stopped
  -- just where each of them is among the messages that it has seen.
  pub await_values_found :
      (values : List V) (timeout : ℕ) (os : List (AwaitLook A))
      → no_values values ≡ false
      → All (λ o. o.elapsed ≤ timeout) os
      → let s = await_values func timeout os (new_await values) in
        (s.thread.error ≡ none)
        × ((s.thread.stop_event ≡ true)
            ↔ ((v : V) → contains values v ≡ true → contains (map func s.sink_items) v ≡ true))
  unfolding new_await contains
  await_values_found values timeout os w t =
      let h =
        await_values-IsSeen values timeout os (new_await values) t
          (record { found = λ v. refl; stopped = sym w; no_error = refl; position = λ q. refl }) in
      (
        h.no_error,
        (
          (λ q v m. ground (arith, h.found v, (no_values-contains _).0 (sym h.stopped ∙ q) v)),
          λ all. h.stopped ∙ (no_values-contains _).1 (λ v. ground (arith, h.found v, all v)),
        ),
      )

  -- A round that comes after the time is over ends with an error, though all the values be found.
  pub await_round-late :
      (timeout : ℕ) (o : AwaitLook A) (s : SinkAwaitValue A V)
      → timeout < o.elapsed
      → (await_round func timeout o s).thread
        ≡ record { stop_event = true; error = some timeout_error }
  unfolding await_round stop
  await_round-late timeout o s h = rw (lt→ltb timeout o.elapsed h) refl
