-- ===== src/Connector/Unfound.antt =====
-- What a connector of machida/lib/wallaroo/experimental/__init__.py finds in an application.
use wallaroo.Base.{
  ℕ, Bool, true, false, List, [], ◌∷◌, ◌≡◌, refl, sym, ap, ◌∙◌, ◌≢◌, Bool-cases, inl, inr, length,
  map,
}
use wallaroo.Base.{if◌then◌else◌, Result, ok, err, ◌>>=◌, runtime_error, arith}
use wallaroo.Base.Text.{Text, codes}
use wallaroo.Base.Dict.{same, same→≡, text_eq}
use wallaroo.Pipeline.{AppTuple}
use wallaroo.Pipeline.Objects.{Store, build_application}
use wallaroo.Connector.Setup.{
  Action, action, find_action, or_runtime_error, source_connector, sink_connector, items_of,
}

-- One character is not a command of more.
short_same : (c x y : ℕ) (t : Text) → same (c ∷ []) (x ∷ y ∷ t) ≡ false
short_same c x y t = elim (Bool-cases (same (c ∷ []) (x ∷ y ∷ t))) [
  | inl e ↦ let q = ap length (same→≡ (c ∷ []) (x ∷ y ∷ t) e) in absurd (omega (arith, q))
  | inr e ↦ e
]

module _ {A : Type 0} where
  find_action-items_of :
      (x y : ℕ) (t name : Text) (app : AppTuple A)
      → or_runtime_error (find_action (x ∷ y ∷ t) name (items_of app)) ≡ err runtime_error
  unfolding find_action
  find_action-items_of x y t name ([], root_idx, vs, es) = refl
  find_action-items_of x y t name (c ∷ n, root_idx, vs, es) = rw (short_same c x y t) refl

  -- Among tuples of its own kind a connector finds the first with its command and name.
  abbrev pub first_match : Text → Text → List (Action A) → Result (Action A)
  first_match command name [] = err runtime_error
  first_match command name (a ∷ rest) =
      let more = first_match command name rest in
      if same a.command command then (if same a.name name then ok a else more) else more

  find_action-first_match :
      (command name : Text) (actions : List (Action A))
      → or_runtime_error (find_action command name (map action actions))
        ≡ first_match command name actions
  unfolding find_action
  find_action-first_match command name [] = refl
  find_action-first_match command name (a ∷ rest) =
      go (same a.command command) (same a.name name) (find_action-first_match command name rest)
    where
      found : Bool → Bool → Result Bool
      found is_command is_name = if is_command then ok is_name else ok false

      go :
          (is_command is_name : Bool)
          → or_runtime_error (find_action command name (map action rest))
            ≡ first_match command name rest
          → or_runtime_error (
              found is_command is_name >>= λ b.
              if b then ok a else find_action command name (map action rest))
            ≡ (if is_command
                then (if is_name then ok a else first_match command name rest)
                else first_match command name rest)
      go true true ih = refl
      go true false ih = ih
      go false is_name ih = ih

  -- No application that `build_application` returns has an entry for a connector: whatever the
  -- pipelines and the name, neither a source connector nor a sink connector can be made of it, although
  -- among entries of its own kind each finds the first with its name.
  pub connector_unfound :
      (app_name name : Text) (p : ℕ) (s : Store A) (a : Action A) (actions : List (Action A))
      → ((build_application app_name p s >>= λ app. source_connector name (items_of app)) ≢ ok a)
        × ((build_application app_name p s >>= λ app. sink_connector name (items_of app)) ≢ ok a)
        × (source_connector name (map action actions)
            ≡ first_match (codes "source_connector") name actions)
        × (sink_connector name (map action actions)
            ≡ first_match (codes "sink_connector") name actions)
  unfolding source_connector sink_connector
  connector_unfound app_name name p s a actions = (
    go (build_application app_name p s),
    go' (build_application app_name p s),
    find_action-first_match _ name actions,
    find_action-first_match _ name actions,
  )
    where
      go : (r : Result (AppTuple A)) → (r >>= λ app. source_connector name (items_of app)) ≢ ok a
      go (err e) h = cc
      go (ok app) h = let raised = sym (find_action-items_of _ _ _ name app) ∙ h in cc

      go' : (r : Result (AppTuple A)) → (r >>= λ app. sink_connector name (items_of app)) ≢ ok a
      go' (err e) h = cc
      go' (ok app) h = let raised = sym (find_action-items_of _ _ _ name app) ∙ h in cc
