-- ===== src/Pipeline/Tests.antt =====
-- Runs of the pipeline API, and its theorems at concrete inputs: two sources that merge.
use wallaroo.Base.{ℕ, true, false, List, [], ◌∷◌, ◌≡◌, refl, length, get_elem?}
use wallaroo.Base.{Result, ok, err, attribute_error, arith}
use wallaroo.Base.{◌>>=◌, ◌≢◌, runtime_error}
use wallaroo.Base.Text.{codes}
use wallaroo.Base.Dict.{text_eq}
use wallaroo.Connector.Setup.{Action, action, source_connector, sink_connector, items_of}
use wallaroo.Connector.Unfound.{connector_unfound}
use wallaroo.Pipeline.Config.{tcp, gen, tcp_source, gen_source, tcp_sink}
use wallaroo.Pipeline.Config.{source_to_tuple, sink_to_tuple}
use wallaroo.Pipeline.{
  Stage, source, to_state, key_by, to_sink, named, config, AppTuple, to_tuple, clone, merge,
  new_tree, add_stage,
}
use wallaroo.Pipeline.Plan.{leaf, join, Denotes}
use wallaroo.Pipeline.Objects.{
  Store, Call, from_source, call_to, call_key_by, call_to_sink, call_merge, exec, exec_all,
  build_application, sink_arg, stage_of_computation,
}
use wallaroo.Pipeline.Objects.Spec.{Values, spec_exec}
use wallaroo.Pipeline.Objects.Simulation.{Implements}
use wallaroo.Pipeline.Objects.Correct.{
  spec_exec_all, exec_all-Implements, exec_keeps, build_application_closed,
  build_application_of_merged_closed,
}

-- `orders.merge(market_data).key_by(1).to(2).to_sink(…)`, as in the market spread example.
abbrev calls : List (Call ℕ)
calls =
    from_source (codes "Orders") (tcp_source (codes "h") (codes "1") 10)
    ∷ from_source (codes "Market") (gen_source 11)
    ∷ call_merge 0 1
    ∷ call_key_by 2 1
    ∷ call_to 4 (record { is_stateful = true; object = 2 })
    ∷ call_to_sink 5 (config (tcp_sink (codes "h") (codes "2") 12))
    ∷ []

store : Store ℕ
unfolding exec_all exec clone merge new_tree add_stage sink_arg stage_of_computation
store = (exec_all calls []).1

values : Values ℕ
unfolding spec_exec_all spec_exec sink_arg stage_of_computation
values = (spec_exec_all calls []).1

app : Result (AppTuple ℕ)
unfolding build_application to_tuple store
app = build_application (codes "app") 6 store

abbrev orders : List (Stage ℕ)
orders = source (codes "Orders") (tcp (codes "h") (codes "1") 10) ∷ []

abbrev market : List (Stage ℕ)
market = source (codes "Market") (gen 11) ∷ []

abbrev after_merge : List (Stage ℕ)
after_merge = key_by 1 ∷ to_state 2 ∷ to_sink (tcp (codes "h") (codes "2") 12) ∷ []

market_spread_tables :
    app ≡ ok (codes "app", 1, orders ∷ after_merge ∷ market ∷ [], [] ∷ (0 ∷ 2 ∷ []) ∷ [] ∷ [])
unfolding app source_to_tuple sink_to_tuple
market_spread_tables = refl

sink_by_name :
    (exec_all {A = ℕ}
      (from_source (codes "s") (gen_source 1) ∷ call_to_sink 0 (named (codes "k")) ∷ [])
      []).0
    ≡ err attribute_error
unfolding exec_all exec sink_arg
sink_by_name = refl

implements : Implements store values
unfolding store values
implements = (exec_all-Implements calls [] [] tt).1

exec_all-Implements_example :
    ((exec_all calls []).0 ≡ (spec_exec_all calls []).0)
    × Implements (exec_all calls []).1 (spec_exec_all calls []).1
exec_all-Implements_example = exec_all-Implements calls [] [] tt

store-length : length store ≡ 7
unfolding store source_to_tuple sink_to_tuple
store-length = refl

row_kept : get_elem? (exec (call_merge 0 1) store).1 2 ≡ get_elem? store 2
row_kept = exec_keeps (call_merge 0 1) store 2 (omega (arith, store-length))

closed_application :
    (out : AppTuple ℕ) × (build_application (codes "app") 6 store ≡ ok out)
    × (out.0 ≡ codes "app")
    × Denotes out.2 out.3 out.1 (join (leaf orders) (leaf market) after_merge)
unfolding values source_to_tuple sink_to_tuple
closed_application =
    build_application_closed (codes "app") 6 store values
      (join (leaf orders) (leaf market) after_merge) implements refl

merged_closed_application :
    (out : AppTuple ℕ) × (build_application
        (codes "app")
        (length store)
        (exec (call_merge 6 0) store).1
      ≡ ok out)
    × Denotes out.2 out.3 out.1
        (join (join (leaf orders) (leaf market) after_merge) (leaf orders) [])
unfolding store values source_to_tuple sink_to_tuple
merged_closed_application =
    build_application_of_merged_closed (codes "app") 6 0 store values
      (join (leaf orders) (leaf market) after_merge) (leaf orders) false implements refl refl

abbrev entry : Action ℕ
entry = record {
  command = codes "source_connector";
  name = codes "in";
  port = codes "7100";
  encoder = 1;
  decoder = 2;
}

connector_unfound_example :
    ((build_application (codes "app") 6 store >>= λ app.
    source_connector (codes "in") (items_of app))
      ≢ ok entry)
    × ((build_application (codes "app") 6 store >>= λ app.
          sink_connector (codes "in") (items_of app))
        ≢ ok entry)
    × (source_connector (codes "in") (action entry ∷ []) ≡ ok entry)
    × (sink_connector (codes "in") (action entry ∷ []) ≡ err runtime_error)
unfolding text_eq
connector_unfound_example = connector_unfound (codes "app") (codes "in") 6 store entry (entry ∷ [])
