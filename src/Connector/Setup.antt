-- ===== src/Connector/Setup.antt =====
-- How a `SourceConnector` or a `SinkConnector` of machida/lib/wallaroo/experimental/__init__.py finds
-- its port and codec in what `application_setup` returns, and how the former connects. What
-- `parse_connector_args` gives and what the sockets do come in as arguments.
use wallaroo.Base.{ℕ, Bool, false, Option, none, some, List, [], ◌∷◌, ◌++◌}
use wallaroo.Base.{
  if◌then◌else◌, Result, ok, err, ◌>>=◌, index_error, type_error, value_error, stop_iteration,
  runtime_error, os_error,
}
use wallaroo.Base.Text.{Text, codes}
use wallaroo.Base.Dict.{same, text_eq}
use wallaroo.Pipeline.{Stage, AppTuple}
use wallaroo.Connector.{Sink}

-- The tuple that a connector looks for.
pub record Action (A : Type 0) : Type 0 where
  pub command : Text
  pub name : Text
  pub port : Text
  pub encoder : A
  pub decoder : A

-- An item of what `application_setup` returns: such a tuple, or a part of an application.
pub data Item (A : Type 0) : Type 0 where
  action : Action A → Item A
  text : Text → Item A
  number : ℕ → Item A
  stages : List (List (Stage A)) → Item A
  edges : List (List ℕ) → Item A

-- `s[0]` and `s[1]` of a string, as strings
abbrev pub char_0 : Text → Result Text
char_0 [] = err index_error
char_0 (c ∷ t) = ok (c ∷ [])

abbrev pub char_1 : Text → Result Text
char_1 [] = err index_error
char_1 (c ∷ []) = err index_error
char_1 (c ∷ d ∷ t) = ok (d ∷ [])

-- Whether a list has the item; a list is no string.
abbrev pub list_at_0 : {B : Type 0} → List B → Result Bool
list_at_0 [] = err index_error
list_at_0 (x ∷ xs) = ok false

abbrev pub list_at_1 : {B : Type 0} → List B → Result Bool
list_at_1 [] = err index_error
list_at_1 (x ∷ []) = err index_error
list_at_1 (x ∷ y ∷ ys) = ok false

module _ {A : Type 0} where
  -- `action[0] == command`
  abbrev pub has_command : Text → Item A → Result Bool
  has_command command (action a) = ok (same a.command command)
  has_command command (text t) = char_0 t >>= λ c. ok (same c command)
  has_command command (number n) = err type_error
  has_command command (stages vs) = list_at_0 vs
  has_command command (edges es) = list_at_0 es

  -- `action[1] == name`
  abbrev pub has_name : Text → Item A → Result Bool
  has_name name (action a) = ok (same a.name name)
  has_name name (text t) = char_1 t >>= λ c. ok (same c name)
  has_name name (number n) = err type_error
  has_name name (stages vs) = list_at_1 vs
  has_name name (edges es) = list_at_1 es

  abbrev pub matches : Text → Text → Item A → Result Bool
  matches command name x = do
    first ← has_command command x
    if first then has_name name x else ok false

  -- Five items in a tuple; the parts of an application have another number, or are not unpacked into
  -- these.
  abbrev pub unpacked : Item A → Result (Action A)
  unpacked (action a) = ok a
  unpacked (text t) = err value_error
  unpacked (number n) = err type_error
  unpacked (stages vs) = err value_error
  unpacked (edges es) = err value_error

  -- `next(action for action in actions if …)`
  unfoldable pub find_action : Text → Text → List (Item A) → Result (Action A)
  find_action command name [] = err stop_iteration
  find_action command name (x ∷ xs) = do
    found ← matches command name x
    if found then unpacked x else find_action command name xs

  abbrev pub or_runtime_error : Result (Action A) → Result (Action A)
  or_runtime_error (err e) = err runtime_error
  or_runtime_error (ok a) = ok a

  -- The two constructors, up to their state.
  unfoldable pub source_connector : Text → List (Item A) → Result (Action A)
  unfolding find_action
  source_connector name actions =
      or_runtime_error (find_action (codes "source_connector") name actions)

  unfoldable pub sink_connector : Text → List (Item A) → Result (Action A)
  unfolding find_action
  sink_connector name actions = or_runtime_error (find_action (codes "sink_connector") name actions)

  -- The tuple of `build_application`, item by item.
  abbrev pub items_of : AppTuple A → List (Item A)
  items_of (app_name, root_idx, vs, es) =
      text app_name ∷ number root_idx ∷ stages vs ∷ edges es ∷ []

-- One try of `connect`: a connection, or an error of the socket.
pub data Dial : Type 0 where
  connects : ℕ → Dial
  is_refused other_error : Dial

-- `connect` tries again where the connection is refused; `none` where it still does.
unfoldable pub connect : List Dial → Option (Result ℕ)
connect [] = none
connect (connects conn ∷ ds) = some (ok conn)
connect (is_refused ∷ ds) = connect ds
connect (other_error ∷ ds) = some (err os_error)

-- `listen`, once the acceptor is bound
unfoldable pub listen : ℕ → Sink → Sink
listen acceptor s = record s { acceptor = acceptor; connections = s.connections ++ acceptor ∷ [] }
