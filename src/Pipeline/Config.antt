-- ===== src/Pipeline/Config.antt =====
-- The configuration classes of machida/lib/wallaroo/__init__.py and of its `experimental` package,
-- their `to_tuple` methods, and the address options. `argparse` is the standard library's: an
-- option's value, with its default where it is not given, comes in as an argument.
pub mod RoundTrip
use wallaroo.Base.{ℕ, List, [], ◌∷◌, ◌++◌, map, Option, none, some}
use wallaroo.Base.Text.{Text, codes, split}

pub data ConfigTuple (A : Type 0) : Type 0 where
  tcp connector : Text → Text → A → ConfigTuple A
  gen : A → ConfigTuple A
  kafka : Text → List (Text × Text) → Text → A → ConfigTuple A
  kafka_sink : Text → List (Text × Text) → Text → ℕ → ℕ → A → ConfigTuple A
  kafka_internal : Text → A → ConfigTuple A

pub data SourceConfig (A : Type 0) : Type 0 where
  tcp_source connector_source : Text → Text → A → SourceConfig A
  gen_source : A → SourceConfig A
  custom_kafka_source : Text → List (Text × Text) → Text → A → SourceConfig A
  default_kafka_source : A → Text → SourceConfig A

pub data SinkConfig (A : Type 0) : Type 0 where
  tcp_sink connector_sink : Text → Text → A → SinkConfig A
  custom_kafka_sink : Text → List (Text × Text) → Text → ℕ → ℕ → A → SinkConfig A
  default_kafka_sink : A → Text → SinkConfig A

module _ {A : Type 0} where
  unfoldable pub source_to_tuple : SourceConfig A → ConfigTuple A
  source_to_tuple (tcp_source host port decoder) = tcp host port decoder
  source_to_tuple (connector_source host port decoder) = connector host port decoder
  source_to_tuple (gen_source g) = gen g
  source_to_tuple (custom_kafka_source topic brokers level decoder) =
      kafka topic brokers level decoder
  source_to_tuple (default_kafka_source decoder name) = kafka_internal name decoder

  unfoldable pub sink_to_tuple : SinkConfig A → ConfigTuple A
  sink_to_tuple (tcp_sink host port encoder) = tcp host port encoder
  sink_to_tuple (connector_sink host port encoder) = connector host port encoder
  sink_to_tuple (custom_kafka_sink topic brokers level buffer_ms size encoder) =
      kafka_sink topic brokers level buffer_ms size encoder
  sink_to_tuple (default_kafka_sink encoder name) = kafka_internal name encoder

-- `[tuple(x.split(':')) for x in addrs.split(',')]`: each tuple is the list of its parts.
unfoldable pub tcp_parse_addrs : Text → List (List Text)
unfolding split
tcp_parse_addrs addrs = map (split b':') (split b',' addrs)

abbrev pub default_port : Text
default_port = codes "9092"

-- The host, and the port where the parts are exactly two.
broker_of_parts : List Text → Text × Text
broker_of_parts [] = ([], default_port)
broker_of_parts (host ∷ port ∷ []) = (host, port)
broker_of_parts (host ∷ _) = (host, default_port)

unfoldable pub kafka_parse_broker : Text → Text × Text
unfolding broker_of_parts split
kafka_parse_broker broker = broker_of_parts (split b':' broker)

unfoldable pub kafka_parse_brokers : Text → List (Text × Text)
unfolding kafka_parse_broker
kafka_parse_brokers brokers = map kafka_parse_broker (split b',' brokers)

-- How a broker is written: `host:port`, or `host` alone.
unfoldable pub broker_text : Text → Option Text → Text
broker_text host none = host
broker_text host (some port) = host ++ (b':' ∷ port)
