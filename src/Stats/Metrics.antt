-- ===== src/Stats/Metrics.antt =====
-- The metrics of extensions/stats/plugin.{h,cc}: what a value is taken from, the generators, and the
-- record of a value.
use wasm_extensions.Prelude.{
  ℕ, ◌+◌, ◌-◌, ◌/◌, ◌%◌, ◌^◌, ◌==◌, ltb, bit_and, Bytes, codes, Bool, true, false, not, ◌&&◌, List,
  [], ◌∷◌, ◌++◌, Option, if◌then◌else◌, get_or,
}
use wasm_extensions.Common.Properties.{get_value}
use wasm_extensions.Common.Request.{RequestInfo, Protocol, protocol_mask}
use wasm_extensions.Stats.Labels.{count_standard_labels, count_peer_labels, count_tcp_labels}

pub data MetricType : Type 0 where
  counter gauge histogram : MetricType

abbrev is_counter : MetricType → Bool
is_counter counter = true
is_counter t = false

-- The functions that `defaultMetrics` and a metric definition give as a value extractor.
pub data Extractor : Type 0 where
  one duration_milliseconds request_bytes response_bytes : Extractor
  request_messages response_messages : Extractor
  tcp_sent tcp_received tcp_opened tcp_closed : Extractor
  expression : ℕ → Extractor

-- `uint64_t` subtraction.
abbrev pub word_sub : ℕ → ℕ → ℕ
word_sub a b = (a + (2 ^ 64 - b % 2 ^ 64)) % 2 ^ 64

-- An `int64_t`, given by its bits, divided by a positive number and taken as a `uint64_t`.
abbrev pub signed_div : ℕ → ℕ → ℕ
signed_div a d = if ltb a (2 ^ 63) then a / d else (2 ^ 64 - (2 ^ 64 - a) / d) % 2 ^ 64

-- The call of an extractor: its value, and the request that it may change. `evaluate` is
-- `evaluateExpression` into an `int64_t`, which stays 0 when it fails.
unfoldable pub extract : (ℕ → Option ℕ) → Extractor → RequestInfo → ℕ × RequestInfo
extract evaluate one r = (1, r)
extract evaluate duration_milliseconds r = (signed_div r.duration 1000000, r)
extract evaluate request_bytes r = (r.request_size, r)
extract evaluate response_bytes r = (r.response_size, r)
extract evaluate request_messages r = (
  word_sub r.request_message_count r.last_request_message_count,
  record r { last_request_message_count = r.request_message_count },
)
extract evaluate response_messages r = (
  word_sub r.response_message_count r.last_response_message_count,
  record r { last_response_message_count = r.response_message_count },
)
extract evaluate tcp_sent r = (r.tcp_sent_bytes, record r { tcp_sent_bytes = 0 })
extract evaluate tcp_received r = (r.tcp_received_bytes, record r { tcp_received_bytes = 0 })
extract evaluate tcp_opened r = (r.tcp_connections_opened, record r { tcp_connections_opened = 0 })
extract evaluate tcp_closed r = (r.tcp_connections_closed, r)
extract evaluate (expression token) r = (get_value (evaluate token) 0, r)

-- `SimpleStat`
pub record SimpleStat : Type 0 where
  pub metric_id : ℕ
  pub recurrent : Bool
  pub value_fn : Extractor
  pub type : MetricType

-- A call of `recordMetric`, with the statistic that makes it.
pub record Recorded : Type 0 where
  pub stat : SimpleStat
  pub value : ℕ

-- `SimpleStat::record`: what is recorded, and the request afterwards.
unfoldable pub record_stat : (ℕ → Option ℕ) → SimpleStat → RequestInfo → List Recorded × RequestInfo
record_stat evaluate stat r =
    let (val, r') = extract evaluate stat.value_fn r in
    if is_counter stat.type && (val == 0)
    then ([], r')
    else (record { stat = stat; value = val } ∷ [], r')

-- `MetricFactory`
pub record MetricFactory : Type 0 where
  pub name : Bytes
  pub type : MetricType
  pub extractor : Extractor
  pub protocols : ℕ
  pub count_labels : ℕ
  pub recurrent : Bool

abbrev http_or_grpc : ℕ
http_or_grpc = 6

-- `defaultMetrics`
unfoldable pub default_metrics : List MetricFactory
default_metrics =
    record {
      name = codes "requests_total";
      type = counter;
      extractor = one;
      protocols = http_or_grpc;
      count_labels = count_standard_labels;
      recurrent = false;
    }
    ∷ record {
      name = codes "request_duration_milliseconds";
      type = histogram;
      extractor = duration_milliseconds;
      protocols = http_or_grpc;
      count_labels = count_standard_labels;
      recurrent = false;
    }
    ∷ record {
      name = codes "request_bytes";
      type = histogram;
      extractor = request_bytes;
      protocols = http_or_grpc;
      count_labels = count_standard_labels;
      recurrent = false;
    }
    ∷ record {
      name = codes "response_bytes";
      type = histogram;
      extractor = response_bytes;
      protocols = http_or_grpc;
      count_labels = count_standard_labels;
      recurrent = false;
    }
    ∷ record {
      name = codes "request_messages_total";
      type = counter;
      extractor = request_messages;
      protocols = 4;
      count_labels = count_peer_labels;
      recurrent = true;
    }
    ∷ record {
      name = codes "response_messages_total";
      type = counter;
      extractor = response_messages;
      protocols = 4;
      count_labels = count_peer_labels;
      recurrent = true;
    }
    ∷ record {
      name = codes "tcp_sent_bytes_total";
      type = counter;
      extractor = tcp_sent;
      protocols = 1;
      count_labels = count_tcp_labels;
      recurrent = true;
    }
    ∷ record {
      name = codes "tcp_received_bytes_total";
      type = counter;
      extractor = tcp_received;
      protocols = 1;
      count_labels = count_tcp_labels;
      recurrent = true;
    }
    ∷ record {
      name = codes "tcp_connections_opened_total";
      type = counter;
      extractor = tcp_opened;
      protocols = 1;
      count_labels = count_tcp_labels;
      recurrent = true;
    }
    ∷ record {
      name = codes "tcp_connections_closed_total";
      type = counter;
      extractor = tcp_closed;
      protocols = 1;
      count_labels = count_tcp_labels;
      recurrent = false;
    }
    ∷ []

-- `StatGen`, with the members of its `Metric`: `prefix` is what the host's class sets it to.
pub record StatGen : Type 0 where
  pub factory : MetricFactory
  pub prefix : Bytes
  pub stat_prefix : Bytes
  pub tags : List Bytes
  pub indexes : List ℕ
  pub field_separator : Bytes
  pub value_separator : Bytes

-- `StatGen::matchesProtocol`
unfoldable pub matches_protocol : StatGen → Protocol → Bool
matches_protocol g p = not (bit_and g.factory.protocols (protocol_mask p) == 0)

-- The loop of `resolve`: each tag with the dimension at its index.
unfoldable pub tag_values : StatGen → List Bytes → List Bytes → List ℕ → Bytes
tag_values g dims (tag ∷ tags) (i ∷ indexes) =
    tag
    ++ g.value_separator
    ++ get_or dims i []
    ++ g.field_separator
    ++ tag_values g dims tags indexes
tag_values g dims tags indexes = []

-- The name that `resolve` resolves; `metric_.name` is the prefix of the statistics and the name of the
-- factory.
unfoldable pub full_name : StatGen → List Bytes → Bytes
full_name g dims = g.prefix ++ tag_values g dims g.tags g.indexes ++ g.stat_prefix ++ g.factory.name

-- `StatGen::resolve`; `resolve_full_name` is the host's `defineMetric`.
unfoldable pub resolve : (Bytes → ℕ) → StatGen → List Bytes → SimpleStat
resolve resolve_full_name g dims = record {
  metric_id = resolve_full_name (full_name g dims);
  recurrent = g.factory.recurrent;
  value_fn = g.factory.extractor;
  type = g.factory.type;
}
