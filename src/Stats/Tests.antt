-- ===== src/Stats/Tests.antt =====
-- Streams, reports and a configuration of extensions/stats.
use wasm_extensions.Prelude.{
  refl, ℕ, ◌+◌, ◌%◌, ◌^◌, ◌≡◌, codes, true, false, List, [], ◌∷◌, none, some, arith, length,
}
use wasm_extensions.Common.Request.{RequestInfo, new_request, tcp}
use wasm_extensions.Common.Peer.{empty_node}
use wasm_extensions.Expressions.Toy.{Toy, toy, toy_laws}
use wasm_extensions.Stats.Life.{Turn, configured, reported, new_root, life, life_frees}
use wasm_extensions.Json.{json_parse}
use wasm_extensions.Json.Toy.{Value, string, array, object, nil, cons, end, field, toy as json_toy}
use wasm_extensions.Stats.Labels.{count_standard_labels}
use wasm_extensions.Stats.Dimensions.{map_dimensions}
use wasm_extensions.Stats.History.{map_dimensions_forgets}
use wasm_extensions.Stats.Metrics.{counter, tcp_sent, StatGen}
use wasm_extensions.Stats.Maps.{resize}
use wasm_extensions.Stats.Setup.{initialize_dimensions, on_configure}
use wasm_extensions.Stats.Overrides.{InPlace, initialize_dimensions-InPlace}
use wasm_extensions.Stats.Report.{Libs, Env, Root}
use wasm_extensions.Stats.Cached.{cold}
use wasm_extensions.Stats.First.{first_configuration-cold}
use wasm_extensions.Stats.Stream.{
  System, Event, report_stream, new_connection, upstream_data, tick, log, run,
}
use wasm_extensions.Stats.Traffic.{sent, pending}
use wasm_extensions.Stats.Conserved.{reported_for, total_bytes, run-bytes}

abbrev libs : Libs
libs = record {
  text = record {
    str_split = λ c s. s ∷ [];
    simple_atoi = λ s n. (false, n);
    from_utf8 = λ s. some 0;
  };
  flat = record { get_root = λ b. empty_node; sorted_tables = λ ps k. none };
  ascii_str_to_lower = λ s. s;
  resolve_full_name = λ s. length s;
}

-- A peer that is there.
abbrev env : Env
env = record {
  properties = record {
    string = λ p. some (codes "id");
    number = λ p. none;
    bool = λ p. none;
    pairs = λ p. none;
    header = λ k. [];
  };
  evaluate_string = λ t. none;
  evaluate_int = λ t. none;
}

abbrev sent_bytes : StatGen
sent_bytes = record {
  factory = record {
    name = codes "tcp_sent_bytes_total";
    type = counter;
    extractor = tcp_sent;
    protocols = 1;
    count_labels = 1;
    recurrent = true;
  };
  prefix = [];
  stat_prefix = codes "istio_";
  tags = codes "reporter" ∷ [];
  indexes = 0 ∷ [];
  field_separator = codes ";.;";
  value_separator = codes "=.=";
}

abbrev root : Root
root = record {
  local_node_info = empty_node;
  istio_dimensions = resize count_standard_labels [];
  expressions = [];
  input_expressions = [];
  int_expressions = [];
  outbound = true;
  use_host_header_fallback = true;
  cache_hits_accumulator = 0;
  cache_hits = 0;
  cache_misses = 0;
  metrics = [];
  request_queue = [];
  stats = sent_bytes ∷ [];
  initialized = true;
}

abbrev idle : System
idle = record { root = root; requests = λ id. new_request 0 0 0 }

abbrev at_once : Event → (ℕ → Env) × Event
at_once e = (λ id. env, e)

abbrev stream : List ((ℕ → Env) × Event)
stream =
    at_once (new_connection 1)
    ∷ at_once (upstream_data 1 100)
    ∷ at_once (tick (λ id. true))
    ∷ at_once (upstream_data 1 5)
    ∷ at_once (log 1)
    ∷ []

run-bytes_example :
    (reported_for sent 1 (run libs stream idle).0
        + pending sent ((run libs stream idle).1.requests 1))
      % 2 ^ 64
    ≡ (pending sent (idle.requests 1) + total_bytes sent 1 stream) % 2 ^ 64
run-bytes_example = run-bytes libs sent 1 stream idle

abbrev request : RequestInfo
request = record (new_request 0 0 0) { request_protocol = tcp; tcp_sent_bytes = 7 }

map_dimensions_forgets_example :
    map_dimensions
      (λ s. s)
      true
      empty_node
      request
      (map_dimensions (λ s. s) true empty_node (new_request 0 0 0) (resize 26 []))
    ≡ map_dimensions (λ s. s) true empty_node request (resize 26 [])
map_dimensions_forgets_example =
    map_dimensions_forgets (λ s. s) true empty_node empty_node (new_request 0 0 0) request
      (resize 26 []) (omega arith)

-- An override that adds a tag and removes another.
abbrev override : Value
override = object (
    field (codes "metrics")
      (array (
        cons
          (object (
            field (codes "dimensions") (object (field (codes "shop") (string (codes "1")) end))
              (field (codes "tags_to_remove") (array (cons (string (codes "reporter")) nil)) end)))
          nil))
      end)

initialize_dimensions-InPlace_example :
    InPlace toy
      (json_toy override)
      (length
        (initialize_dimensions toy
          (json_toy override)
          []
          override
          root
          ([], [])).0.istio_dimensions)
      (initialize_dimensions toy (json_toy override) [] override root ([], [])).0.stats
    × (length
          (initialize_dimensions toy
            (json_toy override)
            []
            override
            root
            ([], [])).0.istio_dimensions
        ≡ count_standard_labels
          + length
              (initialize_dimensions toy
                (json_toy override)
                []
                override
                root
                ([], [])).0.expressions)
initialize_dimensions-InPlace_example =
    initialize_dimensions-InPlace toy (json_toy override) [] override root ([], [])

-- Two configurations with a report between them, on a host with an expression of another plugin.
abbrev turns : List Turn
turns = configured empty_node [] ∷ reported env true request ∷ configured empty_node [] ∷ []

abbrev busy_host : Toy
busy_host = ((3, codes "1") ∷ [], [])

life_frees_example :
    toy.live
      (life toy (json_toy override) libs (λ s. none) [] turns (new_root true true, busy_host)).1
      3
    ≡ toy.live busy_host 3
life_frees_example =
    life_frees toy (json_toy override) libs (λ s. none) [] toy_laws turns true true busy_host 3

-- A root context after its first configuration and the callbacks of a stream.
abbrev configured_root : Root
configured_root =
    (on_configure toy (json_toy override) (λ s. none) [] empty_node [] (new_root true true)
      busy_host).2

abbrev used : System
used = (run libs stream (record { root = configured_root; requests = λ id. new_request 0 0 0 })).1

first_configuration-cold_example :
    ((report_stream libs env true 1 used).0
      ≡ (report_stream libs env true 1 (record used { root = cold used.root })).0)
    × ((report_stream libs env true 1 used).1.requests
        ≡ (report_stream libs env true 1 (record used { root = cold used.root })).1.requests)
unfolding json_parse
first_configuration-cold_example =
    first_configuration-cold toy (json_toy override) libs (λ s. none) [] empty_node [] override true
      true busy_host (λ id. new_request 0 0 0) stream env true 1 refl
