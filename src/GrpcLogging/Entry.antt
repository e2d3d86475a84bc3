-- ===== src/GrpcLogging/Entry.antt =====
-- extensions/grpc_logging/plugin.cc: the configuration, and the fields of a log entry (log.proto).
-- `parse` stands for `JsonStringToMessage` with unknown fields ignored, for the one field of
-- config.proto; a time is the nanoseconds that are turned into a message.
use wasm_extensions.Prelude.{
  ℕ, ◌%◌, ◌^◌, Bytes, codes, Bool, true, false, [], ◌∷◌, Option, none, some, if◌then◌else◌,
  is_empty, ltb,
}
use wasm_extensions.Common.Properties.{Properties, get_value}
use wasm_extensions.GrpcLogging.Buffer.{Root, add_log_entry}

-- `WriteLogRequest::LogEntry`
pub record LogEntry : Type 0 where
  pub source_address : Bytes
  pub destination_address : Bytes
  pub destination_workload : Bytes
  pub destination_namespace : Bytes
  pub host : Bytes
  pub path : Bytes
  pub user_agent : Bytes
  pub referer : Bytes
  pub request_id : Bytes
  pub timestamp : ℕ
  pub latency : ℕ
  pub response_code : ℕ

-- What the three local variables without an initializer hold.
pub record Uninitialised : Type 0 where
  pub response_code : ℕ
  pub timestamp : ℕ
  pub duration : ℕ

-- The fields of a new entry in `addLogEntry`.
unfoldable pub fill_entry : Properties → Uninitialised → LogEntry
fill_entry props old = record {
  source_address = get_value (props.string ("source" ∷ "address" ∷ [])) [];
  destination_address = get_value (props.string ("destination" ∷ "address" ∷ [])) [];
  destination_workload = get_value (props.string ("node" ∷ "metadata" ∷ "WORKLOAD_NAME" ∷ [])) [];
  destination_namespace = get_value (props.string ("node" ∷ "metadata" ∷ "NAMESPACE" ∷ [])) [];
  host = get_value (props.string ("request" ∷ "host" ∷ [])) [];
  path = get_value (props.string ("request" ∷ "url_path" ∷ [])) [];
  user_agent = get_value (props.string ("request" ∷ "user_agent" ∷ [])) [];
  referer = get_value (props.string ("request" ∷ "referer" ∷ [])) [];
  request_id = get_value (props.string ("request" ∷ "id" ∷ [])) [];
  timestamp = get_value (props.number ("request" ∷ "time" ∷ [])) old.timestamp;
  latency = get_value (props.number ("request" ∷ "duration" ∷ [])) old.duration;
  response_code = get_value (props.number ("response" ∷ "code" ∷ [])) old.response_code % 2 ^ 32;
}

-- `onLog` of a stream: `addLogEntry`.
unfoldable pub on_log : Properties → Uninitialised → Root LogEntry → Root LogEntry
on_log props old root = add_log_entry (fill_entry props old) root

-- The member that `onConfigure` sets, and the tick period of the host.
pub record Configuration : Type 0 where
  pub logging_service_address : Bytes
  pub tick_period : ℕ

-- `onConfigure`; `text` is the plugin's configuration, read when its size is not 0.
unfoldable pub on_configure :
    (Bytes → Option Bytes) → ℕ → Bytes → Configuration → Bool × Configuration
on_configure parse size text c = elim (parse (if ltb 0 size then text else codes "{}")) [
  | none ↦ (false, c)
  | some logging_service ↦
      if is_empty logging_service
      then (false, c)
      else (true, record { logging_service_address = logging_service; tick_period = 10000 })
]
