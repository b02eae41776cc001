-- ===== src/Protocol/Logs.antt =====
-- crates/cadder-ipc/src/logs.rs: log streams, entries and the bounded query.
use cadder.Base.{ℕ, String, Bool, ◌&&◌, Option, none, some, List, ◌==◌}
use cadder.Base.{string_eq, option_eq}
use Prim.Native.String as Str

pub data LogSeverity : Type 0 where
  unknown trace debug info warn error fatal : LogSeverity

pub data LogAttributionKind : Type 0 where
  unknown runtime runtime_control entrypoint domain : LogAttributionKind

pub data LogEntryKind : Type 0 where
  normal lifecycle ingestion_overflow retention_gap : LogEntryKind

pub data LogStreamStatus : Type 0 where
  unknown empty active stale removed read_error : LogStreamStatus

pub record LogStreamIdentity : Type 0 where
  pub stream_id : String
  pub domain_key : Option String
  pub channel : String

abbrev pub stream_beq : LogStreamIdentity → LogStreamIdentity → Bool
stream_beq a b =
    a.stream_id == b.stream_id && a.domain_key == b.domain_key && a.channel == b.channel

abbrev pub runtime_control_stream : LogStreamIdentity
runtime_control_stream = record {
  stream_id = "runtime-control";
  domain_key = none;
  channel = "control";
}

abbrev pub entrypoint_stream : String → LogStreamIdentity
entrypoint_stream registration_id = record {
  stream_id = Str.◌++◌ "entrypoint-" registration_id;
  domain_key = none;
  channel = "caddy";
}

abbrev pub domain_stream : String → LogStreamIdentity
domain_stream domain_key = record {
  stream_id = Str.◌++◌ "domain-" domain_key;
  domain_key = some domain_key;
  channel = "caddy";
}

pub record LogEntry : Type 0 where
  pub sequence_number : ℕ
  pub timestamp_utc : ℕ
  pub severity : LogSeverity
  pub stream : LogStreamIdentity
  pub attribution_kind : LogAttributionKind
  pub entry_kind : LogEntryKind
  pub raw_message : String
  pub domain_key : Option String
  pub source_registration_id : Option String
  pub source_instance_id : Option String
  pub operation : Option String

pub record QueryLogsPayload : Type 0 where
  pub stream : LogStreamIdentity
  pub limit : Option ℕ

pub record QueryLogsResponse : Type 0 where
  pub request_id : String
  pub accepted : Bool
  pub message : String
  pub stream : LogStreamIdentity
  pub stream_status : LogStreamStatus
  pub entries : List LogEntry
