-- ===== src/Audit/Tests.antt =====
-- The theorems about the audit log at concrete logs.
use monad_hackathon.Audit.{
  AuditInput, AuditLog, append_event, audit_limit, blank, build_compass_audit_events, is_primitive,
  malformed, metadata_allowlist, proxy_started, redact_keys, redact_metadata, success, system, tail,
}
use monad_hackathon.Audit.Laws.{build_compass_audit_events_bounds, get-redact_metadata, kept_fields}
use monad_hackathon.Js.{end, field, get, num, obj, str, undefined}
use monad_hackathon.Prelude.{
  Option, String, [], if◌then◌else◌, includes, length, none, refl, some, ℕ, ◌&&◌, ◌∷◌, ◌≡◌, ◌≤◌,
}

abbrev no_floor : String → Option ℕ
no_floor s = none

abbrev id_of : ℕ → String
id_of n = "id"

abbrev noon : ℕ → String
noon n = "2026-01-01T12:00:00.000Z"

abbrev started : AuditInput
started = record {
  action = proxy_started;
  result = success;
  source = some system;
  correlation_id = none;
  tool_name = none;
  tool_class = none;
  error_code = none;
  metadata = some (field "transport" (str "stdio") (field "privateKey" (str "0x01") end));
}

abbrev log : AuditLog
log = record { agent_id = "claude_code"; lines = blank ∷ malformed ∷ []; written = 0 }

get-redact_metadata_example :
    get "privateKey" (kept_fields (redact_metadata (some (field "privateKey" (str "0x01") end))))
    ≡ (if includes metadata_allowlist "privateKey"
          && is_primitive (get "privateKey" (field "privateKey" (str "0x01") end))
        then get "privateKey" (field "privateKey" (str "0x01") end)
        else undefined)
get-redact_metadata_example = get-redact_metadata "privateKey" (field "privateKey" (str "0x01") end)

build_compass_audit_events_bounds_example :
    ((build_compass_audit_events no_floor log (obj (field "limit" (num 3) end))).count
      ≡ length (build_compass_audit_events no_floor log (obj (field "limit" (num 3) end))).events)
    × ((build_compass_audit_events no_floor log (obj (field "limit" (num 3) end))).count
        ≤ audit_limit no_floor (obj (field "limit" (num 3) end)))
    × (audit_limit no_floor (obj (field "limit" (num 3) end)) ≤ 500)
build_compass_audit_events_bounds_example =
    build_compass_audit_events_bounds no_floor log (obj (field "limit" (num 3) end))

-- The private key of the metadata is not written.
tail_run :
    tail (append_event id_of noon log started) 2
    ≡ record {
      event_id = "id";
      timestamp = "2026-01-01T12:00:00.000Z";
      source = system;
      agent_id = "claude_code";
      correlation_id = none;
      tool_name = none;
      tool_class = none;
      action = proxy_started;
      result = success;
      error_code = none;
      metadata = some (field "transport" (str "stdio") end);
    }
      ∷ []
unfolding tail append_event redact_metadata redact_keys
tail_run = refl
