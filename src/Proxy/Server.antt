-- ===== src/Proxy/Server.antt =====
-- mcp/proxy/server.ts and mcp/tools/compassStatus.ts. The mirror and the interceptor of the source
-- share one upstream client and one audit log: here they are those of the interceptor.
pub mod Session
pub mod Shown
use monad_hackathon.Audit.{
  AuditEvent, append_event, build_compass_audit_events, success, tools_list_served,
}
use monad_hackathon.Audit.Print.{events_value}
use monad_hackathon.Codes.{internal_error}
use monad_hackathon.Js.{Fields, Value, arr, bool, cons, end, field, nil, null, num, obj, str}
use monad_hackathon.Js.Json.{stringify}
use monad_hackathon.Prelude.{
  Bool, List, Option, String, [], false, if◌then◌else◌, length, none, some, str_eq, true, ℕ, ◌∷◌,
}
use monad_hackathon.Proxy.Interceptor.{
  CallInterceptor, InterceptResult, forwarded, handle_upstream_call, meta, or_no_args, refused,
}
use monad_hackathon.Proxy.Schemas.{ToolResult, safe_error_to_tool_result, sanitize_to_safe_error}
use monad_hackathon.Proxy.ToolMirror.{ExposedTool, ToolMirror, exposed_tools, upstream_tool_count}
use monad_hackathon.Proxy.Upstream.{Sdk, UpstreamClient}

pub record ProxyConfig : Type 0 where
  pub upstream_command : String
  pub upstream_transport : String
  pub chain_label : String
  pub policy_path : Option String
  pub audit_path : String
  pub agent_id : String
  pub connect_timeout_ms : ℕ
  pub call_timeout_ms : ℕ

pub record ProxyServer : Type 0 where
  pub config : ProxyConfig
  pub guarded_active : Bool
  pub interceptor : CallInterceptor

abbrev pub mirror_of : ProxyServer → ToolMirror
mirror_of s = record { upstream = s.interceptor.upstream; guarded_active = s.guarded_active }

-- `okResult`
unfoldable pub ok_result : Value → ToolResult
unfolding stringify
ok_result structured = record {
  is_error = false;
  text = stringify structured;
  structured_content = structured;
}

-- `string | null`
or_null : Option String → Value
or_null none = null
or_null (some s) = str s

module _ (sha256 : String → String) where
  unfoldable pub build_compass_status : ProxyConfig → UpstreamClient → ToolMirror → Value
  unfolding or_null exposed_tools
  build_compass_status config upstream mirror =
      let state = upstream.state in
      obj (
        field "proxy"
          (obj (
            field "name" (str "compass-proxy")
              (field "version" (str "0.1.0") (field "wave" (str "W1") end))))
          (field "transport" (str config.upstream_transport) (
            field "chain_label" (str config.chain_label) (
              field "policy_path" (or_null config.policy_path) (
                field "audit_path" (str config.audit_path) (
                  field "upstream"
                    (obj (
                      field "connected" (bool state.connected) (
                        field "managed_by_compass" (bool true) (
                          field "server_name" (or_null state.server_name) (
                            field "server_version" (or_null state.server_version) (
                              field "upstream_tool_count" (num state.upstream_tool_count)
                                (field "reason" (or_null state.reason) end)))))))
                    (field "exposed_tool_count" (num (length (exposed_tools sha256 mirror))) (
                      field "notes"
                        (arr (
                          cons
                            (str
                              "W1: tools/list is intentionally empty; the W2 registry will populate it.")
                            (cons
                              (str
                                "Upstream is managed internally by Compass; the host has no direct upstream connection.")
                              nil)))
                        end))))))))

-- The value of CompassAuditEventsResult.
events_result : ℕ → List AuditEvent → Value
unfolding events_value
events_result count events =
    obj (field "count" (num count) (field "events" (arr (events_value events)) end))

-- The MCP requests that the server handles; each call has the id that `randomUUID` gives it.
pub data Request : Type 0 where
  tools_list : Request
  tools_call : String → String → Value → Request

pub data Reply : Type 0 where
  listing : List ExposedTool → Reply
  called : ToolResult → Reply

-- How an interceptor's result is shown.
shown_result : InterceptResult → ToolResult
unfolding ok_result safe_error_to_tool_result sanitize_to_safe_error
shown_result (forwarded name value id) = ok_result (obj (field "upstream" value end))
shown_result (refused error id) = safe_error_to_tool_result error
shown_result (meta name id) = safe_error_to_tool_result (sanitize_to_safe_error internal_error)

module _ (uuid now_iso : ℕ → String) (sdk : Sdk) (sha256 : String → String)
    (record_of : Value → Option Fields) (floor_positive : String → Option ℕ) where
  -- The handler of tools/list.
  serve_list : ProxyServer → ProxyServer × List ExposedTool
  unfolding exposed_tools upstream_tool_count append_event
  serve_list s =
      let tools = exposed_tools sha256 (mirror_of s) in
      (
        record s {
          interceptor = record (s.interceptor) {
            audit = append_event uuid now_iso s.interceptor.audit (record {
              action = tools_list_served;
              result = success;
              source = none;
              correlation_id = none;
              tool_name = none;
              tool_class = none;
              error_code = none;
              metadata = some (
                  field "exposed_tool_count" (num (length tools))
                    (field "upstream_tool_count" (num (upstream_tool_count (mirror_of s))) end));
            });
          };
        },
        tools,
      )

  events_of : ProxyServer → Value → Value
  unfolding build_compass_audit_events events_result
  events_of s raw_args =
      let r = build_compass_audit_events floor_positive s.interceptor.audit raw_args in
      events_result r.count r.events

  -- The handler of tools/call.
  serve_call : String → String → Value → ProxyServer → ProxyServer × ToolResult
  unfolding ok_result build_compass_status events_of or_no_args handle_upstream_call shown_result
  serve_call id name raw_args s =
      if str_eq name "compass_status"
      then (
        s,
        ok_result (build_compass_status sha256 s.config s.interceptor.upstream (mirror_of s)),
      )
      else if str_eq name "compass_audit_events"
      then (s, ok_result (events_of s (or_no_args raw_args)))
      else let (c, r) =
          handle_upstream_call uuid now_iso sdk sha256 record_of id name (or_no_args raw_args)
            s.interceptor in
        (record s { interceptor = c }, shown_result r)

  unfoldable pub serve : Request → ProxyServer → ProxyServer × Reply
  unfolding serve_list serve_call
  serve tools_list s = let (t, ts) = serve_list s in (t, listing ts)
  serve (tools_call id name raw_args) s =
      let (t, r) = serve_call id name raw_args s in (t, called r)

  -- The requests of a session, in the order in which they are handled.
  unfoldable pub serve_all : List Request → ProxyServer → ProxyServer
  unfolding serve
  serve_all [] s = s
  serve_all (q ∷ qs) s = serve_all qs (serve q s).0
