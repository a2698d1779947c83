-- ===== src/Detection/Probe/Tests.antt =====
-- Two servers: an old SGLang without /ready, and one that knows no route.
use spark_dashboard.Prelude.{
  String, All, Option, none, List, [], ◌∷◌, ◌==◌, string_eq, if◌then◌else◌,
}
use spark_dashboard.Json.{Json}
use spark_dashboard.Http.{Server, Reply, answered}
use spark_dashboard.Engine.Types.{sglang, native}
use spark_dashboard.Engine.Collector.{DetectedEngine}
use spark_dashboard.Detection.Candidates.{detect_engines}
use spark_dashboard.Detection.Probe.{probe_engine}
use spark_dashboard.Detection.Probe.Told.{IsTold, detect_engines_told}

abbrev no_json : String → Option Json
no_json body = none

abbrev same_case : String → String
same_case text = text

abbrev found : Reply
found = answered (record { status = 200; server = none; body = none })

abbrev not_found : Reply
not_found = answered (record { status = 404; server = none; body = none })

abbrev old_sglang : Server
old_sglang path = if path == "/model_info" then found else not_found

abbrev servers : String → Server
servers endpoint = if endpoint == "http://localhost:30000" then old_sglang else (λ path. not_found)

abbrev candidate : String → DetectedEngine
candidate endpoint = record {
  engine_type = sglang;
  endpoint = endpoint;
  deployment_mode = native;
  served_model = none;
  pids = 7 ∷ [];
  container_id = none;
  fallback_endpoints = [];
}

abbrev host_scan : List DetectedEngine
host_scan = candidate "http://localhost:30000" ∷ candidate "http://localhost:40000" ∷ []

detect_engines_told_example :
    All
      (λ c. IsTold no_json same_case (servers c.endpoint) c.engine_type)
      (detect_engines
        (λ engine_type endpoint. probe_engine no_json same_case (servers endpoint) engine_type)
        host_scan
        [])
detect_engines_told_example = detect_engines_told no_json same_case servers host_scan []
