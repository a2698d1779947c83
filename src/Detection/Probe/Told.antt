-- ===== src/Detection/Probe/Told.antt =====
-- engines/detector.rs: what an engine that the detection returns serves.
use spark_dashboard.Prelude.{
  ◌&&◌, ◌⊎◌, any, string_eq, ℕ, String, ◌≡◌, Bool, true, false, Option, none, some, List, [], ◌∷◌,
  All, inl, inr, arith, Bool-cases, ◌==◌, nat_eq, Option-cases,
}
use spark_dashboard.Text.{trim, starts_with}
use spark_dashboard.Json.{Json}
use spark_dashboard.Http.{Server, answered, is_success, Reply-cases, HttpResponse, body_of}
use spark_dashboard.Engine.Types.{EngineType, vllm, sglang, ollama, llama_cpp}
use spark_dashboard.Engine.Collector.{DetectedEngine}
use spark_dashboard.Detection.Candidates.{detect_engines}
use spark_dashboard.Detection.Candidates.Verified.{detect_engines_sound}
use spark_dashboard.Detection.Probe.{is_success_reply, is_served, probe_sglang, probe_engine}
use spark_dashboard.LlamaCpp.Identified
use spark_dashboard.Detection.Probe.Ollamas.{Answers, IsOllama, identify-IsOllama}

-- An SGLang is ready and serves /model_info, or has no /ready and answers /model_info with success.
abbrev pub IsSglang : Server → Type 0
IsSglang server =
    (Answers server "/ready" (λ r. is_success r.status ≡ true)
      × Answers server "/model_info" (λ r. (r.status == 404) ≡ false))
    ⊎ (Answers server "/ready" (λ r. (r.status == 404) ≡ true)
        × Answers server "/model_info" (λ r. is_success r.status ≡ true))

success_told :
    (server : Server) (path : String)
    → is_success_reply (server path) ≡ true
    → Answers server path (λ r. is_success r.status ≡ true)
success_told server path h = elim (Reply-cases (server path)) [
  | inl (timeout, message, lost) ↦ ground (arith, lost)
  | inr (r, got) ↦ (r, got, ground (arith, got))
]

served_told :
    (server : Server) (path : String)
    → is_served (server path) ≡ true
    → Answers server path (λ r. (r.status == 404) ≡ false)
served_told server path h = elim (Reply-cases (server path)) [
  | inl (timeout, message, lost) ↦ ground (arith, lost)
  | inr (r, got) ↦ (r, got, ground (arith, got))
]

probe_sglang-IsSglang : (server : Server) → probe_sglang server ≡ true → IsSglang server
unfolding probe_sglang
probe_sglang-IsSglang server h = elim (Reply-cases (server "/ready")) [
  | inl (timeout, message, lost) ↦ ground (arith, lost)
  | inr (ready, got) ↦ elim (Bool-cases (is_success ready.status)) [
    | inl success ↦
        inl ((ready, got, success), served_told server "/model_info" (ground (arith, got, success)))
    | inr other ↦ inr (
      (ready, got, ground (arith, got, other)),
      success_told server "/model_info" (ground (arith, got, other)),
    )
  ]
]

-- A name of the `Server` header that is llama.cpp's.
abbrev pub IsNamedLlamaCpp : (String → String) → String → Type 0
IsNamedLlamaCpp to_lowercase header =
    (to_lowercase (trim header) ≡ "llama.cpp")
    ⊎ (starts_with (to_lowercase (trim header)) "llama.cpp/" ≡ true)

-- The status is one of these.
abbrev pub is_one_of : List ℕ → HttpResponse → Bool
is_one_of statuses r = any (λ n. r.status == n) statuses

-- A llama-server answers /health with 200 or 503, and names itself in the header, or has no such header
-- and answers /props with 200, 401, 403 or 503.
abbrev pub IsLlamaCpp : (String → String) → Server → Type 0
IsLlamaCpp to_lowercase server = Answers server "/health" (λ r.
    (is_one_of (200 ∷ 503 ∷ []) r ≡ true)
    × (((header : String) × (r.server ≡ some header) × IsNamedLlamaCpp to_lowercase header)
        ⊎ ((r.server ≡ none)
            × Answers server "/props" (λ r. is_one_of (200 ∷ 401 ∷ 403 ∷ 503 ∷ []) r ≡ true))))

both : (a b : Bool) → (a && b) ≡ true → (a ≡ true) × (b ≡ true)
both a b h = ground arith

module _ (parse_json : String → Option Json) (to_lowercase : String → String) where
  props_told :
      (server : Server)
      → Identified.confirmed_by_props parse_json (server "/props") ≡ true
      → Answers server "/props" (λ r. is_one_of (200 ∷ 401 ∷ 403 ∷ 503 ∷ []) r ≡ true)
  unfolding Identified.props_answers_like_llamacpp
  props_told server h = elim (Reply-cases (server "/props")) [
    | inl (timeout, message, lost) ↦ ground (arith, lost)
    | inr (r, got) ↦ (r, got, ground (arith, got))
  ]

  health_told :
      (r : HttpResponse)
      → Identified.health_answers_like_llamacpp parse_json r.status (body_of r) ≡ true
      → is_one_of (200 ∷ 503 ∷ []) r ≡ true
  unfolding Identified.health_answers_like_llamacpp
  health_told r h = ground arith

  header_told :
      (header : String)
      → Identified.server_names_llamacpp to_lowercase (some header) ≡ some true
      → IsNamedLlamaCpp to_lowercase header
  unfolding Identified.server_names_llamacpp
  header_told header h = elim (Bool-cases (to_lowercase (trim header) == "llama.cpp")) [
    | inl is ↦ inl ((string_eq.beq_iff (to_lowercase (trim header)) "llama.cpp").0 is)
    | inr other ↦ inr (ground (arith, other))
  ]

  unnamed_told :
      (server : Server) (r : HttpResponse)
      → server "/health" ≡ answered r
      → r.server ≡ none
      → Identified.identify parse_json to_lowercase server ≡ true
      → (Identified.health_answers_like_llamacpp parse_json r.status (body_of r) ≡ true)
        × (Identified.confirmed_by_props parse_json (server "/props") ≡ true)
  unfolding Identified.identify Identified.server_names_llamacpp
  unnamed_told server r got unnamed = rw (Identified.identify, got) (rw unnamed (λ h. both _ _ h))

  identify-IsLlamaCpp :
      (server : Server)
      → Identified.identify parse_json to_lowercase server ≡ true
      → IsLlamaCpp to_lowercase server
  unfolding Identified.identify Identified.server_names_llamacpp
  identify-IsLlamaCpp server h = elim (Reply-cases (server "/health")) [
    | inl (timeout, message, lost) ↦ ground (arith, lost)
    | inr (r, got) ↦ elim (Option-cases r.server) [
      | inl unnamed ↦
          let (health, props) = unnamed_told server r got unnamed h in
          (r, got, (health_told r health, inr (unnamed, props_told server props)))
      | inr (header, named) ↦
          let is = header_told header (ground (arith, got, named)) in
          (r, got, (ground (arith, got, named), inl (header, named, is)))
    ]
  ]

  -- The server answers as an engine of the type does.
  abbrev pub IsTold : Server → EngineType → Type 0
  IsTold server vllm = Answers server "/health" (λ r. is_success r.status ≡ true)
  IsTold server sglang = IsSglang server
  IsTold server ollama = IsOllama parse_json server
  IsTold server llama_cpp = IsLlamaCpp to_lowercase server

  probe_engine_told :
      (server : Server) (engine_type : EngineType)
      → probe_engine parse_json to_lowercase server engine_type ≡ true
      → IsTold server engine_type
  unfolding probe_engine
  probe_engine_told server vllm h = success_told server "/health" h
  probe_engine_told server sglang h = probe_sglang-IsSglang server h
  probe_engine_told server ollama h = identify-IsOllama parse_json server h
  probe_engine_told server llama_cpp h = identify-IsLlamaCpp server h

  probes_told :
      (servers : String → Server) (engines : List DetectedEngine)
      → All
          (λ c.
            (probe_engine parse_json to_lowercase (servers c.endpoint) c.engine_type ≡ true)
            × (c.fallback_endpoints ≡ []))
          engines
      → All (λ c. IsTold (servers c.endpoint) c.engine_type) engines
  probes_told servers [] h = tt
  probes_told servers (c ∷ engines) h =
      (probe_engine_told (servers c.endpoint) c.engine_type h.0.0, probes_told servers engines h.1)

  -- The server of every engine that the detection returns has answered as an engine of that type does.
  -- A vLLM answered /health with success. An SGLang answered /ready with success and /model_info not
  -- with 404, or /ready with 404 and /model_info with success. An Ollama answered /api/version with
  -- success and a text for the version, and /api/ps with success and a list of models, or too late. A
  -- llama-server answered /health with 200 or 503, and named itself in the `Server` header, or sent none
  -- and answered /props with 200, 401, 403 or 503.
  pub detect_engines_told :
      (servers : String → Server) (processes containers : List DetectedEngine)
      → All
          (λ c. IsTold (servers c.endpoint) c.engine_type)
          (detect_engines
            (λ engine_type endpoint.
              probe_engine parse_json to_lowercase (servers endpoint) engine_type)
            processes
            containers)
  detect_engines_told servers processes containers =
      probes_told servers _ (detect_engines_sound _ processes containers).1
