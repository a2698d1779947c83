-- ===== src/Detection/Probe/Ollamas.antt =====
-- engines/detector.rs: what an Ollama that the probe accepts has answered.
use spark_dashboard.Prelude.{
  ◌⊎◌, ◌∙◌, ap, is_some, bind_some, string_eq, String, ◌≡◌, refl, true, Option, some, inl, inr,
  arith, nat_eq, Option-cases,
}
use spark_dashboard.Json.{Json, get, as_text, as_array}
use spark_dashboard.Http.{Server, Reply, answered, failed, is_success, Reply-cases, HttpResponse}
use spark_dashboard.Ollama.Identify

-- The server answers the path, with something of the answer.
abbrev pub Answers : Server → String → (HttpResponse → Type 0) → Type 0
Answers server path P = (r : HttpResponse) × (server path ≡ answered r) × P r

module _ (parse_json : String → Option Json) where
  -- The answer is a success whose body is JSON with the key, and has what the reading takes.
  abbrev pub Gives : {A : Type 0} → String → (Json → Option A) → HttpResponse → Type 0
  Gives {A} key read r =
      (is_success r.status ≡ true)
      × ((body : String) × (v : Json) × (x : Json) × (a : A) × (r.body ≡ some body)
          × (parse_json body ≡ some v)
          × (get v key ≡ some x)
          × (read x ≡ some a))

  -- An Ollama gives its version, and gives the models that it has loaded or is too late with them.
  abbrev pub IsOllama : Server → Type 0
  IsOllama server =
      Answers server "/api/version" (Gives "version" as_text)
      × (((message : String) × (server "/api/ps" ≡ failed true message))
          ⊎ Answers server "/api/ps" (Gives "models" as_array))

  json_at-success :
      (reply : Reply) (v : Json)
      → Identify.json_at parse_json reply ≡ some v
      → (r : HttpResponse) × (body : String) × (reply ≡ answered r)
        × (is_success r.status ≡ true)
        × (r.body ≡ some body)
        × (parse_json body ≡ some v)
  unfolding Identify.json_at
  json_at-success (failed timeout message) v h = cc
  json_at-success (answered r) v h = elim (Option-cases r.body) [
    | inl nothing ↦ ground (arith, nothing)
    | inr (body, is) ↦ (r, body, refl, ground arith, is, ground (arith, is))
  ]

  Gives-read :
      {A : Type 0} (key : String) (read : Json → Option A) (server : Server) (path : String)
      (v : Json)
      → Identify.json_at parse_json (server path) ≡ some v
      → is_some (bind_some (get v key) read) ≡ true
      → Answers server path (Gives key read)
  Gives-read key read server path v h k =
      let (r, body, got, success, has_body, parsed) = json_at-success (server path) v h in
      elim (Option-cases (get v key)) [
        | inl nothing ↦ ground (arith, nothing)
        | inr (x, at_key) ↦ elim (Option-cases (read x)) [
          | inl nothing ↦ ground (arith, at_key, nothing)
          | inr (a, reads) ↦ (r, got, (success, (body, v, x, a, has_body, parsed, at_key, reads)))
        ]
      ]

  ps_told :
      (server : Server)
      → Identify.ps_answers_like_ollama parse_json (server "/api/ps") ≡ true
      → ((message : String) × (server "/api/ps" ≡ failed true message))
        ⊎ Answers server "/api/ps" (Gives "models" as_array)
  unfolding Identify.ps_answers_like_ollama
  ps_told server h = elim (Reply-cases (server "/api/ps")) [
    | inl (timeout, message, lost) ↦
        let late : timeout ≡ true = ground (arith, lost) in
        inl (message, lost ∙ ap (λ b. failed b message) late)
    | inr (r, got) ↦ elim (Option-cases (Identify.json_at parse_json (server "/api/ps"))) [
      | inl nothing ↦ ground (arith, got, nothing)
      | inr (v, json) ↦
          inr (Gives-read "models" as_array server "/api/ps" v json (ground (arith, got, json)))
    ]
  ]

  pub identify-IsOllama :
      (server : Server) → Identify.identify parse_json server ≡ true → IsOllama server
  unfolding Identify.identify
  identify-IsOllama server h =
      elim (Option-cases (Identify.json_at parse_json (server "/api/version"))) [
        | inl nothing ↦ ground (arith, nothing)
        | inr (v, json) ↦ (
          Gives-read "version" as_text server "/api/version" v json (ground (arith, json)),
          ps_told server (ground (arith, json)),
        )
      ]
