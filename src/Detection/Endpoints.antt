-- ===== src/Detection/Endpoints.antt =====
-- engines/detector.rs: the endpoints on which the host reaches a container's server.
pub mod Published
use spark_dashboard.Prelude.{
  ℕ, zero, suc, ◌+◌, String, Bool, true, false, not, ◌&&◌, ◌||◌, Option, none, some, List, [], ◌∷◌,
  ◌++◌, map, any, is_empty, filterb, find, bind_some, or_default, cons_some, ◌==◌, nat_eq,
  string_eq, leb, if◌then◌else◌, is_some,
}
use spark_dashboard.Text.{
  IpAddr, append, port_text, starts_with, is_empty_text, is_char, trim_matches,
}
use spark_dashboard.Ollama.Host.{OllamaHost, from_env, endpoint, is_unspecified_ip}
use spark_dashboard.Engine.Types.{EngineType, llama_cpp}
use spark_dashboard.Detection.PidLists.{has_text}
use spark_dashboard.Detection.Commands.{runs_engine}
use spark_dashboard.Detection.Launch.{LlamaCppListen, ports}

pub record PublishedPort : Type 0 where
  pub container : ℕ
  pub host : Option ℕ
  pub host_ip : Option String
  pub tcp : Bool

-- `docker_endpoint`: the endpoint, and whether the port is assumed.
unfoldable pub docker_endpoint : Option String → ℕ → String × Bool
unfolding append port_text
docker_endpoint (some p) default_port = (append "http://localhost:" p, false)
docker_endpoint none default_port = (append "http://localhost:" (port_text default_port), true)

abbrev pub is_host_network : Option String → Bool
is_host_network none = false
is_host_network (some mode) = mode == "host"

-- What is assumed of a network on which nothing is published.
unfoldable pub is_assumed_reachable : Option String → Bool
unfolding starts_with
is_assumed_reachable none = true
is_assumed_reachable (some mode) = starts_with mode "container:"

-- The first binding of the port that the server listens on.
unfoldable pub ollama_binding : ℕ → List PublishedPort → Option (ℕ × String)
ollama_binding listening [] = none
ollama_binding listening (p ∷ published) =
    let later = ollama_binding listening published in
    if p.tcp && p.container == listening
    then elim p.host [ some host ↦ some (host, or_default "" p.host_ip) | none ↦ later ]
    else later

module _ (parse_ip : String → Option IpAddr) where
  -- The host of an endpoint for the host address of a binding.
  abbrev pub binding_host : String → String
  binding_host ip = elim (parse_ip ip) [
    | some address ↦ if address.is_unspecified then "" else address.ip_text
    | none ↦ ip
  ]

  unfoldable pub ollama_container_endpoint :
      OllamaHost → Option String → List PublishedPort → Option String
  ollama_container_endpoint listen network_mode published =
      if is_host_network network_mode
      then some (endpoint parse_ip listen)
      else elim (ollama_binding listen.port published) [
        | some (port, ip) ↦ some (
            endpoint parse_ip
              (record (from_env parse_ip none) { host = binding_host ip; port = port }))
        | none ↦ if is_assumed_reachable network_mode then some (endpoint parse_ip listen) else none
      ]

  -- The host of an endpoint, as it stands in the URL.
  abbrev pub url_host : String → String
  url_host host = elim (parse_ip host) [
    | some ip ↦
        if ip.is_unspecified
        then "localhost"
        else if ip.is_ipv6
        then append "[" (append ip.ip_text "]")
        else ip.ip_text
    | none ↦ if is_empty_text host then "localhost" else host
  ]

  unfoldable pub llamacpp_endpoint : Option String → ℕ → String
  unfolding append port_text trim_matches
  llamacpp_endpoint host port =
      let name = trim_matches (λ c. is_char b'[' c || is_char b']' c) (or_default "" host) in
      append "http://" (append (url_host name) (append ":" (port_text port)))

  -- `LlamaCppListen::endpoints`, the first one in front
  unfoldable pub endpoints : LlamaCppListen → List String
  endpoints listen = map (llamacpp_endpoint listen.host) (ports listen)

-- The place of a port among those of the server; the number of those stands for a greater one.
abbrev pub position : ℕ → List ℕ → ℕ
position port [] = 0
position port (p ∷ others) = let rest = position port others in if p == port then 0 else suc rest

-- A published TCP port: the port in the container, that on the host, and the address there.
abbrev pub Binding : Type 0
Binding = ℕ × ℕ × Option String

abbrev pub binding_of : PublishedPort → Option Binding
binding_of p =
    if p.tcp
    then elim p.host [ some host ↦ some (p.container, host, p.host_ip) | none ↦ none ]
    else none

abbrev pub tcp_bindings : List PublishedPort → List Binding
tcp_bindings [] = []
tcp_bindings (p ∷ published) = cons_some (binding_of p) (tcp_bindings published)

-- `sort_by_key`, which keeps the order of equal keys
abbrev pub insert_binding : (Binding → ℕ) → Binding → List Binding → List Binding
insert_binding key b [] = b ∷ []
insert_binding key b (c ∷ bindings) =
    let rest = insert_binding key b bindings in
    if leb (key b) (key c) then b ∷ c ∷ bindings else c ∷ rest

unfoldable pub sort_by_key : (Binding → ℕ) → List Binding → List Binding
sort_by_key key [] = []
sort_by_key key (b ∷ bindings) = insert_binding key b (sort_by_key key bindings)

module _ (parse_ip : String → Option IpAddr) where
  -- The loop over the bindings.
  unfoldable pub push_endpoints : List String → List Binding → List String
  push_endpoints known [] = known
  push_endpoints known ((container, host, ip) ∷ bindings) =
      let endpoint = llamacpp_endpoint parse_ip ip host in
      push_endpoints (if has_text endpoint known then known else known ++ endpoint ∷ []) bindings

  unfoldable pub published_endpoints : LlamaCppListen → List PublishedPort → List String
  published_endpoints listen published =
      push_endpoints [] (sort_by_key (λ b. position b.0 (ports listen)) (tcp_bindings published))

  unfoldable pub llamacpp_container_endpoints :
      LlamaCppListen → Option String → List PublishedPort → List String
  llamacpp_container_endpoints listen network_mode published =
      if is_host_network network_mode
      then endpoints parse_ip listen
      else if not (is_empty (published_endpoints listen published))
      then published_endpoints listen published
      else if is_assumed_reachable network_mode
      then endpoints parse_ip listen
      else []

unfoldable pub llamacpp_container_command : String → List String → String
unfolding runs_engine
llamacpp_container_command command processes =
    if runs_engine command llama_cpp
    then command
    else or_default command (find (λ process. runs_engine process llama_cpp) processes)
