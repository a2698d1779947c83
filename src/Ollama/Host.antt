-- ===== src/Ollama/Host.antt =====
-- engines/ollama.rs: `OLLAMA_HOST`, read as Ollama reads it. The parsing of IP addresses is a parameter.
use Prim.Native.Char.{code}
use spark_dashboard.Prelude.{
  ℕ, ◌^◌, String, Bool, false, ◌||◌, Option, none, some, bind_some, or_default, ◌==◌, nat_eq,
  string_eq, if◌then◌else◌,
}
use spark_dashboard.Text.{
  IpAddr, append, port_text, trim, trim_matches, is_char, contains, starts_with, strip_prefix,
  split_first, split_once, rsplit_once, read_some, is_empty_text,
}

pub record OllamaHost : Type 0 where
  pub scheme : String
  pub host : String
  pub port : ℕ
  pub path : String

abbrev pub default_port : ℕ
default_port = 11434

-- The value with the white space and the quotes around it taken away.
unfoldable pub cleaned : Option String → String
unfolding trim trim_matches
cleaned value =
    trim (trim_matches (λ c. is_char b'"' c || is_char b'\'' c) (trim (or_default "" value)))

abbrev pub scheme_port : String → ℕ
scheme_port scheme =
    if scheme == "http" then 80 else if scheme == "https" then 443 else default_port

-- The scheme, the rest of the value, and the default port.
unfoldable pub split_scheme : String → String × String × ℕ
unfolding split_once
split_scheme s = elim (split_once "://" s) [
  | none ↦
      if s == "ollama.com"
      then ("https", "ollama.com:443", default_port)
      else ("http", s, default_port)
  | some (scheme, hostport) ↦ (scheme, hostport, scheme_port scheme)
]

-- `[host]:port`, from its start to its end.
unfoldable pub split_bracketed : String → Option (String × String)
unfolding split_first strip_prefix contains
split_bracketed hostport =
    let (opened, closed) = split_first (is_char b']') hostport in
    bind_some closed (λ rest. bind_some (strip_prefix ":" rest) (λ port.
      bind_some (strip_prefix "[" opened) (λ host.
        if contains port ":" || contains host "[" || contains rest "[" || contains rest "]"
        then none
        else some (host, port))))

unfoldable pub split_host_port : String → Option (String × String)
unfolding rsplit_once split_bracketed contains starts_with
split_host_port hostport = elim (rsplit_once (is_char b':') hostport) [
  | none ↦ none
  | some (host, port) ↦
      if starts_with hostport "["
      then split_bracketed hostport
      else if contains host ":" || contains hostport "[" || contains hostport "]"
      then none
      else some (host, port)
]

-- `parse::<i32>`, and `u16::try_from` of the number
abbrev pub parse_port : String → Option ℕ
parse_port String.[] = none
parse_port (String.◌∷◌ c text) =
    if code c == b'+'
    then read_some (2 ^ 16) text
    else if code c == b'-'
    then read_some 1 text
    else read_some (2 ^ 16) (String.◌∷◌ c text)

abbrev pub canonical_ip : IpAddr → String
canonical_ip ip = if ip.is_ipv6 then or_default ip.ip_text ip.ipv4_mapped else ip.ip_text

unfoldable pub join_host_port : String → ℕ → String
unfolding append contains port_text
join_host_port host port =
    if contains host ":"
    then append "[" (append host (append "]:" (port_text port)))
    else append host (append ":" (port_text port))

module _ (parse_ip : String → Option IpAddr) where
  -- The host of a value that names no port.
  unfoldable pub host_alone : String → String
  unfolding trim_matches
  host_alone hostport =
      elim (parse_ip (trim_matches (λ c. is_char b'[' c || is_char b']' c) hostport)) [
        | some ip ↦ canonical_ip ip
        | none ↦ if is_empty_text hostport then "127.0.0.1" else hostport
      ]

  unfoldable pub address : String → String × String
  unfolding split_host_port host_alone
  address hostport = elim (split_host_port hostport) [
    | some (host, port) ↦ (host, port)
    | none ↦ (host_alone hostport, "")
  ]

  unfoldable pub from_env : Option String → OllamaHost
  unfolding cleaned split_scheme split_first address
  from_env value =
      let (scheme, rest, default_for_scheme) = split_scheme (cleaned value) in
      let (hostport, path) = split_first (is_char b'/') rest in
      let (host, port) = address hostport in
      record {
        scheme = scheme;
        host = host;
        port = or_default default_for_scheme (parse_port port);
        path = or_default "" path;
      }

  abbrev pub is_unspecified_ip : Option IpAddr → Bool
  is_unspecified_ip none = false
  is_unspecified_ip (some ip) = ip.is_unspecified

  abbrev pub is_wildcard : String → Bool
  is_wildcard host = is_empty_text host || is_unspecified_ip (parse_ip host)

  unfoldable pub endpoint : OllamaHost → String
  unfolding append join_host_port
  endpoint h =
      append "http://" (join_host_port (if is_wildcard h.host then "127.0.0.1" else h.host) h.port)

unfoldable pub url : OllamaHost → String
unfolding append join_host_port
url h =
    let location = append h.scheme (append "://" (join_host_port h.host h.port)) in
    if is_empty_text h.path then location else append location (append "/" h.path)
