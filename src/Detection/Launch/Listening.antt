-- ===== src/Detection/Launch/Listening.antt =====
-- engines/detector.rs: where a llama-server listens, as its launch says.
use spark_dashboard.Prelude.{
  find-holds, ℕ, ◌<◌, ◌^◌, String, ◌≡◌, ◌↔◌, ◌⊎◌, inl, inr, refl, subst, Bool, true, false, Option,
  none, some, List, [], ◌∷◌, All, arith, map, any, find, Bool-cases, Option-cases, bind_some, ◌==◌,
  nat_eq, is_some,
}
use spark_dashboard.Text.{split, trim, is_char, parse_uint}
use spark_dashboard.Text.Numbers.{parse_uint_bound}
use spark_dashboard.Detection.Launch.{
  LlamaCppLaunch, LlamaCppListen, is_tcp_host, listen_ports, listen_at, first_tcp_host, listen_on,
  listen, ports, host, port, scan_args, read_setting, llamacpp_launch, launch_of,
}

-- The entries of a `--host`.
abbrev pub host_entries : String → List String
host_entries hosts = map trim (split (is_char b',') hosts)

abbrev pub HasNoTcpHost : Option String → Type 0
HasNoTcpHost none = ⊥
HasNoTcpHost (some hosts) = any is_tcp_host (host_entries hosts) ≡ false

find-any : (test : String → Bool) (xs : List String) → is_some (find test xs) ≡ any test xs
find-any test [] = refl
find-any test (x ∷ xs) = ground (arith, find-any test xs)

listen_at-none :
    (h : Option String) (p : Option ℕ) (defaults : ℕ × ℕ)
    → (listen_at h p defaults ≡ none) ↔ ((p ≡ some 0) ⊎ HasNoTcpHost h)
unfolding listen_at listen_ports listen_on first_tcp_host
listen_at-none none none (a, b) = (λ h. cc, λ h. elim h [ inl e ↦ cc | inr e ↦ elim e [ ] ])
listen_at-none none (some p) (a, b) =
    (λ h. inl (ground arith), λ h. elim h [ inl e ↦ ground arith | inr e ↦ elim e [ ] ])
listen_at-none (some hosts) none (a, b) = ground (arith, find-any is_tcp_host (host_entries hosts))
listen_at-none (some hosts) (some p) (a, b) =
    ground (arith, find-any is_tcp_host (host_entries hosts))

-- A launch listens nowhere exactly when it names port 0, or hosts of which none is a TCP address; any
-- other launch listens, whatever ports are the defaults.
pub listen_nowhere :
    (launch : LlamaCppLaunch) (defaults : ℕ × ℕ)
    → (listen launch defaults ≡ none) ↔ ((launch.port ≡ some 0) ⊎ HasNoTcpHost launch.host)
unfolding listen
listen_nowhere launch defaults = listen_at-none launch.host launch.port defaults

abbrev IsPort : ℕ → Type 0
IsPort p = (0 < p) × (p < 2 ^ 16)

abbrev Below : Option ℕ → Type 0
Below none = Unit
Below (some p) = p < 2 ^ 16

-- Where the address is given it is one of TCP.
abbrev pub IsTcp : Option String → Type 0
IsTcp none = Unit
IsTcp (some h) = is_tcp_host h ≡ true

abbrev IsReachable : LlamaCppListen → Type 0
IsReachable l = All IsPort (ports l) × IsTcp l.host

ne-zero : (p : ℕ) → (p == 0) ≡ false → 0 < p
ne-zero p h = ground arith

listen_on_bounds :
    (h : Option String) (p : Option ℕ) (first other : ℕ) (l : LlamaCppListen)
    → IsPort first
    → IsPort other
    → Below p
    → IsTcp h
    → listen_on h (listen_ports p (first, other)) ≡ some l
    → All IsPort (ports l) × IsTcp l.host
unfolding listen_on listen_ports
listen_on_bounds h none first other l hf ho b t e =
    let same : record { host = h; port = first; fallback_ports = other ∷ [] } ≡ l = ground arith in
    subst IsReachable (same) ((hf, (ho, tt)), t)
listen_on_bounds h (some p) first other l hf ho b t e = elim (Bool-cases (p == 0)) [
  | inl zero_port ↦ ground (arith, zero_port)
  | inr named_port ↦
      let same : record { host = h; port = p; fallback_ports = [] } ≡ l =
        ground (arith, named_port) in
      subst IsReachable (same) (((omega (arith, ne-zero p named_port), b), tt), t)
]

listen_at_bounds :
    (h : Option String) (p : Option ℕ) (first other : ℕ) (l : LlamaCppListen)
    → IsPort first
    → IsPort other
    → Below p
    → listen_at h p (first, other) ≡ some l
    → All IsPort (ports l) × IsTcp l.host
unfolding listen_at first_tcp_host
listen_at_bounds none p first other l hf ho b e = listen_on_bounds none p first other l hf ho b tt e
listen_at_bounds (some hosts) p first other l hf ho b e =
    elim (Option-cases (first_tcp_host hosts)) [
      | inl nowhere ↦ ground (arith, nowhere)
      | inr (h, found) ↦
          listen_on_bounds (some h) p first other l hf ho b
            (find-holds is_tcp_host (host_entries hosts) h found) (ground (arith, found))
    ]

Below-parse_uint :
    (text : Option String) → Below (bind_some text (λ s. parse_uint (2 ^ 16) (trim s)))
Below-parse_uint none = tt
Below-parse_uint (some s) = elim (Option-cases (parse_uint (2 ^ 16) (trim s))) [
  | inl bad ↦ rw bad tt
  | inr (p, good) ↦ rw good (parse_uint_bound (2 ^ 16) (trim s) p good)
]

-- A llama-server that listens, by its command line and environment, may be on ports between 1 and 65535
-- only, if the default ports are, and where its address is given it is not empty, no Unix socket and
-- without a slash.
pub listen_bounds :
    (args : List String) (env : String → Option String) (first other : ℕ) (l : LlamaCppListen)
    → (0 < first) × (first < 2 ^ 16)
    → (0 < other) × (other < 2 ^ 16)
    → listen (llamacpp_launch args env) (first, other) ≡ some l
    → All (λ p. (0 < p) × (p < 2 ^ 16)) (ports l) × IsTcp l.host
unfolding listen llamacpp_launch launch_of
listen_bounds args env first other l hf ho h =
    let read = read_setting (scan_args [] args) env in
    listen_at_bounds (read host) (bind_some (read port) (λ s. parse_uint (2 ^ 16) (trim s))) first
      other l hf ho (Below-parse_uint (read port)) h
