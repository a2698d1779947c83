-- ===== src/Detection/Endpoints/Published.antt =====
-- engines/detector.rs: the endpoints of a llama.cpp container that publishes ports.
use spark_dashboard.Prelude.{
  ℕ, String, ◌≡◌, ◌∙◌, refl, ap, subst, Bool, true, false, not, ◌&&◌, ◌||◌, Option, List, [], ◌∷◌,
  ◌++◌, inl, inr, arith, List-cases, any, is_empty, ◌==◌, string_eq, nat_eq, if◌then◌else◌,
  Bool-cases, beq_sym, map,
}
use spark_dashboard.Text.{IpAddr}
use spark_dashboard.Detection.PidLists.{has_text}
use spark_dashboard.Detection.Launch.{LlamaCppListen, ports}
use spark_dashboard.Detection.Endpoints.{
  PublishedPort, Binding, tcp_bindings, position, insert_binding, sort_by_key, is_host_network,
  is_assumed_reachable, llamacpp_endpoint, endpoints, push_endpoints, published_endpoints,
  llamacpp_container_endpoints,
}

has_text-append :
    (e : String) (xs ys : List String) → has_text e (xs ++ ys) ≡ (has_text e xs || has_text e ys)
has_text-append e [] ys = refl
has_text-append e (x ∷ xs) ys = ground (arith, has_text-append e xs ys)

abbrev pub DistinctTexts : List String → Type 0
DistinctTexts [] = Unit
DistinctTexts (x ∷ xs) = (has_text x xs ≡ false) × DistinctTexts xs

DistinctTexts-append_one :
    (x : String) (xs : List String)
    → has_text x xs ≡ false
    → DistinctTexts xs
    → DistinctTexts (xs ++ x ∷ [])
DistinctTexts-append_one x [] h d = (refl, tt)
DistinctTexts-append_one x (y ∷ ys) h d = (
  ground (arith, has_text-append y ys (x ∷ []), beq_sym x y),
  DistinctTexts-append_one x ys (ground arith) d.1,
)

any-insert_binding :
    (f : Binding → Bool) (key : Binding → ℕ) (b : Binding) (bs : List Binding)
    → any f (insert_binding key b bs) ≡ (f b || any f bs)
any-insert_binding f key b [] = refl
any-insert_binding f key b (c ∷ bs) = ground (arith, any-insert_binding f key b bs)

any-sort_by_key :
    (f : Binding → Bool) (key : Binding → ℕ) (bs : List Binding)
    → any f (sort_by_key key bs) ≡ any f bs
unfolding sort_by_key
any-sort_by_key f key [] = refl
any-sort_by_key f key (b ∷ bs) =
    any-insert_binding f key b (sort_by_key key bs) ∙ ap (λ r. f b || r) (any-sort_by_key f key bs)

has_old :
    (e x : String) (known : List String) (later : Bool)
    → has_text x known ≡ true
    → (has_text e known || later) ≡ (has_text e known || (x == e || later))
has_old e x known later old = elim (Bool-cases (x == e)) [
  | inl same ↦
      let here : has_text e known ≡ true =
        subst (λ y. has_text y known ≡ true) ((string_eq.beq_iff x e).0 same) old in
      rw here refl
  | inr differ ↦ rw differ refl
]

has_new :
    (e x : String) (known : List String) (later : Bool)
    → (has_text e (known ++ x ∷ []) || later) ≡ (has_text e known || (x == e || later))
has_new e x known later = ground (arith, has_text-append e known (x ∷ []))

not_empty_of : (x : String) (known : List String) → has_text x known ≡ true → is_empty known ≡ false
not_empty_of x [] h = cc
not_empty_of x (y ∷ ys) h = refl

is_empty-append_one : (x : String) (known : List String) → is_empty (known ++ x ∷ []) ≡ false
is_empty-append_one x [] = refl
is_empty-append_one x (y ∷ ys) = refl

is_empty-sort_by_key :
    (key : Binding → ℕ) (bs : List Binding) → is_empty (sort_by_key key bs) ≡ is_empty bs
unfolding sort_by_key
is_empty-sort_by_key key [] = refl
is_empty-sort_by_key key (b ∷ bs) = elim (List-cases (sort_by_key key bs)) [
  | inl none_left ↦ rw none_left refl
  | inr (c, cs, e) ↦ rw e (ground arith)
]

is_empty-chosen :
    (on_host assumed : Bool) (x : String) (xs published : List String)
    → is_empty (
        if on_host
        then x ∷ xs
        else if not (is_empty published)
        then published
        else if assumed
        then x ∷ xs
        else [])
      ≡ (not on_host && (is_empty published && not assumed))
is_empty-chosen true assumed x xs published = refl
is_empty-chosen false true x xs [] = refl
is_empty-chosen false false x xs [] = refl
is_empty-chosen false true x xs (p ∷ published) = refl
is_empty-chosen false false x xs (p ∷ published) = refl

module _ (parse_ip : String → Option IpAddr) where
  abbrev pub endpoint_of : Binding → String
  endpoint_of (container, host, ip) = llamacpp_endpoint parse_ip ip host

  has_text-push_endpoints :
      (e : String) (known : List String) (bs : List Binding)
      → has_text e (push_endpoints parse_ip known bs)
        ≡ (has_text e known || any (λ b. endpoint_of b == e) bs)
  unfolding push_endpoints
  has_text-push_endpoints e known [] = ground arith
  has_text-push_endpoints e known ((container, host, ip) ∷ bs) =
      let x = llamacpp_endpoint parse_ip ip host in
      elim (Bool-cases (has_text x known)) [
        | inl old ↦
            rw (push_endpoints, old)
              (has_text-push_endpoints e known bs
                ∙ has_old e x known (any (λ b. endpoint_of b == e) bs) old)
        | inr new ↦
            rw (push_endpoints, new)
              (has_text-push_endpoints e (known ++ x ∷ []) bs
                ∙ has_new e x known (any (λ b. endpoint_of b == e) bs))
      ]

  DistinctTexts-push_endpoints :
      (known : List String) (bs : List Binding)
      → DistinctTexts known
      → DistinctTexts (push_endpoints parse_ip known bs)
  unfolding push_endpoints
  DistinctTexts-push_endpoints known [] d = d
  DistinctTexts-push_endpoints known ((container, host, ip) ∷ bs) d =
      let x = llamacpp_endpoint parse_ip ip host in
      elim (Bool-cases (has_text x known)) [
        | inl old ↦
            rw (DistinctTexts, push_endpoints, old) (DistinctTexts-push_endpoints known bs d)
        | inr new ↦
            rw (DistinctTexts, push_endpoints, new)
              (DistinctTexts-push_endpoints (known ++ x ∷ []) bs
                (DistinctTexts-append_one x known new d))
      ]

  -- The published endpoints are those of the published TCP ports, and no endpoint is there twice.
  abbrev pub HasPublished : LlamaCppListen → List PublishedPort → Type 0
  HasPublished listen published =
      ((e : String)
        → has_text e (published_endpoints parse_ip listen published)
          ≡ any (λ b. endpoint_of b == e) (tcp_bindings published))
      × DistinctTexts (published_endpoints parse_ip listen published)

  published_endpoints_lem :
      (listen : LlamaCppListen) (published : List PublishedPort) → HasPublished listen published
  unfolding published_endpoints
  published_endpoints_lem listen published =
      let key : Binding → ℕ = λ b. position b.0 (ports listen) in
      (
        λ e.
            has_text-push_endpoints e [] (sort_by_key key (tcp_bindings published))
            ∙ any-sort_by_key (λ b. endpoint_of b == e) key (tcp_bindings published),
        DistinctTexts-push_endpoints [] (sort_by_key key (tcp_bindings published)) tt,
      )

  is_empty-push_endpoints :
      (known : List String) (bs : List Binding)
      → is_empty (push_endpoints parse_ip known bs) ≡ (is_empty known && is_empty bs)
  unfolding push_endpoints
  is_empty-push_endpoints known [] = ground arith
  is_empty-push_endpoints known ((container, host, ip) ∷ bs) =
      let x = llamacpp_endpoint parse_ip ip host in
      elim (Bool-cases (has_text x known)) [
        | inl old ↦
            rw (push_endpoints, old)
              (is_empty-push_endpoints known bs ∙ ground (arith, not_empty_of x known old))
        | inr new ↦
            rw (push_endpoints, new)
              (is_empty-push_endpoints (known ++ x ∷ []) bs
                ∙ ground (arith, is_empty-append_one x known))
      ]

  is_empty-published_endpoints :
      (listen : LlamaCppListen) (published : List PublishedPort)
      → is_empty (published_endpoints parse_ip listen published) ≡ is_empty (tcp_bindings published)
  unfolding published_endpoints
  is_empty-published_endpoints listen published =
      let key : Binding → ℕ = λ b. position b.0 (ports listen) in
      is_empty-push_endpoints [] (sort_by_key key (tcp_bindings published))
      ∙ is_empty-sort_by_key key (tcp_bindings published)

  -- A llama.cpp container is on no endpoint exactly when it is not on the host's network, no TCP port
  -- of it is published, and its network is known and not another container's.
  pub llamacpp_container_endpoints_unreachable :
      (listen : LlamaCppListen) (network_mode : Option String) (published : List PublishedPort)
      → is_empty (llamacpp_container_endpoints parse_ip listen network_mode published) ≡ (
          not (is_host_network network_mode)
          && (is_empty (tcp_bindings published) && not (is_assumed_reachable network_mode)))
  unfolding llamacpp_container_endpoints endpoints
  llamacpp_container_endpoints_unreachable listen network_mode published =
      is_empty-chosen (is_host_network network_mode) (is_assumed_reachable network_mode)
        (llamacpp_endpoint parse_ip listen.host listen.port)
        (map (llamacpp_endpoint parse_ip listen.host) listen.fallback_ports)
        (published_endpoints parse_ip listen published)
      ∙ ap
          (λ b.
            not (is_host_network network_mode) && (b && not (is_assumed_reachable network_mode)))
          (is_empty-published_endpoints listen published)

  -- Off the host's network, where TCP ports are published, the endpoints are those of the published
  -- ports, all of them and no others, and none is there twice.
  pub llamacpp_container_endpoints_published :
      (listen : LlamaCppListen) (network_mode : Option String) (published : List PublishedPort)
      → is_host_network network_mode ≡ false
      → is_empty (tcp_bindings published) ≡ false
      → ((e : String)
          → has_text e (llamacpp_container_endpoints parse_ip listen network_mode published)
            ≡ any (λ b. endpoint_of b == e) (tcp_bindings published))
        × DistinctTexts (llamacpp_container_endpoints parse_ip listen network_mode published)
  unfolding llamacpp_container_endpoints
  llamacpp_container_endpoints_published listen network_mode published off_host bound =
      let filled : is_empty (published_endpoints parse_ip listen published) ≡ false =
        is_empty-published_endpoints listen published ∙ bound in
      rw (DistinctTexts, off_host)
        (rw (DistinctTexts, filled) (published_endpoints_lem listen published))
