-- ===== src/Detection/Candidates/Verified.antt =====
-- engines/detector.rs: the engines that the verification returns.
use spark_dashboard.Prelude.{
  find-holds, ℕ, get_elem?, All-get_elem, String, ◌≡◌, refl, Bool, true, false, ◌||◌, some, List,
  [], ◌∷◌, inl, inr, any, All, find, arith, ◌==◌, Bool-cases, Option-cases, beq_refl, beq_sym, ap,
}
use spark_dashboard.Engine.Types.{EngineType, Key, key_eq}
use spark_dashboard.Engine.Collector.{DetectedEngine, detected_key}
use spark_dashboard.Detection.Candidates.{
  add_fallbacks, fold_into, join_on_endpoint, merge_docker_candidates, answering, verify_one,
  verify_from, verify_candidates, detect_engines,
}

-- Some candidate has the key.
abbrev pub has_key : Key → List DetectedEngine → Bool
has_key key candidates = any (λ c. detected_key c == key) candidates

-- No two candidates have one key.
abbrev pub DistinctKeys : List DetectedEngine → Type 0
DistinctKeys [] = Unit
DistinctKeys (c ∷ cs) = (has_key (detected_key c) cs ≡ false) × DistinctKeys cs

fold_into-key : (c d : DetectedEngine) → detected_key (fold_into c d) ≡ detected_key c
unfolding fold_into
fold_into-key c d = refl

has_key-join_on_endpoint :
    (key : Key) (cs : List DetectedEngine) (d : DetectedEngine)
    → has_key key (join_on_endpoint cs d) ≡ (has_key key cs || detected_key d == key)
unfolding join_on_endpoint fold_into
has_key-join_on_endpoint key [] d = ground arith
has_key-join_on_endpoint key (c ∷ cs) d = elim (Bool-cases (detected_key c == detected_key d)) [
  | inl same ↦
      let one : (detected_key c == key) ≡ (detected_key d == key) =
        ap (λ k. k == key) ((key_eq.beq_iff (detected_key c) (detected_key d)).0 same) in
      rw (same, fold_into) (ground (arith, one))
  | inr other ↦ rw other (ground (arith, has_key-join_on_endpoint key cs d))
]

DistinctKeys-join_on_endpoint :
    (cs : List DetectedEngine) (d : DetectedEngine)
    → DistinctKeys cs
    → DistinctKeys (join_on_endpoint cs d)
unfolding join_on_endpoint fold_into
DistinctKeys-join_on_endpoint [] d h = (refl, tt)
DistinctKeys-join_on_endpoint (c ∷ cs) d h = elim (Bool-cases (detected_key c == detected_key d)) [
  | inl same ↦ rw same h
  | inr other ↦ rw other (
    ground (
      arith,
      has_key-join_on_endpoint (detected_key c) cs d,
      beq_sym (detected_key c) (detected_key d),
    ),
    DistinctKeys-join_on_endpoint cs d h.1,
  )
]

-- Every engine of the result answers its probe, and has no endpoint left to fall back on.
abbrev IsVerified : (EngineType → String → Bool) → DetectedEngine → Type 0
IsVerified probe c = (probe c.engine_type c.endpoint ≡ true) × (c.fallback_endpoints ≡ [])

module _ (probe : EngineType → String → Bool) where
  IsVerified-join_on_endpoint :
      (cs : List DetectedEngine) (d : DetectedEngine)
      → IsVerified probe d
      → All (IsVerified probe) cs
      → All (IsVerified probe) (join_on_endpoint cs d)
  unfolding join_on_endpoint fold_into add_fallbacks
  IsVerified-join_on_endpoint [] d hd h = (hd, tt)
  IsVerified-join_on_endpoint (c ∷ cs) d hd h =
      elim (Bool-cases (detected_key c == detected_key d)) [
        | inl same ↦ rw (same, fold_into, add_fallbacks) ((h.0.0, rw hd.1 h.0.1), h.1)
        | inr other ↦ rw other (h.0, IsVerified-join_on_endpoint cs d hd h.1)
      ]

  found_at : DetectedEngine → String → DetectedEngine
  found_at c endpoint = record c { endpoint = endpoint; fallback_endpoints = [] }

  IsVerified-verify_one :
      (verified : List DetectedEngine) (c : DetectedEngine)
      → DistinctKeys verified × All (IsVerified probe) verified
      → DistinctKeys (verify_one probe verified c)
        × All (IsVerified probe) (verify_one probe verified c)
  unfolding verify_one found_at
  IsVerified-verify_one verified c h = elim (Option-cases (answering probe c)) [
    | inl silent ↦ rw (DistinctKeys, All, verify_one, silent) h
    | inr (endpoint, answers) ↦
        rw (verify_one, answers)
          (
            DistinctKeys-join_on_endpoint verified (found_at c endpoint) h.0,
            IsVerified-join_on_endpoint verified (found_at c endpoint)
                (
                  find-holds (probe c.engine_type) (c.endpoint ∷ c.fallback_endpoints) endpoint
                      answers,
                  refl,
                )
                h.1,
          )
  ]

  IsVerified-verify_from :
      (verified cs : List DetectedEngine)
      → DistinctKeys verified × All (IsVerified probe) verified
      → DistinctKeys (verify_from probe verified cs)
        × All (IsVerified probe) (verify_from probe verified cs)
  IsVerified-verify_from verified [] h = h
  IsVerified-verify_from verified (c ∷ cs) h =
      IsVerified-verify_from (verify_one probe verified c) cs (IsVerified-verify_one verified c h)

  -- The detection, whatever the two scans found, returns one engine for each engine type and
  -- endpoint; each engine's API answered as its type on its endpoint, and none has endpoints left to
  -- try.
  pub detect_engines_sound :
      (processes containers : List DetectedEngine)
      → DistinctKeys (detect_engines probe processes containers)
        × All
            (λ c. (probe c.engine_type c.endpoint ≡ true) × (c.fallback_endpoints ≡ []))
            (detect_engines probe processes containers)
  unfolding detect_engines verify_candidates
  detect_engines_sound processes containers =
      IsVerified-verify_from [] (merge_docker_candidates processes containers) (tt, tt)

  has_key-verify_one :
      (key : Key) (verified : List DetectedEngine) (c : DetectedEngine)
      → has_key key verified ≡ true
      → has_key key (verify_one probe verified c) ≡ true
  unfolding verify_one found_at
  has_key-verify_one key verified c h = elim (Option-cases (answering probe c)) [
    | inl silent ↦ rw (verify_one, silent) h
    | inr (endpoint, answers) ↦
        rw (verify_one, answers)
          (ground (arith, has_key-join_on_endpoint key verified (found_at c endpoint)))
  ]

  has_key-verify_from :
      (key : Key) (verified cs : List DetectedEngine)
      → has_key key verified ≡ true
      → has_key key (verify_from probe verified cs) ≡ true
  has_key-verify_from key verified [] h = h
  has_key-verify_from key verified (c ∷ cs) h =
      has_key-verify_from key (verify_one probe verified c) cs (has_key-verify_one key verified c h)

  -- Where an endpoint of the candidate answers, the engine on the first that does is among these.
  abbrev IsAnswered : List DetectedEngine → DetectedEngine → Type 0
  IsAnswered engines c =
      (endpoint : String)
      → answering probe c ≡ some endpoint
      → has_key (c.engine_type, endpoint) engines ≡ true

  IsAnswered-verify_one :
      (verified : List DetectedEngine) (c : DetectedEngine)
      → IsAnswered (verify_one probe verified c) c
  unfolding verify_one found_at
  IsAnswered-verify_one verified c endpoint answers =
      rw (verify_one, answers)
        (ground (
          arith,
          has_key-join_on_endpoint (c.engine_type, endpoint) verified (found_at c endpoint),
          beq_refl ⦃e = key_eq⦄ (c.engine_type, endpoint),
        ))

  IsAnswered-verify_from :
      (verified cs : List DetectedEngine) → All (IsAnswered (verify_from probe verified cs)) cs
  IsAnswered-verify_from verified [] = tt
  IsAnswered-verify_from verified (c ∷ cs) = (
    λ endpoint answers.
        has_key-verify_from (c.engine_type, endpoint) (verify_one probe verified c) cs
          (IsAnswered-verify_one verified c endpoint answers),
    IsAnswered-verify_from (verify_one probe verified c) cs,
  )

  -- No reachable engine is lost: for each candidate of the merge of which some endpoint answers the
  -- probe of its type, the detection returns an engine of that type on the first endpoint of it that
  -- answers, its fallback endpoints after its own.
  pub detect_engines_complete :
      (processes containers : List DetectedEngine) (i : ℕ) (c : DetectedEngine) (endpoint : String)
      → get_elem? (merge_docker_candidates processes containers) i ≡ some c
      → find (probe c.engine_type) (c.endpoint ∷ c.fallback_endpoints) ≡ some endpoint
      → has_key (c.engine_type, endpoint) (detect_engines probe processes containers) ≡ true
  unfolding detect_engines verify_candidates
  detect_engines_complete processes containers i c endpoint at answers =
      let merged = merge_docker_candidates processes containers in
      All-get_elem (IsAnswered (verify_from probe [] merged)) merged i c
        (IsAnswered-verify_from [] merged) at endpoint answers
