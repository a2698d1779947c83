-- ===== src/Models/Hub.antt =====
-- engines/model_info.rs: what is asked of the hub, and the name of the model that comes of it.
use mathlib.Core.Option
use spark_dashboard.Prelude.{
  ℕ, ◌+◌, ◌<◌, String, ◌≡◌, refl, true, false, not, ◌||◌, Option, none, some, inl, inr, arith, ◌==◌,
  string_eq, Bool-cases, Option-cases, beq_refl, ap, sym, ◌∙◌, or_default, List, [], ◌∷◌, map,
}
use spark_dashboard.Text.{append}
use spark_dashboard.Http.{Server}
use spark_dashboard.Engine.Types.{ModelInfo, ModelMetadataError, named}
use spark_dashboard.Models.{
  ModelResolver, HfModelResponse, OpenAiModelsResponse, hf_model, hf_answer, ask_hub,
  fetch_hf_model_info, resolve, resolve_named, resolve_model_name, hub_url, models_reply, enriched,
  cached_as, is_cooling, is_hub_id, hf_retry_cooldown,
}
use spark_dashboard.Models.Names.{normalize_model_id}

-- One fetch of a model: the hub as it would answer, and the moments it is asked and has failed at.
pub record Fetch : Type 0 where
  pub hub : Option Server
  pub now : ℕ
  pub at : ℕ

cached_as-name :
    (model_id : String) (cache : Option ModelInfo) (m : ModelInfo)
    → cached_as model_id cache ≡ some m
    → m.name ≡ model_id
cached_as-name model_id none m h = cc
cached_as-name model_id (some cached) m h = elim (Bool-cases (cached.name == model_id)) [
  | inl same ↦
      let is : cached ≡ m = ground (arith, same) in
      rw (← is) ((string_eq.beq_iff cached.name model_id).0 same)
  | inr other ↦ ground (arith, other)
]

enriched-name :
    (model_id : String) (found : Option ModelInfo)
    → ((m : ModelInfo) → found ≡ some m → m.name ≡ model_id)
    → (enriched model_id found).name ≡ model_id
unfolding named
enriched-name model_id none h = refl
enriched-name model_id (some m) h = h m refl

module _ (format_tenths : ℕ → ℕ → String) (read_hf : String → Option HfModelResponse) where
  ask_hub-name :
      (hub : Option Server) (model_id : String) (at : ℕ) (s : ModelResolver) (m : ModelInfo)
      → (ask_hub format_tenths read_hf hub model_id at s).0 ≡ some m
      → m.name ≡ model_id
  unfolding hf_model
  ask_hub-name none model_id at s m = λ h. cc
  ask_hub-name (some hub) model_id at s m =
      elim (Option-cases (hf_answer read_hf (hub (append hub_url model_id)))) [
        | inl bad ↦ rw bad (λ h. cc)
        | inr (hf, good) ↦ rw good (λ h. ap (λ o. (or_default m o).name) (sym h))
      ]

  fetch-name :
      (hub : Option Server) (model_id : String) (now at : ℕ) (s : ModelResolver) (m : ModelInfo)
      → (fetch_hf_model_info format_tenths read_hf hub model_id now at s).0 ≡ some m
      → m.name ≡ model_id
  unfolding fetch_hf_model_info
  fetch-name hub model_id now at s m = elim (Option-cases (cached_as model_id s.hf_model_cache)) [
    | inr (cached, hit) ↦
        rw (fetch_hf_model_info, hit) (λ h. cached_as-name model_id s.hf_model_cache m (hit ∙ h))
    | inl miss ↦ elim (Bool-cases (is_cooling s.last_hf_error now || not (is_hub_id model_id))) [
      | inl quiet ↦ rw (fetch_hf_model_info, miss) (rw quiet (λ h. cc))
      | inr asks ↦ rw (fetch_hf_model_info, miss) (rw asks (ask_hub-name hub model_id at s m))
    ]
  ]

  resolve_named-names :
      (hub : Option Server) (now at : ℕ) (name : Option String)
      (metadata_error : Option ModelMetadataError) (s : ModelResolver)
      → Option.map
          (λ m. m.name)
          (resolve_named format_tenths read_hf hub now at name metadata_error s).0.model
        ≡ Option.map normalize_model_id name
  resolve_named-names hub now at none metadata_error s = refl
  resolve_named-names hub now at (some name) metadata_error s = ap some (
      enriched-name (normalize_model_id name) _ (fetch-name hub (normalize_model_id name) now at s))

  -- Whatever the cache holds and the hub answers, the model of an engine has the name that the engine
  -- and its command line give, normalised, and there is a model exactly when there is such a name.
  pub resolve-names :
      (read_models : String → Option OpenAiModelsResponse) (server : Server) (hub : Option Server)
      (now at : ℕ) (s : ModelResolver)
      → Option.map
          (λ m. m.name)
          (resolve format_tenths read_hf read_models server hub now at s).0.model
        ≡ Option.map normalize_model_id
            (resolve_model_name (models_reply read_models (server "/v1/models")) s.served_model).0
  unfolding resolve
  resolve-names read_models server hub now at s = resolve_named-names hub now at _ _ s

  ask_hub-caches :
      (hub : Option Server) (model_id : String) (at : ℕ) (s : ModelResolver) (m : ModelInfo)
      → let asked = ask_hub format_tenths read_hf hub model_id at s in
        asked.0 ≡ some m → cached_as model_id asked.1.hf_model_cache ≡ some m
  unfolding hf_model
  ask_hub-caches none model_id at s m = λ h. cc
  ask_hub-caches (some hub) model_id at s m =
      elim (Option-cases (hf_answer read_hf (hub (append hub_url model_id)))) [
        | inl bad ↦ rw bad (λ h. cc)
        | inr (hf, good) ↦ rw good (λ h. rw (beq_refl model_id) h)
      ]

  fetch-hit :
      (hub : Option Server) (model_id : String) (now at : ℕ) (s : ModelResolver) (m : ModelInfo)
      → cached_as model_id s.hf_model_cache ≡ some m
      → fetch_hf_model_info format_tenths read_hf hub model_id now at s ≡ (some m, s)
  unfolding fetch_hf_model_info
  fetch-hit hub model_id now at s m hit = rw (fetch_hf_model_info, hit) refl

  fetch-caches :
      (hub : Option Server) (model_id : String) (now at : ℕ) (s : ModelResolver) (m : ModelInfo)
      → let first = fetch_hf_model_info format_tenths read_hf hub model_id now at s in
        first.0 ≡ some m → cached_as model_id first.1.hf_model_cache ≡ some m
  unfolding fetch_hf_model_info
  fetch-caches hub model_id now at s m = elim (Option-cases (cached_as model_id s.hf_model_cache)) [
    | inr (cached, hit) ↦ rw (fetch_hf_model_info, hit) (λ h. hit ∙ h)
    | inl miss ↦ elim (Bool-cases (is_cooling s.last_hf_error now || not (is_hub_id model_id))) [
      | inl quiet ↦ rw (fetch_hf_model_info, miss) (rw quiet (λ h. cc))
      | inr asks ↦ rw (fetch_hf_model_info, miss) (rw asks (ask_hub-caches hub model_id at s m))
    ]
  ]

  -- The fetches of one model after each other, each with what the hub would answer and the moments it
  -- is asked and has failed at.
  abbrev pub fetch_all :
      String → List Fetch → ModelResolver → List (Option ModelInfo) × ModelResolver
  fetch_all model_id [] s = ([], s)
  fetch_all model_id (x ∷ fetches) s =
      let one = fetch_hf_model_info format_tenths read_hf x.hub model_id x.now x.at s in
      let rest = fetch_all model_id fetches one.1 in (one.0 ∷ rest.0, rest.1)

  fetch_all-cached :
      (fetches : List Fetch) (model_id : String) (s : ModelResolver) (m : ModelInfo)
      → cached_as model_id s.hf_model_cache ≡ some m
      → fetch_all model_id fetches s ≡ (map (λ x. some m) fetches, s)
  fetch_all-cached [] model_id s m hit = refl
  fetch_all-cached (x ∷ fetches) model_id s m hit =
      rw (fetch-hit x.hub model_id x.now x.at s m hit)
        (rw (fetch_all-cached fetches model_id s m hit) refl)

  -- Where a model has been fetched from the hub, the hub is not asked again as long as fetches are for
  -- that model: each of any run of them gives the same and leaves the resolver as it is, whatever the
  -- hub would answer and however late.
  pub fetch_once :
      (hub : Option Server) (fetches : List Fetch) (model_id : String) (now at : ℕ)
      (s : ModelResolver) (m : ModelInfo)
      → let first = fetch_hf_model_info format_tenths read_hf hub model_id now at s in
        first.0 ≡ some m → fetch_all model_id fetches first.1 ≡ (map (λ x. some m) fetches, first.1)
  fetch_once hub fetches model_id now at s m h =
      fetch_all-cached fetches model_id _ m (fetch-caches hub model_id now at s m h)

  ask_hub-fails :
      (hub : Server) (model_id : String) (at : ℕ) (s : ModelResolver)
      → let asked = ask_hub format_tenths read_hf (some hub) model_id at s in
        asked.0 ≡ none → asked.1.last_hf_error ≡ some at
  ask_hub-fails hub model_id at s =
      elim (Option-cases (hf_answer read_hf (hub (append hub_url model_id)))) [
        | inl bad ↦ rw bad (λ h. refl)
        | inr (hf, good) ↦ rw good (λ h. cc)
      ]

  fetch-fails :
      (hub : Server) (model_id : String) (now at : ℕ) (s : ModelResolver)
      → (is_cooling s.last_hf_error now || not (is_hub_id model_id)) ≡ false
      → let first = fetch_hf_model_info format_tenths read_hf (some hub) model_id now at s in
        first.0 ≡ none → first.1.last_hf_error ≡ some at
  unfolding fetch_hf_model_info
  fetch-fails hub model_id now at s asks =
      elim (Option-cases (cached_as model_id s.hf_model_cache)) [
        | inr (cached, hit) ↦ rw (fetch_hf_model_info, hit) (λ h. cc)
        | inl miss ↦ rw (fetch_hf_model_info, miss) (rw asks (ask_hub-fails hub model_id at s))
      ]

  fetch-cools :
      (one other : Option Server) (model_id : String) (now at : ℕ) (s : ModelResolver)
      → is_cooling s.last_hf_error now ≡ true
      → fetch_hf_model_info format_tenths read_hf one model_id now at s
        ≡ fetch_hf_model_info format_tenths read_hf other model_id now at s
  unfolding fetch_hf_model_info
  fetch-cools one other model_id now at s cooling =
      elim (Option-cases (cached_as model_id s.hf_model_cache)) [
        | inr (cached, hit) ↦ rw (fetch_hf_model_info, hit) refl
        | inl miss ↦ rw (fetch_hf_model_info, miss) (rw cooling refl)
      ]

  pub fetch_cooldown :
      (hub : Server) (one other : Option Server) (model_id next_id : String) (now at now' at' : ℕ)
      (s : ModelResolver)
      → (is_cooling s.last_hf_error now || not (is_hub_id model_id)) ≡ false
      → now' < at + hf_retry_cooldown
      → let first = fetch_hf_model_info format_tenths read_hf (some hub) model_id now at s in
        first.0 ≡ none
        → fetch_hf_model_info format_tenths read_hf one next_id now' at' first.1
          ≡ fetch_hf_model_info format_tenths read_hf other next_id now' at' first.1
  fetch_cooldown hub one other model_id next_id now at now' at' s asks soon h =
      fetch-cools one other next_id now' at' _
        (ap (λ o. is_cooling o now') (fetch-fails hub model_id now at s asks h) ∙ ground arith)
