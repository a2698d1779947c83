-- ===== src/Ollama/Refresh.antt =====
-- engines/ollama.rs: runs of refreshes of the list of the loaded models.
use spark_dashboard.Prelude.{
  String, ◌≡◌, refl, ap, ◌∙◌, Option, none, some, List, [], ◌∷◌, ◌++◌, All, true, false, ◌⊎◌, inl,
  inr, Bool-cases,
}
use spark_dashboard.Http.{Server, Reply, answered, failed, HttpResponse, is_success}
use spark_dashboard.Sorting.{sort}
use spark_dashboard.Engine.Types.{LoadedModel}
use spark_dashboard.Ollama.Adapter.{
  PsResponse, OllamaAdapter, loaded_models, loaded_model, filter_map, name_le, parse_ps, read_ps,
  refresh_loaded_models,
}
use spark_dashboard.Ollama.Loaded.{IsListing, IsListing-sort}

module _ (read_response : String → Option PsResponse) where
  unfoldable pub refresh_all : List Server → OllamaAdapter → OllamaAdapter
  unfolding refresh_loaded_models
  refresh_all [] a = a
  refresh_all (server ∷ servers) a =
      refresh_all servers (refresh_loaded_models read_response server a)

  -- What a request for the list comes to that gives none: no answer in time or at all, a status that is
  -- no success, a body that is lost, or one that is not a list.
  abbrev pub IsSilent : Reply → Type 0
  IsSilent (failed timeout message) = Unit
  IsSilent (answered r) =
      (is_success r.status ≡ false)
      ⊎ ((r.body ≡ none) ⊎ ((body : String) × (r.body ≡ some body) × (read_response body ≡ none)))

  abbrev pub GivesNoList : Server → Type 0
  GivesNoList server = IsSilent (server "/api/ps")

  -- An answer with a list: a success with a body that can be read.
  abbrev pub Lists : Reply → PsResponse → Type 0
  Lists reply response =
      (r : HttpResponse) × (body : String) × (reply ≡ answered r)
      × (is_success r.status ≡ true)
      × (r.body ≡ some body)
      × (read_response body ≡ some response)

  read_ps-silent : (reply : Reply) → IsSilent reply → read_ps read_response reply ≡ none
  unfolding read_ps parse_ps
  read_ps-silent (failed timeout message) h = refl
  read_ps-silent (answered r) (inl refused) = rw refused refl
  read_ps-silent (answered r) (inr (inl lost)) = elim (Bool-cases (is_success r.status)) [
    | inl success ↦ rw (read_ps, success) (rw lost refl)
    | inr other ↦ rw other refl
  ]
  read_ps-silent (answered r) (inr (inr (body, text, unread))) =
      elim (Bool-cases (is_success r.status)) [
        | inl success ↦ rw (read_ps, success) (rw text (rw (parse_ps, unread) refl))
        | inr other ↦ rw other refl
      ]

  read_ps-Lists :
      (reply : Reply) (response : PsResponse)
      → Lists reply response
      → read_ps read_response reply ≡ some (sort name_le (filter_map loaded_model response.models))
  unfolding read_ps parse_ps
  read_ps-Lists reply response (r, body, got, success, text, read) =
      rw got (rw (read_ps, success) (rw text (rw (parse_ps, read) refl)))

  refresh_all-quiet :
      (servers : List Server) (a : OllamaAdapter)
      → All GivesNoList servers
      → refresh_all servers a ≡ a
  unfolding refresh_all
  refresh_all-quiet [] a h = refl
  refresh_all-quiet (server ∷ servers) a h =
      let kept : refresh_loaded_models read_response server a ≡ a =
        rw (refresh_loaded_models, read_ps-silent (server "/api/ps") h.0) refl in
      rw kept (refresh_all-quiet servers a h.1)

  refresh_all-shown :
      (before after : List Server) (server : Server) (a : OllamaAdapter) (response : PsResponse)
      → Lists (server "/api/ps") response
      → All GivesNoList after
      → refresh_all (before ++ server ∷ after) a
        ≡ record { loaded = sort name_le (filter_map loaded_model response.models) }
  unfolding refresh_all
  refresh_all-shown [] after server a response told quiet =
      let shown : refresh_loaded_models read_response server a
          ≡ record { loaded = sort name_le (filter_map loaded_model response.models) } =
        rw (refresh_loaded_models, read_ps-Lists (server "/api/ps") response told) refl in
      refresh_all-quiet after _ quiet ∙ shown
  refresh_all-shown (first ∷ before) after server a response told quiet =
      refresh_all-shown before after server (refresh_loaded_models read_response first a) response
        told quiet

  -- After any run of refreshes the adapter shows the list of the last answer that has one: a success
  -- with a body that can be read. A server that is lost, answers late, fails, or answers something else
  -- after it leaves the list as it is.
  pub refresh_all-last_list :
      (before after : List Server) (server : Server) (a : OllamaAdapter) (response : PsResponse)
      → Lists (server "/api/ps") response
      → All GivesNoList after
      → (models : List LoadedModel) × (loaded_models (refresh_all (before ++ server ∷ after) a)
          ≡ some models)
        × IsListing response.models models
  refresh_all-last_list before after server a response told quiet = (
    sort name_le (filter_map loaded_model response.models),
    ap loaded_models (refresh_all-shown before after server a response told quiet),
    IsListing-sort read_response response,
  )
