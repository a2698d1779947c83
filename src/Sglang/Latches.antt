-- ===== src/Sglang/Latches.antt =====
-- engines/sglang.rs: the latch of the metrics endpoint, and the lookups of the drafter.
use spark_dashboard.Prelude.{
  ℕ, ◌+◌, String, ◌≡◌, refl, Bool, true, false, ◌||◌, Option, none, some, List, [], ◌∷◌, ◌++◌, inl,
  inr, arith, bind_some, or_default, ap, sym, subst, ◌∙◌, is_some, ltb, All, Option-cases, ◌==◌,
  nat_eq, if◌then◌else◌,
}
use spark_dashboard.Float.{F64}
use spark_dashboard.Json.{Json}
use spark_dashboard.Http.{Server, Reply, answered, failed, is_success, Reply-cases}
use spark_dashboard.Prometheus.{Sample}
use spark_dashboard.Histogram.{Constants}
use spark_dashboard.Sglang.Adapter.{
  SglangAdapter, DrafterLookup, metrics_off_signal, drafter_configured, server_info, is_recent,
  drafter_lookup_retry, observe_scrape, read_scrape, observe_body, get_metrics,
}

-- What an answer of `/metrics` tells of the endpoint: a success that it is there, a 404 that it is
-- not, and nothing where its body cannot be read.
abbrev pub verdict : Reply → Option Bool
verdict (failed timeout message) = none
verdict (answered r) = bind_some r.body (λ body.
    if is_success r.status then some false else if r.status == 404 then some true else none)

metrics_off_signal_lem :
    (success : Bool) (code : ℕ)
    → metrics_off_signal success code
      ≡ (if success then some false else if code == 404 then some true else none)
unfolding metrics_off_signal
metrics_off_signal_lem true code = refl
metrics_off_signal_lem false code = refl

-- A poll, with the server of its moment and the readings of the clock.
pub record Poll : Type 0 where
  pub server : Server
  pub now : ℕ
  pub asked : ℕ
  pub at : ℕ

abbrev pub SaysNothing : Poll → Type 0
SaysNothing p = verdict (p.server "/metrics") ≡ none

module _ (parse_json : String → Option Json) (to_lowercase : String → String) where
  drafter_settled :
      (later : Server) (now' at' at : ℕ) (info : Option Bool)
      → (is_some info || ltb now' (at + drafter_lookup_retry)) ≡ true
      → drafter_configured parse_json to_lowercase later now' at'
          (record { configured = info; last_attempt = some at })
        ≡ (info, record { configured = info; last_attempt = some at })
  unfolding drafter_configured
  drafter_settled later now' at' at (some told) h = refl
  drafter_settled later now' at' at none h =
      let recent : is_recent (some at) now' ≡ true = ground arith in rw recent refl

  told_before :
      (server later : Server) (now at now' at' : ℕ) (told : Bool) (attempt : Option ℕ)
      → let first =
          drafter_configured parse_json to_lowercase server now at
            (record { configured = some told; last_attempt = attempt }) in
        (is_some first.0 || ltb now' (at + drafter_lookup_retry)) ≡ true
        → drafter_configured parse_json to_lowercase later now' at' first.1 ≡ first
  unfolding drafter_configured
  told_before server later now at now' at' told attempt h = refl

  first_lookup :
      (server : Server) (now at : ℕ) (attempt : Option ℕ)
      → is_recent attempt now ≡ false
      → let info = server_info parse_json to_lowercase (server "/server_info") in
        drafter_configured parse_json to_lowercase server now at
          (record { configured = none; last_attempt = attempt })
        ≡ (info, record { configured = info; last_attempt = some at })
  unfolding drafter_configured
  first_lookup server now at attempt stale = rw stale refl

  asked_once :
      (server later : Server) (now at now' at' : ℕ) (configured : Option Bool) (attempt : Option ℕ)
      → is_recent attempt now ≡ false
      → let first =
          drafter_configured parse_json to_lowercase server now at
            (record { configured = configured; last_attempt = attempt }) in
        (is_some first.0 || ltb now' (at + drafter_lookup_retry)) ≡ true
        → drafter_configured parse_json to_lowercase later now' at' first.1 ≡ first
  asked_once server later now at now' at' none attempt stale =
      subst
        (λ first.
          (is_some first.0 || ltb now' (at + drafter_lookup_retry)) ≡ true
          → drafter_configured parse_json to_lowercase later now' at' first.1 ≡ first)
        (sym (first_lookup server now at attempt stale))
        (drafter_settled later now' at' at
          (server_info parse_json to_lowercase (server "/server_info")))
  asked_once server later now at now' at' (some told) attempt stale =
      told_before server later now at now' at' told attempt

  -- After a lookup that the server was asked in, every lookup gives the same and leaves all as it is,
  -- whatever the server would answer: for 60 seconds, and for ever once the server has told.
  pub drafter_asked_once :
      (server later : Server) (now at now' at' : ℕ) (lookup : DrafterLookup)
      → is_recent lookup.last_attempt now ≡ false
      → let first = drafter_configured parse_json to_lowercase server now at lookup in
        (is_some first.0 || ltb now' (at + drafter_lookup_retry)) ≡ true
        → drafter_configured parse_json to_lowercase later now' at' first.1 ≡ first
  drafter_asked_once server later now at now' at' lookup =
      asked_once server later now at now' at' lookup.configured lookup.last_attempt

  module _ {F : Type 0} (f : F64 F) (seconds : ℕ → F) (k : Constants f)
      (scrape : String → Option (List (Sample F))) where
    -- The adapter after a run of polls.
    abbrev poll : Poll → SglangAdapter F → SglangAdapter F
    poll p a =
        (get_metrics parse_json to_lowercase f seconds k scrape p.server p.now p.asked p.at a).1

    unfoldable pub poll_all : List Poll → SglangAdapter F → SglangAdapter F
    unfolding get_metrics
    poll_all [] a = a
    poll_all (p ∷ polls) a = poll_all polls (poll p a)

    metrics_off-get_metrics :
        (server : Server) (now asked at : ℕ) (a : SglangAdapter F)
        → (get_metrics parse_json to_lowercase f seconds k scrape server now asked at
            a).1.metrics_off
          ≡ or_default a.metrics_off (verdict (server "/metrics"))
    unfolding get_metrics observe_scrape
    metrics_off-get_metrics server now asked at a = elim (Reply-cases (server "/metrics")) [
      | inl (timeout, message, lost) ↦ rw (get_metrics, lost) refl
      | inr (r, got) ↦ elim (Option-cases r.body) [
        | inl unread ↦ rw (get_metrics, got) (rw (observe_body, unread) refl)
        | inr (body, read) ↦
            elim (Option-cases
              (read_scrape parse_json to_lowercase f seconds k scrape (is_success r.status) body)) [
                | inl foreign ↦
                    rw (get_metrics, got)
                      (rw (observe_body, read)
                        (rw foreign (
                          ap (or_default a.metrics_off)
                            (metrics_off_signal_lem (is_success r.status) r.status))))
                | inr (raw, series) ↦
                    rw (get_metrics, got)
                      (rw (observe_body, read)
                        (rw series (
                          ap (or_default a.metrics_off)
                            (metrics_off_signal_lem (is_success r.status) r.status))))
              ]
      ]
    ]

    metrics_off-poll_all :
        (polls : List Poll) (a : SglangAdapter F)
        → All SaysNothing polls
        → (poll_all polls a).metrics_off ≡ a.metrics_off
    unfolding poll_all
    metrics_off-poll_all [] a h = refl
    metrics_off-poll_all (p ∷ polls) a h =
        metrics_off-poll_all polls (poll p a) h.1
        ∙ metrics_off-get_metrics p.server p.now p.asked p.at a
        ∙ ap (or_default a.metrics_off) h.0

    -- After any run of polls the adapter says that the metrics are off exactly if the last answer that
    -- told was a 404, and that they are on if it was a success; offline and other answers do not tell.
    pub poll_all-last_verdict :
        (before after : List Poll) (a : SglangAdapter F) (p : Poll) (off : Bool)
        → verdict (p.server "/metrics") ≡ some off
        → All SaysNothing after
        → (poll_all (before ++ p ∷ after) a).metrics_off ≡ off
    unfolding poll_all
    poll_all-last_verdict [] after a p off told quiet =
        metrics_off-poll_all after (poll p a) quiet
        ∙ metrics_off-get_metrics p.server p.now p.asked p.at a
        ∙ ap (or_default a.metrics_off) told
    poll_all-last_verdict (q ∷ before) after a p off told quiet =
        poll_all-last_verdict before after (poll q a) p off told quiet
