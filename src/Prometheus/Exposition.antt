-- ===== src/Prometheus/Exposition.antt =====
-- engines/prometheus.rs: a scrape from its text. What the crate `prometheus_parse` makes of the text
-- is a parameter.
use spark_dashboard.Prelude.{ℕ, suc, ◌-◌, String, Option, some, List, bind_some, if◌then◌else◌, ltb}
use spark_dashboard.Text.{append, starts_with}
use spark_dashboard.Float.{F64}
use spark_dashboard.Prometheus.{ParsedMetrics, Sample, parse_samples}

abbrev text_length : String → ℕ
text_length String.[] = 0
text_length (String.◌∷◌ c text) = suc (text_length text)

-- `replace`, of a text that is not empty; the first argument counts the characters of an occurrence
-- that are still to be left out.
unfoldable pub replace_text : ℕ → String → String → String → String
unfolding append starts_with
replace_text skip needle new String.[] = String.[]
replace_text skip needle new (String.◌∷◌ c text) =
    let here = starts_with (String.◌∷◌ c text) needle in
    let rest =
      replace_text (if ltb 0 skip then skip - 1 else if here then text_length needle - 1 else 0)
        needle new text in
    if ltb 0 skip then rest else if here then append new rest else String.◌∷◌ c rest

unfoldable pub normalized : String → String
unfolding replace_text
normalized body =
    replace_text 0 "llamacpp:" "llamacpp_"
      (replace_text 0 "sglang:" "sglang_" (replace_text 0 "vllm:" "vllm_" body))

module _ {F : Type 0} (f : F64 F) (scrape : String → Option (List (Sample F))) where
  unfoldable pub parse_prometheus_text : String → Option (ParsedMetrics F)
  parse_prometheus_text body =
      bind_some (scrape (normalized body)) (λ samples. some (parse_samples f samples))
