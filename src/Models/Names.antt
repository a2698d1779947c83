-- ===== src/Models/Names.antt =====
-- engines/model_info.rs: `normalize_model_id`, the name of a model that is given by a path.
use spark_dashboard.Prelude.{
  String, Bool, not, ◌&&◌, Option, none, some, List, [], ◌∷◌, bind_some, or_else, or_default, ◌==◌,
  nat_eq, string_eq, if◌then◌else◌,
}
use spark_dashboard.Text.{
  append, contains, strip_prefix, split, split_once, rsplit_once, trim_end, trim_matches, is_char,
  is_empty_text,
}
use spark_dashboard.Text.Chars.{text_length, all_chars, is_hexdigit}

-- `org/name` of a segment of the hub's cache.
unfoldable pub repo_of_segment : String → Option String
unfolding strip_prefix split_once append
repo_of_segment segment = bind_some (strip_prefix "models--" segment) (λ repo.
    bind_some (split_once "--" repo) (λ parts.
      if not (is_empty_text parts.0) && not (is_empty_text parts.1)
      then some (append parts.0 (append "/" parts.1))
      else none))

unfoldable pub first_repo : List String → Option String
unfolding repo_of_segment
first_repo [] = none
first_repo (segment ∷ segments) = or_else (repo_of_segment segment) (first_repo segments)

unfoldable pub is_commit_hash : String → Bool
unfolding text_length all_chars
is_commit_hash last = text_length last == 40 && all_chars is_hexdigit last

-- The directory of a path that ends in `snapshots/<commit-hash>`.
unfoldable pub snapshot_directory : String → Option String
unfolding rsplit_once trim_end trim_matches is_commit_hash
snapshot_directory id = bind_some (rsplit_once (is_char 47) (trim_end (is_char 47) id)) (λ path.
    if is_commit_hash path.1
    then bind_some (rsplit_once (is_char 47) path.0) (λ parent.
      if parent.1 == "snapshots" && not (is_empty_text (trim_matches (is_char 47) parent.0))
      then some parent.0
      else none)
    else none)

unfoldable pub normalize_model_id : String → String
unfolding contains split first_repo snapshot_directory
normalize_model_id id =
    if contains id "/"
    then or_default id (or_else (first_repo (split (is_char 47) id)) (snapshot_directory id))
    else id
