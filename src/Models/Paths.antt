-- ===== src/Models/Paths.antt =====
-- engines/model_info.rs: `normalize_model_id` on the paths of the hub's cache.
use Prim.Native.Char.{Char}
use spark_dashboard.Prelude.{
  String, ◌≡◌, refl, ap, ◌∙◌, Bool, true, false, not, ◌&&◌, none, some, List, [], ◌∷◌, ◌++◌, arith,
  nat_eq, or_else,
}
use spark_dashboard.Text.{append, split, split_once, strip_prefix, contains, is_char, is_empty_text}
use spark_dashboard.Text.Chars.{all_chars}
use spark_dashboard.Text.Split.{
  split-append, split-whole, append-nil, split_once-cons, all_chars-append, contains-append,
}
use spark_dashboard.Models.Names.{repo_of_segment, first_repo, normalize_model_id}

-- Every dash is followed by another character, that is no dash.
abbrev is_dash_or_end : String → Bool
is_dash_or_end String.[] = true
is_dash_or_end (String.◌∷◌ c text) = is_char 45 c

unfoldable pub dashes_apart : String → Bool
dashes_apart String.[] = true
dashes_apart (String.◌∷◌ c text) = not (is_char 45 c && is_dash_or_end text) && dashes_apart text

-- A part of a repository's name, as the hub allows it in its cache.
abbrev pub is_repo_part : String → Bool
is_repo_part part = not (is_empty_text part) && all_chars (λ c. not (is_char 47 c)) part

unfoldable pub cache_segment : String → String → String
unfolding append
cache_segment org name = append "models--" (append org (append "--" name))

-- The rest of a path after a segment.
abbrev pub is_path_end : String → Bool
is_path_end String.[] = true
is_path_end (String.◌∷◌ c text) = is_char 47 c

no_dashes_yet :
    (c : Char) (org name : String)
    → dashes_apart (String.◌∷◌ c org) ≡ true
    → strip_prefix "--" (append (String.◌∷◌ c org) (append "--" name)) ≡ none
unfolding append strip_prefix dashes_apart
no_dashes_yet c String.[] name h = ground arith
no_dashes_yet c (String.◌∷◌ d org) name h = ground arith

split_once-dashes :
    (org name : String)
    → dashes_apart org ≡ true
    → split_once "--" (append org (append "--" name)) ≡ some (org, name)
unfolding split_once append dashes_apart
split_once-dashes String.[] name h = refl
split_once-dashes (String.◌∷◌ c org) name h =
    split_once-cons "--" c (append org (append "--" name)) org name (no_dashes_yet c org name h)
      (split_once-dashes org name (ground arith))

repo_of_segment-cache :
    (org name : String)
    → dashes_apart org ≡ true
    → is_empty_text org ≡ false
    → is_empty_text name ≡ false
    → repo_of_segment (cache_segment org name) ≡ some (append org (append "/" name))
unfolding repo_of_segment cache_segment
repo_of_segment-cache org name apart some_org some_name =
    rw (split_once-dashes org name apart) (rw some_org (rw some_name refl))

first_repo-append :
    (xs ys : List String) → first_repo (xs ++ ys) ≡ or_else (first_repo xs) (first_repo ys)
unfolding first_repo
first_repo-append [] ys = refl
first_repo-append (x ∷ xs) ys = ground (arith, first_repo-append xs ys)

first_repo-head :
    (segment : String) (segments before : List String) (repo : String)
    → first_repo before ≡ none
    → repo_of_segment segment ≡ some repo
    → or_else (first_repo before) (first_repo (segment ∷ segments)) ≡ some repo
unfolding first_repo
first_repo-head segment segments before repo h k = rw (h, k) refl

split-segment :
    (segment rest : String)
    → all_chars (λ c. not (is_char 47 c)) segment ≡ true
    → is_path_end rest ≡ true
    → (more : List String) × (split (is_char 47) (append segment rest) ≡ segment ∷ more)
split-segment segment String.[] whole end =
    ([], rw (append-nil segment) (split-whole (is_char 47) segment whole))
split-segment segment (String.◌∷◌ c rest) whole end = (
  split (is_char 47) rest,
  split-append (is_char 47) segment c rest end
      ∙ ap (λ parts. parts ++ split (is_char 47) rest) (split-whole (is_char 47) segment whole),
)

-- The segments of a path: those of what comes before, then the segment itself.
path_segments :
    (root segment rest : String)
    → all_chars (λ c. not (is_char 47 c)) segment ≡ true
    → is_path_end rest ≡ true
    → (more : List String) × (split (is_char 47) (append root (append "/" (append segment rest)))
        ≡ split (is_char 47) root ++ segment ∷ more)
unfolding append
path_segments root segment rest whole end =
    let tail = split-segment segment rest whole end in
    (
      tail.0,
      split-append (is_char 47) root "/" (append segment rest) refl
          ∙ ap (λ parts. split (is_char 47) root ++ parts) tail.1,
    )

segment_whole :
    (org name : String)
    → is_repo_part org ≡ true
    → is_repo_part name ≡ true
    → all_chars (λ c. not (is_char 47 c)) (cache_segment org name) ≡ true
unfolding cache_segment all_chars
segment_whole org name h k =
    let plain : Char → Bool = λ c. not (is_char 47 c) in
    let dashed = append "--" name in
    all_chars-append plain "models--" (append org dashed) refl (
      all_chars-append plain org dashed (ground (arith, h))
        (all_chars-append plain "--" name refl (ground (arith, k))))

has_slash : (root text : String) → contains (append root (append "/" text)) "/" ≡ true
unfolding contains append
has_slash root text = contains-append root (append "/" text) "/" refl

-- The path of a model in the hub's cache is read back as the model's name: `models--org--name`, below
-- any directories and with any path after it, gives `org/name`, if no segment before it is of that
-- form, the two parts are not empty and have no `/`, and each dash of the organisation is followed by
-- another character, that is no dash.
pub normalize_model_id-cache :
    (root org name rest : String)
    → first_repo (split (is_char 47) root) ≡ none
    → is_repo_part org ≡ true
    → is_repo_part name ≡ true
    → dashes_apart org ≡ true
    → is_path_end rest ≡ true
    → normalize_model_id (append root (append "/" (append (cache_segment org name) rest)))
      ≡ append org (append "/" name)
unfolding normalize_model_id
normalize_model_id-cache root org name rest first org_part name_part apart end =
    let segment = cache_segment org name in
    let path = path_segments root segment rest (segment_whole org name org_part name_part) end in
    let repo =
      repo_of_segment-cache org name apart (ground (arith, org_part)) (ground (arith, name_part)) in
    let found : first_repo (split (is_char 47) (append root (append "/" (append segment rest))))
        ≡ some (append org (append "/" name)) =
      ap first_repo path.1
      ∙ first_repo-append (split (is_char 47) root) (segment ∷ path.0)
      ∙ first_repo-head segment path.0 (split (is_char 47) root) _ first repo in
    rw (normalize_model_id, has_slash root (append segment rest)) (rw found refl)
