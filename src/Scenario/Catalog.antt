-- ===== src/Scenario/Catalog.antt =====
-- `Load` and `decode` of internal/scenario/scenario.go. The directory walk, the YAML decoder and
-- package sort are parameters.
pub mod Installed
use zth_sre.Prelude.{
  ℕ, String, Bool, true, false, ◌&&◌, ◌||◌, not, Option, none, some, List, [], ◌∷◌, if◌then◌else◌,
  ◌==◌, String_eq, ℕ_eq, elem, map,
}
use zth_sre.Prelude.Strings.{ext}
use zth_sre.Scenario.{Scenario, Comparisons, validate, required_ids, Problem}

-- What the second `Decode` of a file returns.
pub data Rest : Type 0 where
  end_of_file another_document broken : Rest

-- A file: the scenario that the first `Decode` finds, none where Open or Decode fails.
pub record Content (F : Type 0) : Type 0 where
  pub document : Option (Scenario F)
  pub rest : Rest

-- An entry of the walk.
pub record Entry : Type 0 where
  pub path : String
  pub is_dir : Bool

abbrev ended : Rest → Bool
ended end_of_file = true
ended _ = false

module _ {F : Type 0} where
  decoded : Option (Scenario F) → Rest → Option (Scenario F)
  decoded none rest = none
  decoded (some definition) rest = if ended rest then some definition else none

  -- `decode`
  unfoldable pub decode : Content F → Option (Scenario F)
  unfolding decoded
  decode content = decoded content.document content.rest

  unfoldable pub ids : List (Scenario F) → List String
  ids scenarios = map (λ s. s.id) scenarios

pub yaml_paths : List Entry → List String
unfolding ext
yaml_paths [] = []
yaml_paths (entry ∷ entries) =
    let later = yaml_paths entries in
    if entry.is_dir || (not (ext entry.path == ".yaml") && not (ext entry.path == ".yml"))
    then later
    else entry.path ∷ later

-- Whether every id is a key of `seen`.
pub all_seen : List String → List String → Bool
all_seen [] seen = true
all_seen (id ∷ rest) seen = elem id seen && all_seen rest seen

abbrev is_nil : Option Problem → Bool
is_nil none = true
is_nil (some problem) = false

module _ {F : Type 0} (fl : Comparisons F) where
  -- A round of the loop: none for a return.
  pub accepted : List String → Option (Scenario F) → Option (Scenario F)
  unfolding validate
  accepted seen none = none
  accepted seen (some definition) =
      if is_nil (validate fl definition) && not (elem definition.id seen)
      then some definition
      else none

  extended : Option (Scenario F) → Option (List (Scenario F)) → Option (List (Scenario F))
  extended none later = none
  extended (some definition) none = none
  extended (some definition) (some scenarios) = some (definition ∷ scenarios)

  id_of : Option (Scenario F) → String
  id_of none = ""
  id_of (some definition) = definition.id

  -- The loop over the paths, with the keys of `seen`.
  unfoldable pub load_all :
      (String → Content F) → List String → List String → Option (List (Scenario F))
  unfolding decode accepted extended id_of
  load_all files seen [] = some []
  load_all files seen (path ∷ paths) =
      let found = accepted seen (decode (files path)) in
      let later = load_all files (id_of found ∷ seen) paths in extended found later

  complete : Option (List (Scenario F)) → Option (List (Scenario F))
  unfolding required_ids all_seen ids
  complete none = none
  complete (some scenarios) = if all_seen required_ids (ids scenarios) then some scenarios else none

  load_paths : (String → Content F) → List String → Option (List (Scenario F))
  unfolding load_all complete
  load_paths files [] = none
  load_paths files (path ∷ paths) = complete (load_all files [] (path ∷ paths))

  -- `Load`: none for an error, as for a walk that fails.
  unfoldable pub load :
      (List String → List String)
      → (String → Content F)
      → Option (List Entry)
      → Option (List (Scenario F))
  unfolding yaml_paths load_paths
  load sort files none = none
  load sort files (some entries) = load_paths files (sort (yaml_paths entries))
