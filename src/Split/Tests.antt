-- ===== src/Split/Tests.antt =====
-- Splits of a few sources.
use mathlib.Core.List.{Memᴰ}
use knovaryn.Split.Integrity.{IsSeparated, check_split_integrity_iff}
use knovaryn.Base.{
  ◌↔◌, ℕ, ◌≡◌, refl, sym, ap, ◌∙◌, Bool, true, false, String, str_eq, List, [], ◌∷◌, none, some,
  is_some, All, All-Memᴰ, if◌then◌else◌,
}
use knovaryn.Split.{
  SourceDocument, SplitAssignment, SplitOptions, split_of, key_of, assign_splits,
  check_split_integrity,
}
use knovaryn.Split.Grouped.{HasGroupById, group_splits, assign_splits-passes_check}

abbrev source : String → String → ℕ → SourceDocument
source id group time = record { id = id; group_key = some group; acquisition_time = time }

abbrev sources : List SourceDocument
sources = source "a" "g" 1 ∷ source "b" "g" 2 ∷ source "c" "h" 3 ∷ []

abbrev options : String → SplitOptions
options strategy = record {
  strategy = strategy;
  train = 2147483648;
  validation = 1073741824;
  seed = 42;
  time_group_key = none;
  manual = [];
  k = 5;
  fold = 0;
}

abbrev digest : String → ℕ → ℕ
digest key seed = if_g (str_eq key "g")
  where
    if_g : Bool → ℕ
    if_g true = 5
    if_g false = 4000000000

abbrev shuffled : List String → ℕ → List String
shuffled keys seed = keys

abbrev group_by_id : String → String
group_by_id id = if str_eq id "c" then "h" else "g"

sources-grouped : All (λ s. key_of s ≡ group_by_id s.id) sources
unfolding key_of
sources-grouped = (refl, (refl, (refl, tt)))

sources-HasGroupById : HasGroupById sources
sources-HasGroupById = λ s t m n e.
    All-Memᴰ (λ s. key_of s ≡ group_by_id s.id) sources sources-grouped m
    ∙ ap group_by_id e
    ∙ sym (All-Memᴰ (λ s. key_of s ≡ group_by_id s.id) sources sources-grouped n)

assign_splits-passes_check_example :
    (a : SplitAssignment) × (assign_splits digest shuffled (options "grouped_random") sources
      ≡ some a)
    × ((s : SourceDocument) → Memᴰ s sources → is_some (split_of a s.id) ≡ true)
    × ((check_split_integrity (group_splits a sources)).ok ≡ true)
assign_splits-passes_check_example =
    assign_splits-passes_check digest shuffled (options "grouped_random") sources refl
      sources-HasGroupById

abbrev pairs : List (String × String)
pairs = ("g", "train") ∷ ("h", "test") ∷ ("g", "train") ∷ []

check_split_integrity_iff_example : ((check_split_integrity pairs).ok ≡ true) ↔ IsSeparated pairs
check_split_integrity_iff_example = check_split_integrity_iff pairs
