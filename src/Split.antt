-- ===== src/Split.antt =====
-- knovaryn/pipeline/split.py: the splits of the source documents, the check that no group of
-- sources is in two splits, and the gate on what may be released.
--
-- A ratio is given in parts of 2^32 - 1, the number by which the code divides the first eight digits
-- of the digest. The digest and the shuffle of a seed are parameters.
mod Tests
pub mod Integrity
pub mod Grouped
pub mod Gate
use knovaryn.Base.{
  ℕ, zero, suc, ◌+◌, ◌*◌, ◌%◌, Bool, true, false, ◌||◌, ◌&&◌, not, String, str_eq, List, [], ◌∷◌,
  ◌++◌, Option, none, some, if◌then◌else◌, is_some, ltb, leb, ◌==◌, contains, map, max, length,
}
use knovaryn.Dict.{Dict, get, put, get_or, set_default, has}
use knovaryn.Jobs.Sequence.{order_by}

pub record SourceDocument : Type 0 where
  pub id : String
  pub group_key : Option String
  pub acquisition_time : ℕ

pub record SplitAssignment : Type 0 where
  pub by_source_id : Dict String
  pub groups : Dict String
  pub strategy : String
  pub seed : ℕ

unfoldable pub split_of : SplitAssignment → String → Option String
split_of a source_id = get a.by_source_id source_id

pub record SplitIntegrityResult : Type 0 where
  pub ok : Bool
  pub group_count : ℕ
  pub leaked_groups : List String
  pub groups_per_split : Dict ℕ

-- What the loop of check_split_integrity keeps.
pub record Tally : Type 0 where
  pub seen : Dict String
  pub per_split : Dict ℕ
  pub leaked : List String

abbrev pub other_split : Option String → String → Bool
other_split none split = false
other_split (some s) split = not (str_eq s split)

unfoldable pub tally_pair : String → String → Tally → Tally
tally_pair group split t = record {
  seen = set_default t.seen group split;
  per_split = put t.per_split split (get_or t.per_split split 0 + 1);
  leaked =
      if other_split (get t.seen group) split && not (contains t.leaked group)
      then t.leaked ++ group ∷ []
      else t.leaked;
}

unfoldable pub tally : List (String × String) → Tally → Tally
tally [] t = t
tally ((group, split) ∷ pairs) t = tally pairs (tally_pair group split t)

abbrev no_tally : Tally
no_tally = record { seen = []; per_split = []; leaked = [] }

abbrev is_empty : List String → Bool
is_empty [] = true
is_empty (x ∷ xs) = false

unfoldable pub check_split_integrity : List (String × String) → SplitIntegrityResult
check_split_integrity pairs =
    let t = tally pairs no_tally in
    record {
      ok = is_empty t.leaked;
      group_count = length t.seen;
      leaked_groups = t.leaked;
      groups_per_split = t.per_split;
    }

-- A text that is absent or empty does not count.
abbrev pub given : Option String → Option String
given none = none
given (some k) = if str_eq k "" then none else some k

abbrev pub or_else : Option String → String → String
or_else none d = d
or_else (some k) d = k

-- `src.group_key or src.id`
unfoldable pub key_of : SourceDocument → String
key_of src = or_else (given src.group_key) src.id

abbrev pub Groups : Type 0
Groups = Dict (List SourceDocument)

unfoldable pub add_source : SourceDocument → Groups → Groups
add_source src groups = put groups (key_of src) (get_or groups (key_of src) [] ++ src ∷ [])

unfoldable pub collect : List SourceDocument → Groups → Groups
collect [] groups = groups
collect (src ∷ sources) groups = collect sources (add_source src groups)

unfoldable pub collect_groups : List SourceDocument → Groups
collect_groups sources = collect sources []

unfoldable pub set_split : String → SourceDocument → SplitAssignment → SplitAssignment
set_split split src a = record a { by_source_id = put a.by_source_id src.id split }

unfoldable pub set_splits : String → List SourceDocument → SplitAssignment → SplitAssignment
set_splits split [] a = a
set_splits split (src ∷ sources) a = set_splits split sources (set_split split src a)

unfoldable pub set_group : String → String → SplitAssignment → SplitAssignment
set_group split group a = record a { groups = put a.groups group split }

-- The loop over the groups, given the split of a group, which may be missing.
abbrev pub and_then : Option String → (String → Option SplitAssignment) → Option SplitAssignment
and_then none k = none
and_then (some split) k = k split

unfoldable pub assign_groups :
    (String → Option String) → Groups → SplitAssignment → Option SplitAssignment
assign_groups f [] a = some a
assign_groups f ((group, sources) ∷ groups) a =
    and_then (f group)
      (λ split. assign_groups f groups (set_group split group (set_splits split sources a)))

abbrev parts : ℕ
parts = 4294967295

unfoldable pub stable_bucket : (String → ℕ → ℕ) → String → ℕ → ℕ → ℕ → String
stable_bucket digest group seed train validation =
    if ltb (digest group seed) train
    then "train"
    else if ltb (digest group seed) (train + validation)
    then "validation"
    else "test"

abbrev is_split : String → Bool
is_split s = contains ("train" ∷ "validation" ∷ "test" ∷ []) s

-- The group of a source, where it has one, takes the split that the source has been given.
unfoldable pub note_group : Option String → String → SplitAssignment → SplitAssignment
note_group none split a = a
note_group (some group) split a = set_group split group a

abbrev pub set_source : String → SourceDocument → SplitAssignment → SplitAssignment
set_source split src a = note_group (given src.group_key) split (set_split split src a)

abbrev in_ratio : ℕ → ℕ → ℕ → ℕ → String
in_ratio i total train validation =
    if ltb (i * parts) (train * total)
    then "train"
    else if ltb (i * parts) ((train + validation) * total)
    then "validation"
    else "test"

unfoldable pub assign_in_order :
    ℕ → ℕ → ℕ → ℕ → List SourceDocument → SplitAssignment → SplitAssignment
unfolding note_group set_split
assign_in_order i total train validation [] a = a
assign_in_order i total train validation (src ∷ sources) a =
    assign_in_order (i + 1) total train validation sources
      (set_source (in_ratio i total train validation) src a)

abbrev first_given : Option String → Option String → Option String
first_given none o = o
first_given (some s) o = some s

abbrev group_entry : Dict String → Option String → Option String
group_entry manual none = none
group_entry manual (some group) = get manual group

abbrev valid : Option String → Option String
valid none = none
valid (some s) = if is_split s then some s else none

-- `manual.get(id) or manual.get(group_key or "")`, then the group's entry where that is no split
unfoldable pub manual_split : Dict String → SourceDocument → String
unfolding get
manual_split manual src =
    let s = first_given (given (get manual src.id)) (get manual (or_else src.group_key "")) in
    or_else (first_given (valid s) (valid (group_entry manual (given src.group_key)))) "train"

unfoldable pub assign_manual : Dict String → List SourceDocument → SplitAssignment → SplitAssignment
unfolding note_group set_split
assign_manual manual [] a = a
assign_manual manual (src ∷ sources) a =
    assign_manual manual sources (set_source (manual_split manual src) src a)

abbrev in_group : String → Option String → Bool
in_group group none = false
in_group group (some g) = str_eq g group

unfoldable pub assign_holdout : String → List SourceDocument → SplitAssignment → SplitAssignment
unfolding note_group set_split
assign_holdout group [] a = a
assign_holdout group (src ∷ sources) a =
    assign_holdout group sources
      (if in_group group src.group_key then set_split "test" src a else set_source "train" src a)

-- The place of a group among the shuffled groups, modulo k.
unfoldable pub fold_index : ℕ → ℕ → String → List String → Option ℕ
fold_index i k group [] = none
fold_index i k group (g ∷ gs) =
    let rest = fold_index (i + 1) k group gs in
    if str_eq g group then (if k == 0 then none else some (i % k)) else rest

abbrev fold_split : ℕ → ℕ → Option ℕ → Option String
fold_split k fold none = none
fold_split k fold (some i) =
    some (if i == fold then "test" else if i == (fold + 1) % k then "validation" else "train")

abbrev pub keys_of : Groups → List String
keys_of [] = []
keys_of ((group, sources) ∷ groups) = group ∷ keys_of groups

unfoldable pub kfold_split :
    (List String → ℕ → List String) → Groups → ℕ → ℕ → ℕ → String → Option String
unfolding fold_index
kfold_split shuffled groups seed k fold group =
    fold_split k fold (fold_index 0 k group (shuffled (keys_of groups) seed))

pub record SplitOptions : Type 0 where
  pub strategy : String
  pub train : ℕ
  pub validation : ℕ
  pub seed : ℕ
  pub time_group_key : Option String
  pub manual : Dict String
  pub k : ℕ
  pub fold : ℕ

-- `shuffled` is the sort of the keys and then the shuffle by the seed; an error is `none`.
module _ (digest : String → ℕ → ℕ) (shuffled : List String → ℕ → List String) where
  abbrev no_splits : SplitOptions → SplitAssignment
  no_splits o = record { by_source_id = []; groups = []; strategy = o.strategy; seed = o.seed }

  unfoldable pub grouped_random : SplitOptions → List SourceDocument → Option SplitAssignment
  unfolding stable_bucket
  grouped_random o sources =
      assign_groups (λ group. some (stable_bucket digest group o.seed o.train o.validation))
        (collect_groups sources) (no_splits o)

  unfoldable pub holdout :
      Option String → SplitOptions → List SourceDocument → Option SplitAssignment
  holdout none o sources = grouped_random o sources
  holdout (some group) o sources = some (assign_holdout group sources (no_splits o))

  unfoldable pub assign_splits : SplitOptions → List SourceDocument → Option SplitAssignment
  unfolding holdout
  assign_splits o sources =
      let manual = some (assign_manual o.manual sources (no_splits o)) in
      let timed = some (
        assign_in_order 0 (max 1 (length sources)) o.train o.validation
          (order_by (λ s. s.acquisition_time) sources) (no_splits o)) in
      let held = holdout (given o.time_group_key) o sources in
      let groups = collect_groups sources in
      let folded =
        assign_groups (kfold_split shuffled groups o.seed o.k o.fold) groups (no_splits o) in
      if str_eq o.strategy "manual"
      then manual
      else if str_eq o.strategy "time_based"
      then timed
      else if str_eq o.strategy "holdout"
      then held
      else if str_eq o.strategy "kfold"
      then folded
      else if str_eq o.strategy "grouped_random"
      then grouped_random o sources
      else none

pub record SplitReleaseGate : Type 0 where
  pub ok : Bool
  pub gate : String

unfoldable pub evaluate_split_release : ℕ → ℕ → ℕ → ℕ → Bool → SplitReleaseGate
evaluate_split_release train_count validation_count test_count source_group_count allowance =
    if train_count == 0
    then record { ok = false; gate = "train_required" }
    else if validation_count == 0 && (test_count == 0 && ltb 0 source_group_count)
    then (if source_group_count == 1 && not allowance
        then record { ok = false; gate = "small_corpus_policy" }
        else record { ok = true; gate = "small_corpus_policy" })
    else record { ok = true; gate = "ok" }

unfoldable pub plan_small_corpus_splits : ℕ → Dict ℕ
plan_small_corpus_splits source_group_count =
    if leb source_group_count 1
    then ("train", 1) ∷ []
    else if source_group_count == 2
    then ("train", 1) ∷ ("validation", 1) ∷ []
    else ("train", 1) ∷ ("validation", 1) ∷ ("test", 1) ∷ []
