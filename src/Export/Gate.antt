-- ===== src/Export/Gate.antt =====
-- knovaryn/pipeline/export/gate.py: the provenance of every example is resolved before an export.
--
-- The canonical hash is a parameter, and the repositories are lookups.
pub mod Traceable
pub mod Backed
use knovaryn.Base.{
  ℕ, Bool, true, false, ◌||◌, ◌&&◌, not, String, str_eq, List, [], ◌∷◌, ◌++◌, Option, none, some,
  contains, is_some, leb, if◌then◌else◌,
}

pub data Topology : Type 0 where
  sft : Topology
  preference : Topology
  kto : Topology
  evaluation : Topology

-- The messages are their contents.
pub record Example : Type 0 where
  pub id : String
  pub project_id : String
  pub topology : Topology
  pub content_hash : String
  pub system_messages : List String
  pub prompt_messages : List String
  pub chosen_messages : List String
  pub rejected_messages : List String
  pub source_document_ids : List String
  pub source_span_ids : List String
  pub generation_candidate_ids : List String

pub record Resolver : Type 0 where
  -- the project of a source document, and of a candidate
  pub sources : String → Option String
  pub candidates : String → Option String
  -- the parsed document of a span, and the source document of a parsed document
  pub spans : String → Option String
  pub parsed : String → Option String

pub data ExportError : Type 0 where
  hash_mismatch : String → ExportError
  no_sources : String → ExportError
  no_spans : String → ExportError
  no_candidates : String → ExportError
  unresolved_source : String → String → ExportError
  foreign_source : String → String → ExportError
  unresolved_span : String → String → ExportError
  uncited_span : String → String → ExportError
  bad_candidate : String → String → ExportError

-- What is hashed: the two sides of a preference, or a list of texts.
pub data Hashed : Type 0 where
  sides : List String → List String → Hashed
  texts : List String → Hashed

abbrev first_text : List String → String
first_text [] = ""
first_text (t ∷ ts) = t

unfoldable pub hashed : Topology → Example → Hashed
hashed preference ex = sides ex.chosen_messages ex.rejected_messages
hashed evaluation ex = texts (first_text ex.prompt_messages ∷ first_text ex.chosen_messages ∷ [])
hashed sft ex = texts (ex.system_messages ++ (ex.prompt_messages ++ ex.chosen_messages))
hashed kto ex = texts (ex.system_messages ++ (ex.prompt_messages ++ ex.chosen_messages))

-- `none` is to go on, as after a test that raises nothing.
unfoldable pub and_next : Option ExportError → Option ExportError → Option ExportError
and_next none next = next
and_next (some e) next = some e

unfoldable pub raise_if : Bool → ExportError → Option ExportError
raise_if true e = some e
raise_if false e = none

unfoldable pub for_each {ℓ} : {A : Type ℓ} → (A → Option ExportError) → List A → Option ExportError
unfolding and_next
for_each check [] = none
for_each check (x ∷ xs) = and_next (check x) (for_each check xs)

abbrev pub has_none : List String → Bool
has_none [] = true
has_none (x ∷ xs) = false

module _ (cfg_hash : Hashed → String) (resolver : Resolver) where
  unfoldable pub recompute_content_hash : Example → String
  unfolding hashed
  recompute_content_hash ex = cfg_hash (hashed ex.topology ex)

  unfoldable pub check_source : Example → String → Option String → Option ExportError
  check_source ex sid none = some (unresolved_source ex.id sid)
  check_source ex sid (some project) =
      if str_eq project ex.project_id then none else some (foreign_source ex.id sid)

  unfoldable pub check_parsed : Example → String → Option String → Option ExportError
  check_parsed ex span_id none = some (uncited_span ex.id span_id)
  check_parsed ex span_id (some source) =
      if contains ex.source_document_ids source then none else some (uncited_span ex.id span_id)

  unfoldable pub check_span : Example → String → Option String → Option ExportError
  check_span ex span_id none = some (unresolved_span ex.id span_id)
  check_span ex span_id (some parsed_id) = check_parsed ex span_id (resolver.parsed parsed_id)

  unfoldable pub check_candidate : Example → String → Option String → Option ExportError
  check_candidate ex cid none = some (bad_candidate ex.id cid)
  check_candidate ex cid (some project) =
      if str_eq project ex.project_id then none else some (bad_candidate ex.id cid)

  unfoldable pub verify_example : Example → Option ExportError
  unfolding recompute_content_hash and_next raise_if for_each check_source check_span
      check_candidate
  verify_example ex =
      and_next
        (raise_if (not (str_eq (recompute_content_hash ex) ex.content_hash)) (hash_mismatch ex.id))
        (and_next (raise_if (has_none ex.source_document_ids) (no_sources ex.id)) (
          and_next (raise_if (has_none ex.source_span_ids) (no_spans ex.id)) (
            and_next (raise_if (has_none ex.generation_candidate_ids) (no_candidates ex.id)) (
              and_next
                (for_each (λ sid. check_source ex sid (resolver.sources sid))
                  ex.source_document_ids)
                (and_next
                  (for_each (λ span_id. check_span ex span_id (resolver.spans span_id))
                    ex.source_span_ids)
                  (for_each (λ cid. check_candidate ex cid (resolver.candidates cid))
                    ex.generation_candidate_ids))))))

  unfoldable pub verify_provenance_before_export : List Example → Option ExportError
  unfolding for_each verify_example
  verify_provenance_before_export examples = for_each verify_example examples

-- LocationPrecision. The fields of a span that say where it is; `own` is the precision it carries.
pub data SpanPrecision : Type 0 where
  exact_bbox : SpanPrecision
  exact_page : SpanPrecision
  page_range : SpanPrecision
  section : SpanPrecision
  chunk : SpanPrecision
  unknown : SpanPrecision

pub record Span : Type 0 where
  pub own : Option SpanPrecision
  pub has_boxes : Bool
  pub page_number : Option ℕ
  pub page_start : Option ℕ
  pub page_end : Option ℕ
  pub section_path : List String
  pub character_start : Option ℕ
  pub quoted_text : String
  pub element_reference : String

unfoldable pub rank : SpanPrecision → ℕ
rank exact_bbox = 5
rank exact_page = 4
rank page_range = 3
rank section = 2
rank chunk = 1
rank unknown = 0

unfoldable pub derived : Span → SpanPrecision
derived s =
    if s.has_boxes && is_some s.page_number
    then exact_bbox
    else if is_some s.page_number
    then exact_page
    else if is_some s.page_start && is_some s.page_end
    then page_range
    else if not (has_none s.section_path)
    then section
    else if is_some s.character_start
        || (not (str_eq s.quoted_text "") || not (str_eq s.element_reference ""))
    then chunk
    else unknown

unfoldable pub own_or_derived : Option SpanPrecision → Span → SpanPrecision
unfolding derived
own_or_derived none s = derived s
own_or_derived (some p) s = p

unfoldable pub of_span : Span → SpanPrecision
unfolding own_or_derived
of_span s = own_or_derived s.own s

unfoldable pub at_least : SpanPrecision → SpanPrecision → Bool
unfolding rank
at_least actual claimed = leb (rank claimed) (rank actual)
