-- ===== src/Chunk/Units.antt =====
-- The units of a parsed document: normalize_blocks and what it calls, in
-- knovaryn/infrastructure/chunking/structure_aware.py.
use knovaryn.Base.{
  is_empty, ℕ, suc, ltb, ◌==◌, Bool, not, ◌||◌, String, str_eq, List, [], ◌∷◌, ◌++◌, map, filter,
  Option, none, some, if◌then◌else◌,
}
use knovaryn.Text.{codes, lower, text_eq, text_lt, starts, decimal}
use knovaryn.Chunk.{ChunkUnit, Edges, UnitKind, heading, list_item, table, caption, text, Location}

-- sorted(set(xs)), by the order of the elements.
module _ {ℓ} {A : Type ℓ} (lt : A → A → Bool) where
  unfoldable pub insert_new : A → List A → List A
  insert_new x [] = x ∷ []
  insert_new x (y ∷ ys) =
      let rest = insert_new x ys in
      if lt x y then x ∷ y ∷ ys else if lt y x then y ∷ rest else y ∷ ys

  unfoldable pub sorted_set : List A → List A
  unfolding insert_new
  sorted_set [] = []
  sorted_set (x ∷ xs) = insert_new x (sorted_set xs)

unfoldable pub text_set : List (List ℕ) → List (List ℕ)
unfolding sorted_set
text_set ts = sorted_set text_lt ts

-- One entry of a block's provenance: the page, none where it is no number, and the box.
pub record Prov : Type 0 where
  pub page_no : Option ℕ
  pub bbox : Option (Edges × Option String)

pub record Block : Type 0 where
  pub type : String
  pub content : List ℕ
  pub heading_path : List String
  pub location : Option Location
  pub prov : List Prov
  pub element_refs : List (List ℕ)

pub record DoclingItem : Type 0 where
  pub content : List ℕ
  pub label : List ℕ
  pub prov : List Prov

pub record Canonical : Type 0 where
  pub blocks : List Block
  pub main_text : List DoclingItem

abbrev pub no_location : Location
no_location = record { pages = []; bboxes = []; element_refs = [] }

unfoldable pub pages_of : List ℕ → List ℕ
unfolding sorted_set
pages_of ps = sorted_set ltb (filter (λ p. not (p == 0)) ps)

-- str(bbox.get("coord_origin") or "TOPLEFT")
abbrev or_top_left : Option String → String
or_top_left none = "TOPLEFT"
or_top_left (some o) = if str_eq o "" then "TOPLEFT" else o

page_or_none : ℕ → Option ℕ
page_or_none n = if n == 0 then none else some n

-- `int(p.get("page_no") or 0)`: a missing page is 0, and one that is no number drops the entry.
unfoldable pub add_prov : Option ℕ → Option (Edges × Option String) → Location → Location
unfolding page_or_none
add_prov none bbox loc = loc
add_prov (some n) none loc = record loc {
  pages = if n == 0 then loc.pages else loc.pages ++ n ∷ [];
}
add_prov (some n) (some (e, o)) loc = record loc {
  pages = if n == 0 then loc.pages else loc.pages ++ n ∷ [];
  bboxes =
      loc.bboxes ++ record { page = page_or_none n; edges = e; coord_origin = or_top_left o } ∷ [];
}

unfoldable pub add_provs : List Prov → Location → Location
unfolding add_prov
add_provs [] loc = loc
add_provs (p ∷ ps) loc = add_provs ps (add_prov (p.page_no) (p.bbox) loc)

unfoldable pub given_location : Location → Location
unfolding pages_of
given_location loc = record loc { pages = pages_of (loc.pages) }

unfoldable pub prov_location : Block → Location
unfolding add_provs sorted_set
prov_location b =
    let found = add_provs (b.prov) no_location in
    record {
      pages = sorted_set ltb (found.pages);
      bboxes = found.bboxes;
      element_refs = b.element_refs;
    }

unfoldable pub block_location : Option Location → Block → Location
unfolding given_location prov_location
block_location (some loc) b = given_location loc
block_location none b = prov_location b

unit : Block → String → UnitKind → ChunkUnit
unfolding block_location
unit b element_type k = record {
  content = b.content;
  element_type = element_type;
  heading_path = b.heading_path;
  kind = k;
  location = block_location (b.location) b;
}

unfoldable pub block_unit : Block → ChunkUnit
unfolding unit
block_unit b =
    if str_eq (b.type) "heading"
    then unit b "heading" heading
    else if str_eq (b.type) "list_item"
    then unit b "list_item" list_item
    else if str_eq (b.type) "table" || str_eq (b.type) "table_cell"
    then unit b "table" table
    else if str_eq (b.type) "caption"
    then unit b "caption" caption
    else unit b "paragraph" text

-- f"docling#/main_text/{idx}"
unfoldable pub element_ref : ℕ → List ℕ
element_ref idx = codes "docling#/main_text/" ++ decimal idx

unfoldable pub block_type : List ℕ → String
block_type label =
    if text_eq label (codes "title") || starts (codes "heading") label
    then "heading"
    else if text_eq label (codes "table")
    then "table"
    else if text_eq label (codes "list_item")
    then "list_item"
    else "paragraph"

unfoldable pub item_block : ℕ → DoclingItem → Block
unfolding element_ref block_type
item_block idx item = record {
  type = block_type (lower (item.label));
  content = item.content;
  heading_path = [];
  location = none;
  prov = item.prov;
  element_refs = element_ref idx ∷ [];
}

unfoldable pub extract_docling_blocks : ℕ → List DoclingItem → List Block
unfolding item_block
extract_docling_blocks idx [] = []
extract_docling_blocks idx (item ∷ items) =
    let rest = extract_docling_blocks (suc idx) items in
    if is_empty (item.content) then rest else item_block idx item ∷ rest

unfoldable pub normalize_blocks : Canonical → List ChunkUnit
unfolding block_unit extract_docling_blocks
normalize_blocks canonical = map block_unit (
    if is_empty (canonical.blocks)
    then extract_docling_blocks 0 (canonical.main_text)
    else canonical.blocks)
