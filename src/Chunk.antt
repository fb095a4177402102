-- ===== src/Chunk.antt =====
-- knovaryn/infrastructure/chunking/structure_aware.py, with approximate_tokens of
-- knovaryn/domain/policies.py: the units of a parsed document and how they are grouped into chunks.
mod Tests
pub mod Rule
pub mod Units
pub mod Context
pub mod Groups
pub mod Bounds
pub mod Covers
pub mod Located
use knovaryn.Base.{
  is_empty, ℕ, ◌+◌, max, Bool, true, false, not, ◌&&◌, ◌||◌, String, List, [], ◌∷◌, ◌++◌, ltb, leb,
  ◌==◌, if◌then◌else◌, Option,
}
use knovaryn.Text.{word_count}

pub record ChunkCfg : Type 0 where
  pub target_tokens : ℕ
  pub min_tokens : ℕ
  pub max_tokens : ℕ
  pub neighbor_context_tokens : ℕ
  pub keep_tables_together : Bool
  pub keep_lists_together : Bool

pub data UnitKind : Type 0 where
  heading : UnitKind
  list_item : UnitKind
  table : UnitKind
  caption : UnitKind
  text : UnitKind

pub record Edges : Type 0 where
  pub left : Option ℕ
  pub top : Option ℕ
  pub right : Option ℕ
  pub bottom : Option ℕ

-- A bounding box, in the coordinate system of its page.
pub record Bbox : Type 0 where
  pub page : Option ℕ
  pub edges : Edges
  pub coord_origin : String

pub record Location : Type 0 where
  pub pages : List ℕ
  pub bboxes : List Bbox
  pub element_refs : List (List ℕ)

pub record ChunkUnit : Type 0 where
  pub content : List ℕ
  pub element_type : String
  pub heading_path : List String
  pub kind : UnitKind
  pub location : Location

-- An empty text has no words, and any other counts for one at least.
unfoldable pub approximate_tokens : List ℕ → ℕ
approximate_tokens [] = 0
approximate_tokens (c ∷ s) = max 1 (word_count (c ∷ s))

unfoldable pub unit_tokens : ChunkUnit → ℕ
unit_tokens u = approximate_tokens u.content

-- The variables of the loop.
pub record Grouping : Type 0 where
  pub groups : List (List ChunkUnit)
  pub cur : List ChunkUnit
  pub cur_tokens : ℕ
  pub in_list : Bool

unfoldable pub flush : Grouping → Grouping
flush s = record {
  groups = if is_empty s.cur then s.groups else s.groups ++ s.cur ∷ [];
  cur = [];
  cur_tokens = 0;
  in_list = false;
}

-- flush() under an if.
unfoldable pub flush_if : Bool → Grouping → Grouping
unfolding flush
flush_if b s = if b then flush s else s

unfoldable pub push : ChunkUnit → Grouping → Grouping
unfolding unit_tokens
push u s = record s { cur = s.cur ++ u ∷ []; cur_tokens = s.cur_tokens + unit_tokens u }

unfoldable pub enter_list : ChunkCfg → Grouping → Grouping
enter_list cfg s =
    if s.in_list
    then s
    else record s { cur_tokens = max s.cur_tokens cfg.min_tokens; in_list = true }

abbrev pub over : ℕ → ChunkUnit → Grouping → Bool
over limit u s = ltb limit (s.cur_tokens + unit_tokens u)

unfoldable pub add_heading : ChunkUnit → Grouping → Grouping
unfolding flush push
add_heading u s = push u (flush s)

unfoldable pub add_table : ChunkCfg → ChunkUnit → Grouping → Grouping
unfolding flush flush_if push
add_table cfg u s = flush (push u (flush_if (not (is_empty s.cur) && over cfg.max_tokens u s) s))

-- A flush for want of room leaves the list open.
unfoldable pub make_room : ChunkCfg → ChunkUnit → Grouping → Grouping
unfolding flush
make_room cfg u s = if over cfg.max_tokens u s then record (flush s) { in_list = true } else s

unfoldable pub add_list_item : ChunkCfg → ChunkUnit → Grouping → Grouping
unfolding enter_list make_room push
add_list_item cfg u s = push u (make_room cfg u (enter_list cfg s))

-- The append of the last branch, with the flush of a full chunk.
unfoldable pub push_within : ChunkCfg → ChunkUnit → Grouping → Grouping
unfolding flush flush_if push
push_within cfg u s =
    let pushed = push u (flush_if (over cfg.max_tokens u s) s) in
    flush_if (leb cfg.max_tokens pushed.cur_tokens) pushed

unfoldable pub add_sized : ChunkCfg → ChunkUnit → Grouping → Grouping
unfolding flush push push_within
add_sized cfg u s =
    if over cfg.max_tokens u s && not (is_empty s.cur) && s.cur_tokens == 0
    then flush (push u s)
    else push_within cfg u s

unfoldable pub add_other : ChunkCfg → ChunkUnit → Grouping → Grouping
unfolding flush_if add_sized
add_other cfg u s =
    add_sized cfg u (flush_if (over cfg.target_tokens u s && leb cfg.min_tokens s.cur_tokens) s)

unfoldable pub add_unit : ChunkCfg → UnitKind → ChunkUnit → Grouping → Grouping
unfolding add_heading add_table add_list_item add_other
add_unit cfg heading u s = add_heading u s
add_unit cfg table u s = if cfg.keep_tables_together then add_table cfg u s else add_other cfg u s
add_unit cfg list_item u s =
    if cfg.keep_lists_together then add_list_item cfg u s else add_other cfg u s
add_unit cfg caption u s = add_other cfg u s
add_unit cfg text u s = add_other cfg u s

unfoldable pub add_units : ChunkCfg → List ChunkUnit → Grouping → Grouping
unfolding add_unit
add_units cfg [] s = s
add_units cfg (u ∷ us) s = add_units cfg us (add_unit cfg u.kind u s)

abbrev pub start : Grouping
start = record { groups = []; cur = []; cur_tokens = 0; in_list = false }

unfoldable pub group_units : ChunkCfg → List ChunkUnit → List (List ChunkUnit)
unfolding flush add_units
group_units cfg units =
    let done = flush (add_units cfg units start) in
    if is_empty done.groups && not (is_empty units) then units ∷ [] else done.groups
