-- ===== src/Flows.antt =====
-- internal/metastore/flows.go and internal/metastore/sources.go, over the tables of
-- migrations/000001: the rows, the statements on one row, and what reads them. UUIDs are byte
-- strings. A JSON text is in the form in which JSONB prints it, so that a column gives back what was
-- written; a text that JSONB refuses is a call that fails.
pub mod Write
pub mod Fields
pub mod Sources
pub mod Operations
pub mod Finish
pub mod Counts
pub mod Sound
pub mod Preserved
pub mod Small
pub mod Invariant
pub mod Keys
pub mod Immutable
pub mod Errors
pub mod Guards
pub mod Reads
pub mod Tags
pub mod Keyset
pub mod Follow
pub mod Listing
pub mod Wanted
pub mod Columns
mod Examples
use open_tams.Prelude.Int.{ℤ}
use open_tams.Prelude.Result.{Result, ok, err, ◌>>=◌}
use open_tams.Prelude.Sort.{select, sort}
use open_tams.Prelude.Table.{find, exists}
use open_tams.Prelude.Bytes.{Bytes, bytes_eq, is_nil}
use open_tams.Prelude.{
  ℕ, Bool, true, false, ◌&&◌, ◌||◌, Option, none, some, List, [], ◌∷◌, if◌then◌else◌, ltb, ◌==◌,
  map,
}
use open_tams.Segments.{FlowRow, ObjectRow, SegmentRow, Store}

-- `Source`, `CollectionItem` and `Flow`.
pub record Source : Type 0 where
  pub id : Bytes
  pub format : Bytes
  pub label : Option Bytes
  pub description : Option Bytes
  pub tags : List (Bytes × Bytes)
  pub created : ℕ
  pub updated : ℕ

pub record CollectionItem : Type 0 where
  pub id : Bytes
  pub role : Option Bytes
  pub container_mapping : Bytes

pub record Flow : Type 0 where
  pub id : Bytes
  pub source_id : Bytes
  pub format : Bytes
  pub codec : Option Bytes
  pub container : Option Bytes
  pub label : Option Bytes
  pub description : Option Bytes
  pub tags : List (Bytes × Bytes)
  pub essence_parameters : Bytes
  pub container_mapping : Bytes
  pub flow_collection : List CollectionItem
  pub avg_bit_rate : Option ℤ
  pub max_bit_rate : Option ℤ
  pub segment_duration : Option Bytes
  pub generation : Option ℤ
  pub metadata_version : Option ℤ
  pub read_only : Bool
  pub created : ℕ
  pub metadata_updated : ℕ
  pub segments_updated : Option ℕ
  pub timerange : Option Bytes

-- A row of sources, of source_tags and flow_tags, of flow_collection and of flows. The columns of
-- flows that the segments' transactions use are `core`.
pub record SourceRow : Type 0 where
  pub id : Bytes
  pub format : Bytes
  pub label : Option Bytes
  pub description : Option Bytes
  pub created : ℕ
  pub updated : ℕ

pub record TagRow : Type 0 where
  pub owner : Bytes
  pub name : Bytes
  pub value : Bytes

pub record ItemRow : Type 0 where
  pub owner : Bytes
  pub item_id : Bytes
  pub role : Option Bytes
  pub container_mapping : Option Bytes
  pub sort_order : ℕ

pub record FlowEntry : Type 0 where
  pub core : FlowRow
  pub source_id : Bytes
  pub format : Bytes
  pub codec : Option Bytes
  pub container : Option Bytes
  pub label : Option Bytes
  pub description : Option Bytes
  pub essence_parameters : Option Bytes
  pub container_mapping : Option Bytes
  pub avg_bit_rate : Option ℤ
  pub max_bit_rate : Option ℤ
  pub segment_duration : Option Bytes
  pub generation : Option ℤ
  pub metadata_version : Option ℤ
  pub created : ℕ
  pub metadata_updated : ℕ

pub record Db : Type 0 where
  pub sources : List SourceRow
  pub source_tags : List TagRow
  pub flows : List FlowEntry
  pub flow_tags : List TagRow
  pub collections : List ItemRow
  pub objects : List ObjectRow
  pub segments : List SegmentRow

pub data FlowError : Type 0 where
  not_found read_only immutable_field format_mismatch invalid_json bad_timerange : FlowError
  database : FlowError

-- The calls of the database, of which any may fail.
pub data Call : Type 0 where
  begin read_flow read_source insert_source insert_flow count_segments update_flow commit : Call
  decrement delete exec read_collection : Call
  insert_item : ℕ → Call

abbrev pub Failing : Type 0
Failing = Call → Bool

abbrev pub calls : Failing → Call → Result FlowError (Unit {0})
calls failing c = if failing c then err database else ok tt

-- The tests of the `WHERE`s.
abbrev pub is_flow : Bytes → FlowEntry → Bool
is_flow id f = bytes_eq f.core.id id

abbrev pub is_source : Bytes → SourceRow → Bool
is_source id s = bytes_eq s.id id

abbrev pub has_owner : Bytes → TagRow → Bool
has_owner id t = bytes_eq t.owner id

abbrev pub is_tag : Bytes → Bytes → TagRow → Bool
is_tag id name t = bytes_eq t.owner id && bytes_eq t.name name

abbrev pub in_collection : Bytes → ItemRow → Bool
in_collection id i = bytes_eq i.owner id

abbrev pub in_flow : Bytes → SegmentRow → Bool
in_flow id r = bytes_eq r.flow_id id

-- `nilJSON`, and what a column of JSON gives back.
unfoldable pub nil_json : Bytes → Option Bytes
nil_json b = if is_nil b then none else some b

unfoldable pub from_json : Option Bytes → Bytes
from_json none = []
from_json (some b) = b

-- `codecEqual`.
unfoldable pub codec_equal : Option Bytes → Option Bytes → Bool
codec_equal none none = true
codec_equal none (some b) = false
codec_equal (some a) none = false
codec_equal (some a) (some b) = bytes_eq a b

-- The tags of a row, as `jsonb_object_agg` collects them.
unfoldable pub tags_of : Bytes → List TagRow → List (Bytes × Bytes)
tags_of id tags = map (λ t. (t.name, t.value)) (select (has_owner id) tags)

-- PostgreSQL compares UUIDs byte by byte.
unfoldable pub bytes_lt : Bytes → Bytes → Bool
bytes_lt s [] = false
bytes_lt [] (d ∷ t) = true
bytes_lt (c ∷ s) (d ∷ t) = let rest = bytes_lt s t in ltb c d || (c == d && rest)

-- `ORDER BY sort_order, item_id`.
unfoldable pub item_lt : ItemRow → ItemRow → Bool
item_lt i j =
    ltb i.sort_order j.sort_order || (i.sort_order == j.sort_order && bytes_lt i.item_id j.item_id)

unfoldable pub scan_item : ItemRow → CollectionItem
scan_item i = record {
  id = i.item_id;
  role = i.role;
  container_mapping = from_json i.container_mapping;
}

unfoldable pub collection_of : Bytes → List ItemRow → List CollectionItem
collection_of id items = map scan_item (sort item_lt (select (in_collection id) items))

-- `scanFlowBase`.
unfoldable pub scan_flow_base : List (Bytes × Bytes) → FlowEntry → Flow
scan_flow_base tags f = record {
  id = f.core.id;
  source_id = f.source_id;
  format = f.format;
  codec = f.codec;
  container = f.container;
  label = f.label;
  description = f.description;
  tags = tags;
  essence_parameters = from_json f.essence_parameters;
  container_mapping = from_json f.container_mapping;
  flow_collection = [];
  avg_bit_rate = f.avg_bit_rate;
  max_bit_rate = f.max_bit_rate;
  segment_duration = f.segment_duration;
  generation = f.generation;
  metadata_version = f.metadata_version;
  read_only = f.core.read_only;
  created = f.created;
  metadata_updated = f.metadata_updated;
  segments_updated = f.core.segments_updated;
  timerange = f.core.flow_timerange;
}

-- The result of a query of one row.
abbrev pub one_row {ℓ} : {A : Type ℓ} → Option A → Result FlowError A
one_row none = err not_found
one_row (some a) = ok a

unfoldable pub get_flow : Failing → Bytes → Db → Result FlowError Flow
get_flow failing id db = do
  _ ← calls failing read_flow
  f ← one_row (find (is_flow id) db.flows)
  _ ← calls failing read_collection
  ok (record (scan_flow_base (tags_of id db.flow_tags) f) {
    flow_collection = collection_of id db.collections;
  })

-- `scanSource` and `GetSource`.
unfoldable pub scan_source : List (Bytes × Bytes) → SourceRow → Source
scan_source tags s = record {
  id = s.id;
  format = s.format;
  label = s.label;
  description = s.description;
  tags = tags;
  created = s.created;
  updated = s.updated;
}

unfoldable pub get_source : Failing → Bytes → Db → Result FlowError Source
get_source failing id db = do
  _ ← calls failing read_source
  s ← one_row (find (is_source id) db.sources)
  ok (scan_source (tags_of id db.source_tags) s)

-- The tables behind an operation: the committed ones, or the ones before.
unfoldable pub finish {ℓ} : {A : Type ℓ} → Db → Result FlowError (A × Db) → Result FlowError A × Db
finish db (err e) = (err e, db)
finish db (ok (a, db')) = (ok a, db')

-- The tables that the segments' transactions work on.
unfoldable pub segment_store : Db → Store
segment_store db = record {
  flows = map (λ f. f.core) db.flows;
  objects = db.objects;
  segments = db.segments;
}
