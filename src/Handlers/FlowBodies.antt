-- ===== src/Handlers/FlowBodies.antt =====
-- internal/httpx/handlers/flows.go, the JSON of a flow and its conversions. The functions of the
-- standard library are parameters.
use open_tams.Prelude.Int.{ℤ}
use open_tams.Prelude.Maybe.{map_option}
use open_tams.Prelude.Bytes.{Bytes}
use open_tams.Prelude.{Bool, Option, [], false, map, none, some, ℕ, List}
use open_tams.Flows.{CollectionItem, Flow}

-- `uuid.Parse`; `strconv.ParseInt` and `strconv.FormatInt` in base 10; the two fields of the essence
-- parameters that `json.Unmarshal` fills, `none` for a text that it refuses.
pub record FlowEnv : Type 0 where
  pub parse_uuid : Bytes → Option Bytes
  pub parse_int : Bytes → Option ℤ
  pub format_int : ℤ → Bytes
  pub video_fields : Bytes → Option (Option Bool × Bytes)

-- `apiFlowBase`; what `parseFlowBody` answers of the body is the argument of the handler.
pub record ApiFlowBase : Type 0 where
  pub source_id : Bytes
  pub format : Bytes
  pub codec : Option Bytes
  pub container : Option Bytes
  pub label : Option Bytes
  pub description : Option Bytes
  pub tags : List (Bytes × Bytes)
  pub essence_parameters : Bytes
  pub container_mapping : Bytes
  pub flow_collection : List CollectionItem
  pub avg_bit_rate : Option ℤ
  pub max_bit_rate : Option ℤ
  pub generation : Option ℤ
  pub metadata_version : Option Bytes
  pub read_only : Option Bool

-- `flowCommonJSON`, the answer, with the rows of its collection.
pub record CollItemJson : Type 0 where
  pub id : Bytes
  pub role : Bytes
  pub container_mapping : Bytes

pub record FlowCommonJson : Type 0 where
  pub id : Bytes
  pub source_id : Bytes
  pub format : Bytes
  pub codec : Option Bytes
  pub container : Option Bytes
  pub label : Option Bytes
  pub description : Option Bytes
  pub tags : List (Bytes × Bytes)
  pub essence_parameters : Bytes
  pub container_mapping : Bytes
  pub flow_collection : List CollItemJson
  pub avg_bit_rate : Option ℤ
  pub max_bit_rate : Option ℤ
  pub generation : Option ℤ
  pub metadata_version : Option Bytes
  pub read_only : Bool
  pub created : ℕ
  pub metadata_updated : ℕ
  pub segments_updated : Option ℕ
  pub timerange : Option Bytes

unfoldable pub or_empty : Option Bytes → Bytes
or_empty none = []
or_empty (some s) = s

unfoldable pub coll_item : CollectionItem → CollItemJson
coll_item i = record { id = i.id; role = or_empty i.role; container_mapping = i.container_mapping }

-- `mapFlowToAPI`, up to the JSON.
unfoldable pub map_flow_to_api : FlowEnv → Flow → FlowCommonJson
map_flow_to_api env f = record {
  id = f.id;
  source_id = f.source_id;
  format = f.format;
  codec = f.codec;
  container = f.container;
  label = f.label;
  description = f.description;
  tags = f.tags;
  essence_parameters = f.essence_parameters;
  container_mapping = f.container_mapping;
  flow_collection = map coll_item f.flow_collection;
  avg_bit_rate = f.avg_bit_rate;
  max_bit_rate = f.max_bit_rate;
  generation = f.generation;
  metadata_version = map_option env.format_int f.metadata_version;
  read_only = f.read_only;
  created = f.created;
  metadata_updated = f.metadata_updated;
  segments_updated = f.segments_updated;
  timerange = f.timerange;
}

-- A version that is no number is dropped.
unfoldable pub parse_version : FlowEnv → Option Bytes → Option ℤ
parse_version env none = none
parse_version env (some text) = env.parse_int text

unfoldable pub or_false : Option Bool → Bool
or_false none = false
or_false (some b) = b

-- `apiFlowToMetastore`, which leaves the other fields at their zero values.
unfoldable pub api_flow_to_metastore : FlowEnv → Bytes → ApiFlowBase → Flow
api_flow_to_metastore env flow_id base = record {
  id = flow_id;
  source_id = base.source_id;
  format = base.format;
  codec = base.codec;
  container = base.container;
  label = base.label;
  description = base.description;
  tags = base.tags;
  essence_parameters = base.essence_parameters;
  container_mapping = base.container_mapping;
  flow_collection = base.flow_collection;
  avg_bit_rate = base.avg_bit_rate;
  max_bit_rate = base.max_bit_rate;
  segment_duration = none;
  generation = base.generation;
  metadata_version = parse_version env base.metadata_version;
  read_only = or_false base.read_only;
  created = 0;
  metadata_updated = 0;
  segments_updated = none;
  timerange = none;
}
