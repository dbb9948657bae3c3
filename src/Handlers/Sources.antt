-- ===== src/Handlers/Sources.antt =====
-- internal/httpx/handlers/sources.go, the handlers of one source and its fields, over the store.
use open_tams.Flows.Sources.{
  delete_source_description, delete_source_label, delete_source_tag, put_source_description,
  put_source_label, put_source_tag,
}
use open_tams.Flows.Tags.{tag_value}
use open_tams.Prelude.Result.{ok}
use open_tams.Prelude.Bytes.{Bytes}
use open_tams.Handlers.Fields.{Reader, Written, present, missing, write_field, answered}
use open_tams.Handlers.FlowBodies.{FlowEnv}
use open_tams.Handlers.FlowService.{from_flow}
use open_tams.Prelude.{Option, none, some, List, [], ◌∷◌, ℕ}
use open_tams.Flows.{Source, Db, Failing, get_source}

-- `api.Source` and `mapSource`.
pub record ApiSource : Type 0 where
  pub id : Bytes
  pub format : Bytes
  pub label : Option Bytes
  pub description : Option Bytes
  pub tags : Option (List (Bytes × Bytes))
  pub created : ℕ
  pub updated : ℕ

unfoldable pub some_tags : List (Bytes × Bytes) → Option (List (Bytes × Bytes))
some_tags [] = none
some_tags (t ∷ ts) = some (t ∷ ts)

unfoldable pub map_source : Source → ApiSource
map_source s = record {
  id = s.id;
  format = s.format;
  label = s.label;
  description = s.description;
  tags = some_tags s.tags;
  created = s.created;
  updated = s.updated;
}

unfoldable pub read_source_field : {A : Type 0} → (Source → Option A) → Reader A
read_source_field pick env failing source_id db = elim (env.parse_uuid source_id) [
  | none ↦ ok missing
  | some id ↦ answered pick (from_flow (get_source failing id db))
]

unfoldable pub get_source_request : Reader ApiSource
get_source_request = read_source_field (λ s. some (map_source s))

unfoldable pub head_source_request : Reader (Unit {0})
head_source_request = read_source_field (λ s. some tt)

unfoldable pub get_source_description_request : Reader Bytes
get_source_description_request = read_source_field (λ s. s.description)

unfoldable pub head_source_description_request : Reader (Unit {0})
head_source_description_request = read_source_field (λ s. present s.description)

unfoldable pub put_source_description_request : FlowEnv → Failing → ℕ → Bytes → Bytes → Db → Written
put_source_description_request env failing now source_id v =
    write_field env (λ id. put_source_description failing now id v) source_id

unfoldable pub delete_source_description_request : FlowEnv → Failing → ℕ → Bytes → Db → Written
delete_source_description_request env failing now source_id =
    write_field env (λ id. delete_source_description failing now id) source_id

unfoldable pub get_source_label_request : Reader Bytes
get_source_label_request = read_source_field (λ s. s.label)

unfoldable pub head_source_label_request : Reader (Unit {0})
head_source_label_request = read_source_field (λ s. present s.label)

unfoldable pub put_source_label_request : FlowEnv → Failing → ℕ → Bytes → Bytes → Db → Written
put_source_label_request env failing now source_id v =
    write_field env (λ id. put_source_label failing now id v) source_id

unfoldable pub delete_source_label_request : FlowEnv → Failing → ℕ → Bytes → Db → Written
delete_source_label_request env failing now source_id =
    write_field env (λ id. delete_source_label failing now id) source_id

unfoldable pub get_source_tags_request : Reader (List (Bytes × Bytes))
get_source_tags_request = read_source_field (λ s. some s.tags)

unfoldable pub head_source_tags_request : Reader (Unit {0})
head_source_tags_request = read_source_field (λ s. some tt)

unfoldable pub get_source_tag_request : Bytes → Reader Bytes
get_source_tag_request name = read_source_field (λ s. tag_value name s.tags)

unfoldable pub head_source_tag_request : Bytes → Reader (Unit {0})
head_source_tag_request name = read_source_field (λ s. present (tag_value name s.tags))

unfoldable pub put_source_tag_request : FlowEnv → Failing → Bytes → Bytes → Bytes → Db → Written
put_source_tag_request env failing source_id name value =
    write_field env (λ id. put_source_tag failing id name value) source_id

unfoldable pub delete_source_tag_request : FlowEnv → Failing → Bytes → Bytes → Db → Written
delete_source_tag_request env failing source_id name =
    write_field env (λ id. delete_source_tag failing id name) source_id
