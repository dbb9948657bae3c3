-- ===== src/Handlers/Fields.antt =====
-- internal/httpx/handlers/flows.go, the handlers of one field of a flow, of its tags and of its
-- collection. The bodies are what the generated code decodes, after the validator has seen that they
-- are there; a problem without a detail is its status.
use open_tams.Flows.Tags.{tag_value}
use open_tams.Flows.Fields.{
  delete_flow_avg_bit_rate, delete_flow_collection, delete_flow_description, delete_flow_label,
  delete_flow_max_bit_rate, delete_flow_tag, put_flow_avg_bit_rate, put_flow_collection,
  put_flow_description, put_flow_label, put_flow_max_bit_rate, put_flow_read_only, put_flow_tag,
}
use open_tams.Prelude.Int.{ℤ}
use open_tams.Prelude.Bytes.{Bytes}
use open_tams.Prelude.Maybe.{map_option}
use open_tams.Handlers.FlowBodies.{FlowEnv, or_empty}
use open_tams.Handlers.FlowService.{FlowServiceError, of_flow, service_get}
use open_tams.Prelude.Result.{Result, err, ok}
use open_tams.Prelude.{Option, none, some, List, [], ◌∷◌, Bool, ℕ, map, false}
use open_tams.Flows.{FlowError, Flow, Db, Failing, CollectionItem}

-- 200 with a value, or 404; a HEAD has no value.
pub data FieldResponse (A : Type 0) : Type 0 where
  found : A → FieldResponse A
  missing : FieldResponse A

-- 204, 404 and 400.
pub data WriteResponse : Type 0 where
  written write_missing write_refused : WriteResponse

unfoldable pub shown : {A : Type 0} → Option A → FieldResponse A
shown none = missing
shown (some a) = found a

-- The part of a handler behind its call of the service, with `isNotFound`.
unfoldable pub answered :
    {A B : Type 0}
    → (A → Option B)
    → Result FlowServiceError A
    → Result FlowServiceError (FieldResponse B)
answered pick (ok a) = ok (shown (pick a))
answered pick (err (of_flow FlowError.not_found)) = ok missing
answered pick (err e) = err e

abbrev pub Reader : Type 0 → Type 0
Reader A = FlowEnv → Failing → Bytes → Db → Result FlowServiceError (FieldResponse A)

unfoldable pub read_field : {A : Type 0} → (Flow → Option A) → Reader A
read_field pick env failing flow_id db = elim (env.parse_uuid flow_id) [
  | none ↦ ok missing
  | some id ↦ answered pick (service_get failing (λ _. false) false none id db)
]

-- What is left of a value in a HEAD.
unfoldable pub present : {A : Type 0} → Option A → Option (Unit {0})
present none = none
present (some a) = some tt

unfoldable pub answered_write : Result FlowError (Unit {0}) → Result FlowError WriteResponse
answered_write (ok u) = ok written
answered_write (err FlowError.not_found) = ok write_missing
answered_write (err e) = err e

abbrev pub Written : Type 0
Written = Result FlowError WriteResponse × Db

unfoldable pub write_field :
    FlowEnv → (Bytes → Db → Result FlowError (Unit {0}) × Db) → Bytes → Db → Written
write_field env op flow_id db = elim (env.parse_uuid flow_id) [
  | none ↦ (ok write_missing, db)
  | some id ↦ (answered_write (op id db).0, (op id db).1)
]

-- `HeadFlow`.
unfoldable pub head_flow_request : Reader (Unit {0})
head_flow_request = read_field (λ f. some tt)

unfoldable pub get_description_request : Reader Bytes
get_description_request = read_field (λ f. f.description)

unfoldable pub head_description_request : Reader (Unit {0})
head_description_request = read_field (λ f. present f.description)

unfoldable pub put_description_request : FlowEnv → Failing → ℕ → Bytes → Bytes → Db → Written
put_description_request env failing now flow_id v =
    write_field env (λ id. put_flow_description failing now id v) flow_id

unfoldable pub delete_description_request : FlowEnv → Failing → ℕ → Bytes → Db → Written
delete_description_request env failing now flow_id =
    write_field env (λ id. delete_flow_description failing now id) flow_id

unfoldable pub get_label_request : Reader Bytes
get_label_request = read_field (λ f. f.label)

unfoldable pub head_label_request : Reader (Unit {0})
head_label_request = read_field (λ f. present f.label)

unfoldable pub put_label_request : FlowEnv → Failing → ℕ → Bytes → Bytes → Db → Written
put_label_request env failing now flow_id v =
    write_field env (λ id. put_flow_label failing now id v) flow_id

unfoldable pub delete_label_request : FlowEnv → Failing → ℕ → Bytes → Db → Written
delete_label_request env failing now flow_id =
    write_field env (λ id. delete_flow_label failing now id) flow_id

unfoldable pub get_tags_request : Reader (List (Bytes × Bytes))
get_tags_request = read_field (λ f. some f.tags)

unfoldable pub head_tags_request : Reader (Unit {0})
head_tags_request = read_field (λ f. some tt)

unfoldable pub get_tag_request : Bytes → Reader Bytes
get_tag_request name = read_field (λ f. tag_value name f.tags)

unfoldable pub head_tag_request : Bytes → Reader (Unit {0})
head_tag_request name = read_field (λ f. present (tag_value name f.tags))

unfoldable pub put_tag_request : FlowEnv → Failing → Bytes → Bytes → Bytes → Db → Written
put_tag_request env failing flow_id name value =
    write_field env (λ id. put_flow_tag failing id name value) flow_id

unfoldable pub delete_tag_request : FlowEnv → Failing → Bytes → Bytes → Db → Written
delete_tag_request env failing flow_id name =
    write_field env (λ id. delete_flow_tag failing id name) flow_id

-- An element of `api.FlowCollection`.
pub record ApiCollItem : Type 0 where
  pub id : Bytes
  pub role : Bytes
  pub container_mapping : Option Bytes

-- The loop of the answer, which sets two of the fields.
unfoldable pub listed_item : CollectionItem → ApiCollItem
listed_item i = record { id = i.id; role = or_empty i.role; container_mapping = none }

unfoldable pub get_collection_request : Reader (List ApiCollItem)
get_collection_request = read_field (λ f. some (map listed_item f.flow_collection))

unfoldable pub head_collection_request : Reader (Unit {0})
head_collection_request = read_field (λ f. some tt)

-- The loop on the body, which reads two of the fields.
unfoldable pub posted_item : ApiCollItem → Bytes → CollectionItem
posted_item i id = record { id = id; role = some i.role; container_mapping = [] }

unfoldable pub posted_items : FlowEnv → List ApiCollItem → Option (List CollectionItem)
posted_items env [] = some []
posted_items env (i ∷ is) = elim (env.parse_uuid i.id) [
  | none ↦ none
  | some id ↦ map_option (λ items. posted_item i id ∷ items) (posted_items env is)
]

unfoldable pub put_collection_request : FlowEnv → Failing → Bytes → List ApiCollItem → Db → Written
put_collection_request env failing flow_id body db = elim (env.parse_uuid flow_id) [
  | none ↦ (ok write_missing, db)
  | some id ↦ elim (posted_items env body) [
    | none ↦ (ok write_refused, db)
    | some items ↦ (
      answered_write (put_flow_collection failing id items db).0,
      (put_flow_collection failing id items db).1,
    )
  ]
]

unfoldable pub delete_collection_request : FlowEnv → Failing → Bytes → Db → Written
delete_collection_request env failing flow_id =
    write_field env (λ id. delete_flow_collection failing id) flow_id

unfoldable pub get_avg_bit_rate_request : Reader ℤ
get_avg_bit_rate_request = read_field (λ f. f.avg_bit_rate)

unfoldable pub head_avg_bit_rate_request : Reader (Unit {0})
head_avg_bit_rate_request = read_field (λ f. present f.avg_bit_rate)

unfoldable pub put_avg_bit_rate_request : FlowEnv → Failing → ℕ → Bytes → ℤ → Db → Written
put_avg_bit_rate_request env failing now flow_id v =
    write_field env (λ id. put_flow_avg_bit_rate failing now id v) flow_id

unfoldable pub delete_avg_bit_rate_request : FlowEnv → Failing → ℕ → Bytes → Db → Written
delete_avg_bit_rate_request env failing now flow_id =
    write_field env (λ id. delete_flow_avg_bit_rate failing now id) flow_id

unfoldable pub get_max_bit_rate_request : Reader ℤ
get_max_bit_rate_request = read_field (λ f. f.max_bit_rate)

unfoldable pub head_max_bit_rate_request : Reader (Unit {0})
head_max_bit_rate_request = read_field (λ f. present f.max_bit_rate)

unfoldable pub put_max_bit_rate_request : FlowEnv → Failing → ℕ → Bytes → ℤ → Db → Written
put_max_bit_rate_request env failing now flow_id v =
    write_field env (λ id. put_flow_max_bit_rate failing now id v) flow_id

unfoldable pub delete_max_bit_rate_request : FlowEnv → Failing → ℕ → Bytes → Db → Written
delete_max_bit_rate_request env failing now flow_id =
    write_field env (λ id. delete_flow_max_bit_rate failing now id) flow_id

unfoldable pub get_read_only_request : Reader Bool
get_read_only_request = read_field (λ f. some f.read_only)

unfoldable pub head_read_only_request : Reader (Unit {0})
head_read_only_request = read_field (λ f. some tt)

unfoldable pub put_read_only_request : FlowEnv → Failing → ℕ → Bytes → Bool → Db → Written
put_read_only_request env failing now flow_id b =
    write_field env (λ id. put_flow_read_only failing now id b) flow_id
