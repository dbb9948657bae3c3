-- ===== src/Handlers/ReadBack.antt =====
-- internal/httpx/handlers/flows.go: what is read behind a write of a field or of the collection.
use open_tams.Flows.Tags.{put_flow_collection-get}
use open_tams.Flows.Immutable.{put_flow_collection-flows}
use open_tams.Flows.Finish.{finish-ok}
use open_tams.Prelude.Table.{find, remove}
use open_tams.Prelude.Sort.{All}
use open_tams.Flows.Guards.{none_failing}
use open_tams.Flows.Columns.{
  set_field, update_flow_field-get, read_row, get_flow-found, flow_writable-found,
}
use open_tams.Prelude.Bytes.{Bytes}
use open_tams.Flows.{
  Flow, Failing, FlowError, Db, get_flow, CollectionItem, FlowEntry, is_flow, calls, begin, delete,
  in_collection, commit,
}
use open_tams.Prelude.Result.{err, ok, Result, Returns-bind, Returns-ok}
use open_tams.Handlers.Fields.{
  answered_write, put_label_request, read_field, write_field, delete_label_request,
  put_description_request, answered, written, get_label_request, Written,
  delete_description_request, put_avg_bit_rate_request, delete_avg_bit_rate_request, shown,
  get_description_request, put_max_bit_rate_request, get_avg_bit_rate_request,
  delete_max_bit_rate_request, get_max_bit_rate_request, put_collection_request, ApiCollItem,
  posted_items, posted_item, get_collection_request, listed_item, found,
}
use open_tams.Handlers.FlowBodies.{FlowEnv, or_empty}
use open_tams.Handlers.FlowService.{from_flow, service_get}
use open_tams.Prelude.{
  ◌≡◌, refl, none, some, inl, inr, ℕ, ap, map, List, Option, ◌∙◌, Option-cases, [], ◌∷◌,
}
use open_tams.Flows.Fields.{
  label, description, avg_bit_rate, max_bit_rate, Column, update_flow_field, put_flow_label,
  delete_flow_label, put_flow_description, delete_flow_description, put_flow_avg_bit_rate,
  delete_flow_avg_bit_rate, put_flow_max_bit_rate, delete_flow_max_bit_rate, put_flow_collection,
  flow_writable, insert_items,
}

-- The `PUT` and the `DELETE` of a column, and what its `GET` has to answer.
abbrev pub write_request : FlowEnv → Failing → ℕ → Bytes → Column → Db → Written
write_request env failing now flow_id (label (some v)) = put_label_request env failing now flow_id v
write_request env failing now flow_id (label none) = delete_label_request env failing now flow_id
write_request env failing now flow_id (description (some v)) =
    put_description_request env failing now flow_id v
write_request env failing now flow_id (description none) =
    delete_description_request env failing now flow_id
write_request env failing now flow_id (avg_bit_rate (some v)) =
    put_avg_bit_rate_request env failing now flow_id v
write_request env failing now flow_id (avg_bit_rate none) =
    delete_avg_bit_rate_request env failing now flow_id
write_request env failing now flow_id (max_bit_rate (some v)) =
    put_max_bit_rate_request env failing now flow_id v
write_request env failing now flow_id (max_bit_rate none) =
    delete_max_bit_rate_request env failing now flow_id

abbrev pub Answers : FlowEnv → Bytes → Column → Db → Type 0
Answers env flow_id (label v) db = get_label_request env none_failing flow_id db ≡ ok (shown v)
Answers env flow_id (description v) db =
    get_description_request env none_failing flow_id db ≡ ok (shown v)
Answers env flow_id (avg_bit_rate v) db =
    get_avg_bit_rate_request env none_failing flow_id db ≡ ok (shown v)
Answers env flow_id (max_bit_rate v) db =
    get_max_bit_rate_request env none_failing flow_id db ≡ ok (shown v)

answered_write-ok : (r : Result FlowError (Unit {0})) → answered_write r ≡ ok written → r ≡ ok tt
unfolding answered_write
answered_write-ok (ok u) h = refl
answered_write-ok (err FlowError.not_found) h = absurd (cc)
answered_write-ok (err FlowError.read_only) h = absurd (cc)
answered_write-ok (err FlowError.immutable_field) h = absurd (cc)
answered_write-ok (err FlowError.format_mismatch) h = absurd (cc)
answered_write-ok (err FlowError.invalid_json) h = absurd (cc)
answered_write-ok (err FlowError.bad_timerange) h = absurd (cc)
answered_write-ok (err FlowError.database) h = absurd (cc)

-- A write that answers 204 has parsed the id and run its operation.
write_field-ok :
    (env : FlowEnv) (op : Bytes → Db → Result FlowError (Unit {0}) × Db) (flow_id : Bytes) (db : Db)
    → (write_field env op flow_id db).0 ≡ ok written
    → (id : Bytes) × (env.parse_uuid flow_id ≡ some id)
      × ((op id db).0 ≡ ok tt)
      × ((write_field env op flow_id db).1 ≡ (op id db).1)
unfolding write_field
write_field-ok env op flow_id db h = elim (Option-cases (env.parse_uuid flow_id)) [
  | inl e ↦ absurd (let k = rw (write_field, e) at h in cc)
  | inr (id, e) ↦
      (id, e, answered_write-ok (op id db).0 (rw (write_field, e) at h), rw (write_field, e) refl)
]

read_field-get :
    {A : Type 0} (pick : Flow → Option A) (env : FlowEnv) (flow_id id : Bytes) (db : Db) (g : Flow)
    → env.parse_uuid flow_id ≡ some id
    → get_flow none_failing id db ≡ ok g
    → read_field pick env none_failing flow_id db ≡ ok (shown (pick g))
unfolding read_field service_get from_flow answered
read_field-get pick env flow_id id db g u h = rw (read_field, u, service_get, h) refl

column-read :
    {A : Type 0} (pick : Flow → Option A) (env : FlowEnv) (failing : Failing) (now : ℕ)
    (flow_id : Bytes) (c : Column) (db : Db) (v : Option A)
    → ((g : Flow) → pick (set_field now c g) ≡ v)
    → (write_field env (λ id. update_flow_field failing now id c) flow_id db).0 ≡ ok written
    → read_field pick env none_failing flow_id
        (write_field env (λ id. update_flow_field failing now id c) flow_id db).1
      ≡ ok (shown v)
column-read pick env failing now flow_id c db v k h =
    let (id, u, s, same) =
      write_field-ok env (λ id. update_flow_field failing now id c) flow_id db h in
    let (g, _, after, _) = update_flow_field-get failing now id c db s in
    rw same (
      read_field-get pick env flow_id id (update_flow_field failing now id c db).1
        (set_field now c g) u after
      ∙ ap (λ x. ok (shown x)) (k g))

-- Behind a PUT of the label, the description or a bit rate of a flow that answers 204, the GET of it
-- answers this value, and behind a DELETE that answers 204, the GET answers 404.
pub write_request-Answers :
    (env : FlowEnv) (failing : Failing) (now : ℕ) (flow_id : Bytes) (c : Column) (db : Db)
    → (write_request env failing now flow_id c db).0 ≡ ok written
    → Answers env flow_id c (write_request env failing now flow_id c db).1
unfolding put_label_request delete_label_request put_description_request delete_description_request
    put_avg_bit_rate_request delete_avg_bit_rate_request put_max_bit_rate_request
    delete_max_bit_rate_request put_flow_label delete_flow_label put_flow_description
    delete_flow_description put_flow_avg_bit_rate delete_flow_avg_bit_rate put_flow_max_bit_rate
    delete_flow_max_bit_rate get_label_request get_description_request get_avg_bit_rate_request
    get_max_bit_rate_request
write_request-Answers env failing now flow_id (label (some v)) db h =
    column-read (λ f. f.label) env failing now flow_id (label (some v)) db (some v) (λ g. refl) h
write_request-Answers env failing now flow_id (label none) db h =
    column-read (λ f. f.label) env failing now flow_id (label none) db none (λ g. refl) h
write_request-Answers env failing now flow_id (description (some v)) db h =
    column-read (λ f. f.description) env failing now flow_id (description (some v)) db (some v)
      (λ g. refl) h
write_request-Answers env failing now flow_id (description none) db h =
    column-read (λ f. f.description) env failing now flow_id (description none) db none (λ g. refl)
      h
write_request-Answers env failing now flow_id (avg_bit_rate (some v)) db h =
    column-read (λ f. f.avg_bit_rate) env failing now flow_id (avg_bit_rate (some v)) db (some v)
      (λ g. refl) h
write_request-Answers env failing now flow_id (avg_bit_rate none) db h =
    column-read (λ f. f.avg_bit_rate) env failing now flow_id (avg_bit_rate none) db none
      (λ g. refl) h
write_request-Answers env failing now flow_id (max_bit_rate (some v)) db h =
    column-read (λ f. f.max_bit_rate) env failing now flow_id (max_bit_rate (some v)) db (some v)
      (λ g. refl) h
write_request-Answers env failing now flow_id (max_bit_rate none) db h =
    column-read (λ f. f.max_bit_rate) env failing now flow_id (max_bit_rate none) db none
      (λ g. refl) h

put_flow_collection-found :
    (failing : Failing) (id : Bytes) (items : List CollectionItem) (db : Db)
    → (put_flow_collection failing id items db).0 ≡ ok tt
    → (e : FlowEntry) × (find (is_flow id) db.flows ≡ some e)
unfolding put_flow_collection
put_flow_collection-found failing id items db h =
    finish-ok (λ _ _. (e : FlowEntry) × (find (is_flow id) db.flows ≡ some e)) db _ tt
      (Returns-bind _ (calls failing begin) _ λ _ _.
        Returns-bind _ (flow_writable failing id db) _ λ u w.
          Returns-bind _ (calls failing delete) _ λ _ _.
            Returns-bind _
              (insert_items failing id 0 items (remove (in_collection id) db.collections)) _
              λ _ _.
                Returns-bind _ (calls failing commit) _
                  λ _ _. Returns-ok _ _ u (flow_writable-found failing id db) w)
      h

-- Ids that are UUIDs in their canonical text.
abbrev pub Canonical : FlowEnv → List ApiCollItem → Type 0
Canonical env items = All (λ i. env.parse_uuid i.id ≡ some i.id) items

abbrev pub without_mapping : ApiCollItem → ApiCollItem
without_mapping i = record i { container_mapping = none }

posted_items-listed :
    (env : FlowEnv) (body : List ApiCollItem)
    → Canonical env body
    → (items : List CollectionItem) × (posted_items env body ≡ some items)
      × (map listed_item items ≡ map without_mapping body)
unfolding posted_items posted_item listed_item or_empty
posted_items-listed env [] c = ([], refl, refl)
posted_items-listed env (i ∷ body) (c, cs) =
    let (items, e, m) = posted_items-listed env body cs in
    (posted_item i i.id ∷ items, rw (posted_items, c, e) refl, ap (λ l. without_mapping i ∷ l) m)

-- Behind a PUT of a collection that answers 204, where the ids of the body are canonical, the GET
-- answers the items of the body, in their order, with their roles, but none of their container
-- mappings.
pub get-put_collection :
    (env : FlowEnv) (failing : Failing) (flow_id : Bytes) (body : List ApiCollItem) (db : Db)
    → Canonical env body
    → (put_collection_request env failing flow_id body db).0 ≡ ok written
    → get_collection_request env none_failing flow_id
        (put_collection_request env failing flow_id body db).1
      ≡ ok (found (map without_mapping body))
unfolding put_collection_request get_collection_request shown
get-put_collection env failing flow_id body db c h =
    let (items, e, m) = posted_items-listed env body c in
    elim (Option-cases (env.parse_uuid flow_id)) [
      | inl u ↦ absurd (let k = rw (put_collection_request, u) at h in cc)
      | inr (id, u) ↦
          let s : (put_flow_collection failing id items db).0 ≡ ok tt =
            answered_write-ok _ (rw (put_collection_request, u, e) at h) in
          let (x, f) = put_flow_collection-found failing id items db s in
          let db' = (put_flow_collection failing id items db).1 in
          rw (put_collection_request, u, e)
            (read_field-get (λ f. some (map listed_item f.flow_collection)) env flow_id id db'
                (read_row db' id x) u
                (get_flow-found id db' x (rw (put_flow_collection-flows failing id items db) f))
              ∙ ap (λ l. ok (found (map listed_item l)))
                  (put_flow_collection-get failing id items db s)
              ∙ ap (λ l. ok (found l)) m)
    ]
