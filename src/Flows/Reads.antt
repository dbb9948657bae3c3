-- ===== src/Flows/Reads.antt =====
-- internal/metastore/flows.go: what `GetFlow` returns behind a write.
use open_tams.Flows.Keys.{ensure_eq}
use open_tams.Prelude.Table.{find, find-append_none, find-update_same, find-passes}
use open_tams.Prelude.Bytes.{Bytes, bytes_eq, bytes_eq_refl, bytes_eq_iff}
use open_tams.Prelude.Result.{ok, Returns, Returns-bind, ensure, Returns-ok, ◌>>=◌}
use open_tams.Prelude.{
  [], inl, inr, none, refl, some, ℕ, ◌∙◌, ◌∷◌, ◌≡◌, ◌⊎◌, Bool, ap, false, true, Option,
}
use open_tams.Flows.Write.{
  change_flow, create_flow, upsert_flow, upsert_transaction, new_entry, set_entry, ensure_source,
  check_codec,
}
use open_tams.Flows.{
  Db, FlowEntry, Flow, begin, commit, read_flow, Failing, update_flow, is_flow, from_json, nil_json,
  get_flow, tags_of, scan_flow_base, collection_of, calls, insert_flow, immutable_field,
}
use open_tams.Flows.Finish.{finish-ok}
use open_tams.Flows.Guards.{none_failing}

-- What a flow that is read has of a request and of the other tables.
pub record Carries (now : ℕ) (f g : Flow) (db : Db) : Type 0 where
  pub id : g.id ≡ f.id
  pub source_id : g.source_id ≡ f.source_id
  pub format : g.format ≡ f.format
  pub codec : g.codec ≡ f.codec
  pub container : g.container ≡ f.container
  pub label : g.label ≡ f.label
  pub description : g.description ≡ f.description
  pub tags : g.tags ≡ tags_of f.id db.flow_tags
  pub essence_parameters : g.essence_parameters ≡ f.essence_parameters
  pub container_mapping : g.container_mapping ≡ f.container_mapping
  pub flow_collection : g.flow_collection ≡ collection_of f.id db.collections
  pub avg_bit_rate : g.avg_bit_rate ≡ f.avg_bit_rate
  pub max_bit_rate : g.max_bit_rate ≡ f.max_bit_rate
  pub segment_duration : g.segment_duration ≡ f.segment_duration
  pub generation : g.generation ≡ f.generation
  pub metadata_version : g.metadata_version ≡ f.metadata_version
  pub read_only : g.read_only ≡ f.read_only
  pub metadata_updated : g.metadata_updated ≡ now
  pub timerange : g.timerange ≡ f.timerange
  pub times :
      ((find (is_flow f.id) db.flows ≡ none) × (g.created ≡ now) × (g.segments_updated ≡ none))
      ⊎ ((o : FlowEntry) × (find (is_flow f.id) db.flows ≡ some o)
          × (g.created ≡ o.created)
          × (g.segments_updated ≡ o.core.segments_updated))

pub from_json-nil_json : (b : Bytes) → from_json (nil_json b) ≡ b
unfolding from_json nil_json
from_json-nil_json [] = refl
from_json-nil_json (c ∷ b) = refl

-- The row of a flow behind an upsert, whether it was added or changed.
abbrev Stored : ℕ → Flow → Db → Db → Type 0
Stored now f db db' =
    (e : FlowEntry) × (find (is_flow f.id) db'.flows ≡ some e)
    × (((e ≡ new_entry now f) × (find (is_flow f.id) db.flows ≡ none))
        ⊎ ((o : FlowEntry) × (e ≡ set_entry now f o)
            × (find (is_flow f.id) db.flows ≡ some o)
            × (o.core.id ≡ f.id)
            × (o.source_id ≡ f.source_id)
            × (o.format ≡ f.format)))
    × (db'.flow_tags ≡ db.flow_tags)
    × (db'.collections ≡ db.collections)

create_flow-Stored :
    (failing : Failing) (now : ℕ) (f : Flow) (db : Db)
    → find (is_flow f.id) db.flows ≡ none
    → Returns (Stored now f db) (create_flow failing now f db)
unfolding create_flow
create_flow-Stored failing now f db n =
    Returns-bind _ (ensure_source failing now f db.sources) _ λ sources _.
      Returns-bind _ (calls failing insert_flow) _ λ _ _. (
        new_entry now f,
        find-append_none (is_flow f.id) db.flows (new_entry now f ∷ []) n
            ∙ (unfold find new_entry in rw (bytes_eq_refl f.id)),
        inl (refl, n),
        refl,
        refl,
      )

change_flow-Stored :
    (failing : Failing) (now : ℕ) (f : Flow) (x : FlowEntry) (db : Db)
    → find (is_flow f.id) db.flows ≡ some x
    → Returns (Stored now f db) (change_flow failing now f x db)
unfolding change_flow
change_flow-Stored failing now f x db h =
    Returns-bind _ (ensure (bytes_eq x.source_id f.source_id) immutable_field) _ λ u s.
      Returns-bind _ (ensure (bytes_eq x.format f.format) immutable_field) _ λ v t.
        Returns-bind _ (check_codec failing f x db) _ λ w c.
          Returns-bind _ (calls failing update_flow) _ λ _ _. (
            set_entry now f x,
            find-update_same (is_flow f.id) (set_entry now f) db.flows x
                (λ y p. unfold set_entry in p) h,
            inr (
              x,
              refl,
              h,
              (bytes_eq_iff x.core.id f.id).0 (find-passes (is_flow f.id) db.flows x h),
              Returns-ok (λ _. x.source_id ≡ f.source_id) _ u (ensure_eq _ _ immutable_field) s,
              Returns-ok (λ _. x.format ≡ f.format) _ v (ensure_eq _ _ immutable_field) t,
            ),
            refl,
            refl,
          )

found-Stored :
    (failing : Failing) (now : ℕ) (f : Flow) (db : Db) (o : Option FlowEntry)
    → find (is_flow f.id) db.flows ≡ o
    → Returns {A = Bool × Db}
        (λ p. Stored now f db p.1)
        (elim o [
          | none ↦ do db' ← create_flow failing now f db; _ ← calls failing commit; ok (true, db')
          | some e ↦ do
            db' ← change_flow failing now f e db
            _ ← calls failing commit
            ok (false, db')
        ])
found-Stored failing now f db none n = Returns-bind _ (create_flow failing now f db) _ λ db' d.
    Returns-bind _ (calls failing commit) _
      λ _ _. Returns-ok (Stored now f db) _ db' (create_flow-Stored failing now f db n) d
found-Stored failing now f db (some x) n =
    Returns-bind _ (change_flow failing now f x db) _ λ db' d.
      Returns-bind _ (calls failing commit) _
        λ _ _. Returns-ok (Stored now f db) _ db' (change_flow-Stored failing now f x db n) d

upsert_flow-Stored :
    (failing : Failing) (now : ℕ) (f : Flow) (db : Db) (created : Bool)
    → (upsert_flow failing now f db).0 ≡ ok created
    → Stored now f db (upsert_flow failing now f db).1
unfolding upsert_flow upsert_transaction
upsert_flow-Stored failing now f db created h =
    finish-ok (λ _ db'. Stored now f db db') db _ created
      (Returns-bind _ (calls failing begin) _ λ _ _.
        Returns-bind _ (calls failing read_flow) _
          λ _ _. found-Stored failing now f db (find (is_flow f.id) db.flows) refl)
      h

-- The flow that `GetFlow` makes of a row.
abbrev read_back : Bytes → FlowEntry → Db → Flow
read_back id e db = record (scan_flow_base (tags_of id db.flow_tags) e) {
  flow_collection = collection_of id db.collections;
}

read_back-Carries :
    (now : ℕ) (f : Flow) (db db' : Db) (s : Stored now f db db')
    → Carries now f (read_back f.id s.0 db') db
unfolding scan_flow_base new_entry set_entry
read_back-Carries now f db db' (e, found, inl (u, n), t, c) = rw u (record {
  id = refl;
  source_id = refl;
  format = refl;
  codec = refl;
  container = refl;
  label = refl;
  description = refl;
  tags = ap (tags_of f.id) t;
  essence_parameters = from_json-nil_json f.essence_parameters;
  container_mapping = from_json-nil_json f.container_mapping;
  flow_collection = ap (collection_of f.id) c;
  avg_bit_rate = refl;
  max_bit_rate = refl;
  segment_duration = refl;
  generation = refl;
  metadata_version = refl;
  read_only = refl;
  metadata_updated = refl;
  timerange = refl;
  times = inl (n, refl, refl);
})
read_back-Carries now f db db' (e, found, inr (x, u, n, i, p, q), t, c) = rw u (record {
  id = i;
  source_id = p;
  format = q;
  codec = refl;
  container = refl;
  label = refl;
  description = refl;
  tags = ap (tags_of f.id) t;
  essence_parameters = from_json-nil_json f.essence_parameters;
  container_mapping = from_json-nil_json f.container_mapping;
  flow_collection = ap (collection_of f.id) c;
  avg_bit_rate = refl;
  max_bit_rate = refl;
  segment_duration = refl;
  generation = refl;
  metadata_version = refl;
  read_only = refl;
  metadata_updated = refl;
  timerange = refl;
  times = inr (x, n, refl, refl);
})

-- Behind a call of UpsertFlow that succeeds, GetFlow, in which no call of the database fails,
-- returns the flow of the request's id with the request's source, format, codec, container, label,
-- description, essence parameters, container mapping, bit rates, segment duration, generation,
-- metadata_version, read_only mark and time range, which replaces the time range that the flow had
-- and is absent where the request has none. The tags and the collection are those that the tables
-- held for the id before, metadata_updated is the time of the call, and created and
-- segments_updated are the time of the call and absent where the flow is new, and else what they
-- were; whatever the request has in these five fields is not kept.
pub get_flow-upsert_flow :
    (failing : Failing) (now : ℕ) (f : Flow) (db : Db) (created : Bool)
    → (upsert_flow failing now f db).0 ≡ ok created
    → (g : Flow) × (get_flow none_failing f.id (upsert_flow failing now f db).1 ≡ ok g)
      × Carries now f g db
unfolding get_flow
get_flow-upsert_flow failing now f db created h =
    let s = upsert_flow-Stored failing now f db created h in
    let db' = (upsert_flow failing now f db).1 in
    (read_back f.id s.0 db', rw s.1 refl, read_back-Carries now f db db' s)
