-- ===== src/Flows/Small.antt =====
-- The operations of internal/metastore on single fields, tags and collections, and on sources, keep
-- the tables sound.
use open_tams.Prelude.Sort.{All, All-append}
use open_tams.Prelude.Bytes.{Bytes}
use open_tams.Flows.Sources.{delete_source_tag, put_source_tag, source_exists}
use open_tams.Prelude.Result.{ok, Returns-bind, Returns, Returns-ok, ensure}
use open_tams.Flows.Fields.{
  delete_flow_collection, delete_flow_tag, flow_writable, guarded, insert_items,
  put_flow_collection, put_flow_read_only, put_flow_tag, put_tag, touch, update_flow_field,
  set_column, set_read_only, item_row, set_flow_column, Column, is_item,
}
use open_tams.Prelude.{
  Option, [], inl, inr, none, refl, some, true, ◌++◌, ◌+◌, ◌∷◌, ◌≡◌, List, ℕ, arith, Bool,
  Bool-cases, not,
}
use open_tams.Flows.Sound.{IsSound, KeepsKeys, HasFlow, update_flows-IsSound}
use open_tams.Flows.Finish.{finish-keeps}
use open_tams.Flows.Fields.{label, description, avg_bit_rate, max_bit_rate}
use open_tams.Flows.{
  Db, is_flow, is_source, begin, commit, delete, read_flow, not_found, exec, database, read_source,
  segment_store, one_row, Failing, CollectionItem, TagRow, ItemRow, in_collection, calls, is_tag,
  insert_item,
}
use open_tams.Prelude.Table.{find, exists, remove, All-remove, All-upsert, exists-find}

one_row-ok : {A : Type 0} (o : Option A) (a : A) → one_row o ≡ ok a → o ≡ some a
one_row-ok none a e = absurd (cc)
one_row-ok (some b) a e = ground arith

-- A writable flow is there, and is not read-only.
pub flow_writable-HasFlow :
    (failing : Failing) (id : Bytes) (db : Db)
    → Returns (λ _. HasFlow db.flows id) (flow_writable failing id db)
unfolding flow_writable
flow_writable-HasFlow failing id db = Returns-bind _ (calls failing read_flow) _ λ _ _.
    Returns-bind _ (one_row (find (is_flow id) db.flows)) _ λ f e.
      elim (Bool-cases f.core.read_only) [
        | inl r ↦ rw r tt
        | inr r ↦
            rw r (exists-find (is_flow id) db.flows f (one_row-ok (find (is_flow id) db.flows) f e))
      ]

guarded-IsSound :
    (failing : Failing) (id : Bytes) (changed db : Db)
    → (HasFlow db.flows id → IsSound changed)
    → IsSound db
    → IsSound (guarded failing id changed db).1
unfolding guarded
guarded-IsSound failing id changed db h c = finish-keeps IsSound db _ c (
    Returns-bind _ (flow_writable failing id db) _ λ u e.
      Returns-bind _ (calls failing exec) _ λ _ _.
        h (Returns-ok (λ _. HasFlow db.flows id) _ u (flow_writable-HasFlow failing id db) e))

-- What is kept of the tags.
put_tag-keeps :
    (P : Bytes → Type 0) (id name value : Bytes) (tags : List TagRow)
    → P id
    → All (λ t. P t.owner) tags
    → All (λ t. P t.owner) (put_tag id name value tags)
unfolding put_tag
put_tag-keeps P id name value tags p h =
    All-upsert (λ t. P t.owner) (is_tag id name) (λ t. record t { value = value })
      (record { owner = id; name = name; value = value }) tags (λ t k. k) p h

-- The tables of tags and of collections may change where their rows keep an owner.
rows-IsSound :
    (db : Db) (source_tags flow_tags : List TagRow) (collections : List ItemRow)
    → All (λ t. exists (is_source t.owner) db.sources ≡ true) source_tags
    → All (λ t. HasFlow db.flows t.owner) flow_tags
    → All (λ i. HasFlow db.flows i.owner) collections
    → IsSound db
    → IsSound
        (record db { source_tags = source_tags; flow_tags = flow_tags; collections = collections })
unfolding segment_store
rows-IsSound db source_tags flow_tags collections h k l c = record {
  sourced = c.sourced;
  source_tagged = h;
  tagged = k;
  collected = l;
  owned = c.owned;
  drift = c.drift;
  counted = record {
    disjoint = c.counted.disjoint;
    nonempty = c.counted.nonempty;
    counted = c.counted.counted;
  };
}

tags-IsSound :
    (db : Db) (tags : List TagRow)
    → All (λ t. HasFlow db.flows t.owner) tags
    → IsSound db
    → IsSound (record db { flow_tags = tags })
tags-IsSound db tags h c =
    rows-IsSound db db.source_tags tags db.collections c.source_tagged h c.collected c

pub put_flow_tag-IsSound :
    (failing : Failing) (id name value : Bytes) (db : Db)
    → IsSound db
    → IsSound (put_flow_tag failing id name value db).1
unfolding put_flow_tag
put_flow_tag-IsSound failing id name value db c =
    guarded-IsSound failing id _ db
      (λ h.
        tags-IsSound db _ (put_tag-keeps (HasFlow db.flows) id name value db.flow_tags h c.tagged)
          c)
      c

pub delete_flow_tag-IsSound :
    (failing : Failing) (id name : Bytes) (db : Db)
    → IsSound db
    → IsSound (delete_flow_tag failing id name db).1
unfolding delete_flow_tag
delete_flow_tag-IsSound failing id name db c =
    guarded-IsSound failing id _ db
      (λ h. tags-IsSound db _ (All-remove _ (is_tag id name) db.flow_tags c.tagged) c) c

touched-KeepsKeys : (now : ℕ) (col : Column) → KeepsKeys (λ f. touch now (set_column col f))
unfolding touch set_column
touched-KeepsKeys now (label v) e = (refl, refl, refl)
touched-KeepsKeys now (description v) e = (refl, refl, refl)
touched-KeepsKeys now (avg_bit_rate v) e = (refl, refl, refl)
touched-KeepsKeys now (max_bit_rate v) e = (refl, refl, refl)

pub update_flow_field-IsSound :
    (failing : Failing) (now : ℕ) (id : Bytes) (col : Column) (db : Db)
    → IsSound db
    → IsSound (update_flow_field failing now id col db).1
unfolding update_flow_field set_flow_column
update_flow_field-IsSound failing now id col db c = finish-keeps IsSound db _ c (
    Returns-bind _ (flow_writable failing id db) _ λ _ _.
      Returns-bind _ (calls failing exec) _ λ _ _.
        Returns-bind _ (ensure (exists (is_flow id) db.flows) not_found) _ λ _ _.
          update_flows-IsSound db (is_flow id) (λ f. touch now (set_column col f))
            (touched-KeepsKeys now col) c)

pub put_flow_read_only-IsSound :
    (failing : Failing) (now : ℕ) (id : Bytes) (b : Bool) (db : Db)
    → IsSound db
    → IsSound (put_flow_read_only failing now id b db).1
unfolding put_flow_read_only set_read_only touch
put_flow_read_only-IsSound failing now id b db c = finish-keeps IsSound db _ c (
    Returns-bind _ (calls failing exec) _ λ _ _.
      Returns-bind _ (ensure (exists (is_flow id) db.flows) not_found) _ λ _ _.
        update_flows-IsSound db (is_flow id) (set_read_only now b) (λ e. (refl, refl, refl)) c)

insert_items-keeps :
    (P : Bytes → Type 0) (failing : Failing) (id : Bytes) (i : ℕ) (items : List CollectionItem)
    (rows : List ItemRow)
    → P id
    → All (λ r. P r.owner) rows
    → Returns (λ rows'. All (λ r. P r.owner) rows') (insert_items failing id i items rows)
unfolding insert_items item_row
insert_items-keeps P failing id i [] rows p h = h
insert_items-keeps P failing id i (item ∷ items) rows p h =
    Returns-bind _ (calls failing (insert_item i)) _ λ _ _.
      Returns-bind _ (ensure (not (exists (is_item id item.id) rows)) database) _ λ _ _.
        insert_items-keeps P failing id (i + 1) items (rows ++ item_row id i item ∷ []) p
          (All-append _ rows (item_row id i item ∷ []) h (p, tt))

collections-IsSound :
    (db : Db) (rows : List ItemRow)
    → All (λ r. HasFlow db.flows r.owner) rows
    → IsSound db
    → IsSound (record db { collections = rows })
collections-IsSound db rows h c =
    rows-IsSound db db.source_tags db.flow_tags rows c.source_tagged c.tagged h c

pub put_flow_collection-IsSound :
    (failing : Failing) (id : Bytes) (items : List CollectionItem) (db : Db)
    → IsSound db
    → IsSound (put_flow_collection failing id items db).1
unfolding put_flow_collection
put_flow_collection-IsSound failing id items db c = finish-keeps IsSound db _ c (
    Returns-bind _ (calls failing begin) _ λ _ _.
      Returns-bind _ (flow_writable failing id db) _ λ u e.
        Returns-bind _ (calls failing delete) _ λ _ _.
          Returns-bind _
            (insert_items failing id 0 items (remove (in_collection id) db.collections)) _
            λ rows k. Returns-bind _ (calls failing commit) _ λ _ _.
              collections-IsSound db rows
                (Returns-ok (λ rows'. All (λ r. HasFlow db.flows r.owner) rows') _ rows
                  (insert_items-keeps (HasFlow db.flows) failing id 0 items
                    (remove (in_collection id) db.collections)
                    (Returns-ok (λ _. HasFlow db.flows id) _ u (flow_writable-HasFlow failing id db)
                      e)
                    (All-remove _ (in_collection id) db.collections c.collected))
                  k)
                c)

pub delete_flow_collection-IsSound :
    (failing : Failing) (id : Bytes) (db : Db)
    → IsSound db
    → IsSound (delete_flow_collection failing id db).1
unfolding delete_flow_collection
delete_flow_collection-IsSound failing id db c =
    guarded-IsSound failing id _ db
      (λ h. collections-IsSound db _ (All-remove _ (in_collection id) db.collections c.collected) c)
      c

-- Sources.
source_exists-ok :
    (failing : Failing) (id : Bytes) (db : Db)
    → Returns (λ _. exists (is_source id) db.sources ≡ true) (source_exists failing id db)
unfolding source_exists
source_exists-ok failing id db = Returns-bind _ (calls failing read_source) _ λ _ _.
    elim (Bool-cases (exists (is_source id) db.sources)) [ inl e ↦ rw e (refl) | inr e ↦ rw e tt ]

source_tags-IsSound :
    (db : Db) (tags : List TagRow)
    → All (λ t. exists (is_source t.owner) db.sources ≡ true) tags
    → IsSound db
    → IsSound (record db { source_tags = tags })
source_tags-IsSound db tags h c =
    rows-IsSound db tags db.flow_tags db.collections h c.tagged c.collected c

pub put_source_tag-IsSound :
    (failing : Failing) (id name value : Bytes) (db : Db)
    → IsSound db
    → IsSound (put_source_tag failing id name value db).1
unfolding put_source_tag
put_source_tag-IsSound failing id name value db c = finish-keeps IsSound db _ c (
    Returns-bind _ (source_exists failing id db) _ λ u e.
      Returns-bind _ (calls failing exec) _ λ _ _.
        source_tags-IsSound db _
          (put_tag-keeps (λ o. exists (is_source o) db.sources ≡ true) id name value db.source_tags
            (Returns-ok (λ _. exists (is_source id) db.sources ≡ true) _ u
              (source_exists-ok failing id db) e)
            c.source_tagged)
          c)

pub delete_source_tag-IsSound :
    (failing : Failing) (id name : Bytes) (db : Db)
    → IsSound db
    → IsSound (delete_source_tag failing id name db).1
unfolding delete_source_tag
delete_source_tag-IsSound failing id name db c = finish-keeps IsSound db _ c (
    Returns-bind _ (source_exists failing id db) _ λ _ _.
      Returns-bind _ (calls failing exec) _ λ _ _.
        source_tags-IsSound db _ (All-remove _ (is_tag id name) db.source_tags c.source_tagged) c)
