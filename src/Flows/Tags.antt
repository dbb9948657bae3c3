-- ===== src/Flows/Tags.antt =====
-- internal/metastore/flows.go: what `GetFlow` returns of tags and of a collection behind a write.
use mathlib.Core.List.{append-nil, append_assoc}
use open_tams.Prelude.Maybe.{map_option}
use open_tams.Prelude.Table.{upsert, find, remove, exists}
use open_tams.Prelude.Bytes.{Bytes, bytes_eq, bytes_eq_refl, bytes_eq_iff}
use open_tams.Prelude.Sort.{insert, select, sort, All}
use open_tams.Prelude.{
  [], false, if◌then◌else◌, inl, inr, none, refl, some, true, ◌&&◌, ◌++◌, ◌+◌, ◌<◌, ◌∙◌, ◌∷◌, ◌≡◌,
  List, ℕ, ap, Option, sym, map, arith, Bool-cases, not,
}
use open_tams.Flows.Fields.{
  guarded, insert_items, item_row, put_flow_collection, put_flow_tag, put_tag, flow_writable,
  is_item,
}
use open_tams.Prelude.Result.{ok, Returns-bind, Returns, Returns-ok, ensure}
use open_tams.Flows.{
  Db, begin, commit, delete, exec, Failing, database, TagRow, ItemRow, CollectionItem, is_tag,
  in_collection, tags_of, scan_item, collection_of, item_lt, calls, insert_item,
}
use open_tams.Flows.Finish.{finish-ok}
use open_tams.Flows.Reads.{from_json-nil_json}

-- `tags[name]`.
unfoldable pub tag_value : Bytes → List (Bytes × Bytes) → Option Bytes
tag_value name [] = none
tag_value name (t ∷ ts) = if bytes_eq t.0 name then some t.1 else tag_value name ts

-- The lookup of a tag, in the table.
tag_value-tags_of :
    (id name : Bytes) (tags : List TagRow)
    → tag_value name (tags_of id tags) ≡ map_option (λ t. t.value) (find (is_tag id name) tags)
unfolding tag_value tags_of select find
tag_value-tags_of id name [] = refl
tag_value-tags_of id name (t ∷ ts) = elim (Bool-cases (bytes_eq t.owner id)) [
  | inr o ↦ rw o (tag_value-tags_of id name ts)
  | inl o ↦ elim (Bool-cases (bytes_eq t.name name)) [
    | inl n ↦ rw (o, n) refl
    | inr n ↦ rw (o, n) (tag_value-tags_of id name ts)
  ]
]

find-put_tag_same :
    (id name value : Bytes) (tags : List TagRow)
    → map_option (λ t. t.value) (find (is_tag id name) (put_tag id name value tags)) ≡ some value
unfolding put_tag upsert find
find-put_tag_same id name value [] = rw (bytes_eq_refl id, bytes_eq_refl name) refl
find-put_tag_same id name value (t ∷ ts) = elim (Bool-cases (is_tag id name t)) [
  | inl e ↦ rw (e, e) refl
  | inr e ↦ rw (e, e) (find-put_tag_same id name value ts)
]

find-put_tag_other :
    (i n id name value : Bytes) (tags : List TagRow)
    → (bytes_eq id i && bytes_eq name n) ≡ false
    → map_option (λ t. t.value) (find (is_tag i n) (put_tag id name value tags))
      ≡ map_option (λ t. t.value) (find (is_tag i n) tags)
unfolding put_tag upsert find
find-put_tag_other i n id name value [] d = rw d refl
find-put_tag_other i n id name value (t ∷ ts) d = elim (Bool-cases (is_tag id name t)) [
  | inl e ↦ let k = other t e in rw (e, k) refl
  | inr e ↦ rw e (elim (Bool-cases (is_tag i n t)) [
    | inl k ↦ rw k refl
    | inr k ↦ rw k (find-put_tag_other i n id name value ts d)
  ])
]
  where
    other : (t : TagRow) → is_tag id name t ≡ true → is_tag i n t ≡ false
    other t e = ground (
      arith,
      bytes_eq_iff t.owner id,
      bytes_eq_iff t.name name,
      bytes_eq_iff t.owner i,
      bytes_eq_iff t.name n,
      bytes_eq_iff id i,
      bytes_eq_iff name n,
    )

guarded-ok :
    (failing : Failing) (id : Bytes) (changed db : Db)
    → (guarded failing id changed db).0 ≡ ok tt
    → (guarded failing id changed db).1 ≡ changed
unfolding guarded
guarded-ok failing id changed db h =
    finish-ok (λ _ db'. db' ≡ changed) db _ tt
      (Returns-bind _ (flow_writable failing id db) _
        λ _ _. Returns-bind _ (calls failing exec) _ λ _ _. refl)
      h

-- Behind a call of PutFlowTag that succeeds, the tag has the value among the tags that are read of
-- the flow, and every other tag of this flow and of others has the value that it had, or none as
-- before.
pub put_flow_tag-get :
    (failing : Failing) (id name value : Bytes) (db : Db)
    → (put_flow_tag failing id name value db).0 ≡ ok tt
    → (tag_value name (tags_of id (put_flow_tag failing id name value db).1.flow_tags) ≡ some value)
      × ((i n : Bytes)
          → (bytes_eq id i && bytes_eq name n) ≡ false
          → tag_value n (tags_of i (put_flow_tag failing id name value db).1.flow_tags)
            ≡ tag_value n (tags_of i db.flow_tags))
unfolding put_flow_tag
put_flow_tag-get failing id name value db h =
    rw (guarded-ok failing id (record db { flow_tags = put_tag id name value db.flow_tags }) db h) (
      tag_value-tags_of id name (put_tag id name value db.flow_tags)
          ∙ find-put_tag_same id name value db.flow_tags,
      λ i n d.
          tag_value-tags_of i n (put_tag id name value db.flow_tags)
          ∙ find-put_tag_other i n id name value db.flow_tags d
          ∙ sym (tag_value-tags_of i n db.flow_tags),
    )

-- The rows of a collection, in the order of their numbers.
unfoldable pub item_rows : Bytes → ℕ → List CollectionItem → List ItemRow
item_rows id i [] = []
item_rows id i (item ∷ items) = item_row id i item ∷ item_rows id (i + 1) items

insert_items-eq :
    (failing : Failing) (id : Bytes) (i : ℕ) (items : List CollectionItem) (rows : List ItemRow)
    → Returns (λ r. r ≡ rows ++ item_rows id i items) (insert_items failing id i items rows)
unfolding insert_items item_rows
insert_items-eq failing id i [] rows = sym (append-nil rows)
insert_items-eq failing id i (item ∷ items) rows =
    Returns-bind _ (calls failing (insert_item i)) _ λ _ _.
      Returns-bind _ (ensure (not (exists (is_item id item.id) rows)) database) _ λ _ _.
        rw (← append_assoc rows (item_row id i item ∷ []) (item_rows id (i + 1) items))
          (insert_items-eq failing id (i + 1) items (rows ++ item_row id i item ∷ []))

select-item_rows :
    (id : Bytes) (i : ℕ) (items : List CollectionItem) (rows : List ItemRow)
    → select (in_collection id) (remove (in_collection id) rows ++ item_rows id i items)
      ≡ item_rows id i items
unfolding select remove item_rows item_row
select-item_rows id i [] [] = refl
select-item_rows id i (item ∷ items) [] =
    rw (bytes_eq_refl id) (ap (λ l. item_row id i item ∷ l) (select-item_rows id (i + 1) items []))
select-item_rows id i items (r ∷ rows) = elim (Bool-cases (in_collection id r)) [
  | inl e ↦ rw e (select-item_rows id i items rows)
  | inr e ↦ rw (e, e) (select-item_rows id i items rows)
]

-- Rows with rising numbers are in order.
item_rows-later :
    (id : Bytes) (k i : ℕ) (item : CollectionItem) (items : List CollectionItem)
    → k < i
    → All (λ r. item_lt r (item_row id k item) ≡ false) (item_rows id i items)
unfolding item_rows item_row item_lt
item_rows-later id k i item [] h = tt
item_rows-later id k i item (x ∷ items) h =
    (ground arith, item_rows-later id k (i + 1) item items (omega arith))

insert_first :
    (r : ItemRow) (rows : List ItemRow)
    → All (λ q. item_lt q r ≡ false) rows
    → insert item_lt r rows ≡ r ∷ rows
unfolding insert
insert_first r [] h = refl
insert_first r (q ∷ rows) h = rw h.0 refl

sort-item_rows :
    (id : Bytes) (i : ℕ) (items : List CollectionItem)
    → sort item_lt (item_rows id i items) ≡ item_rows id i items
unfolding sort item_rows
sort-item_rows id i [] = refl
sort-item_rows id i (item ∷ items) =
    ap (insert item_lt (item_row id i item)) (sort-item_rows id (i + 1) items)
    ∙ insert_first (item_row id i item) (item_rows id (i + 1) items)
        (item_rows-later id i (i + 1) item items (omega arith))

scan-item_rows :
    (id : Bytes) (i : ℕ) (items : List CollectionItem)
    → map scan_item (item_rows id i items) ≡ items
unfolding item_rows scan_item item_row
scan-item_rows id i [] = refl
scan-item_rows id i (item ∷ items) =
    rw (from_json-nil_json item.container_mapping, scan-item_rows id (i + 1) items) refl

put_flow_collection-rows :
    (failing : Failing) (id : Bytes) (items : List CollectionItem) (db : Db)
    → (put_flow_collection failing id items db).0 ≡ ok tt
    → (put_flow_collection failing id items db).1.collections
      ≡ remove (in_collection id) db.collections ++ item_rows id 0 items
unfolding put_flow_collection
put_flow_collection-rows failing id items db h =
    finish-ok
      (λ _ db'. db'.collections ≡ remove (in_collection id) db.collections ++ item_rows id 0 items)
      db _ tt
      (Returns-bind _ (calls failing begin) _ λ _ _.
        Returns-bind _ (flow_writable failing id db) _ λ _ _.
          Returns-bind _ (calls failing delete) _ λ _ _.
            Returns-bind _
              (insert_items failing id 0 items (remove (in_collection id) db.collections)) _
              λ rows e. Returns-bind _ (calls failing commit) _ λ _ _.
                Returns-ok
                  (λ r. r ≡ remove (in_collection id) db.collections ++ item_rows id 0 items) _ rows
                  (insert_items-eq failing id 0 items (remove (in_collection id) db.collections)) e)
      h

-- Behind a call of PutFlowCollection that succeeds, the collection that is read of the flow is the
-- one that was put, in its order.
pub put_flow_collection-get :
    (failing : Failing) (id : Bytes) (items : List CollectionItem) (db : Db)
    → (put_flow_collection failing id items db).0 ≡ ok tt
    → collection_of id (put_flow_collection failing id items db).1.collections ≡ items
unfolding collection_of
put_flow_collection-get failing id items db h =
    rw
      (
        put_flow_collection-rows failing id items db h,
        select-item_rows id 0 items db.collections,
        sort-item_rows id 0 items,
      )
      (scan-item_rows id 0 items)
