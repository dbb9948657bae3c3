-- ===== src/Flows/Guards.antt =====
-- internal/metastore/flows.go: which operations the flag read_only stops.
use open_tams.Prelude.Table.{find, exists-find}
use open_tams.Prelude.Bytes.{Bytes, bytes_eq_refl}
use open_tams.Flows.Write.{
  delete_flow, delete_transaction, upsert_flow, upsert_transaction, change_flow, check_codec,
}
use open_tams.Flows.Fields.{
  flow_writable, put_flow_tag, delete_flow_tag, guarded, update_flow_field, put_flow_collection,
  delete_flow_collection,
}
use open_tams.Prelude.Result.{err, ok}
use open_tams.Prelude.{Option, false, inl, inr, none, refl, some, true, ◌≡◌, Bool-cases, ℕ, arith}
use open_tams.Flows.Operations.{
  Op, upsert_op, delete_op, put_tag_op, delete_tag_op, column_op, read_only_op, put_collection_op,
  delete_collection_op, put_source_tag_op, delete_source_tag_op, source_column_op, segments_op,
}
use open_tams.Flows.Errors.{rejects}
use open_tams.Flows.{
  Db, FlowError, FlowEntry, Flow, finish, begin, read_flow, read_only, Failing, is_flow, database,
  codec_equal,
}

-- The flow whose flag an operation on flows asks for before it writes.
abbrev pub guarded_flow : Op → Option Bytes
guarded_flow (put_tag_op failing id name value) = some id
guarded_flow (delete_tag_op failing id name) = some id
guarded_flow (column_op failing now id c) = some id
guarded_flow (put_collection_op failing id items) = some id
guarded_flow (delete_collection_op failing id) = some id
guarded_flow _ = none

-- The test fails on a flow that is read-only, also where the database fails.
flow_writable-fails :
    (failing : Failing) (id : Bytes) (e : FlowEntry) (db : Db)
    → find (is_flow id) db.flows ≡ some e
    → e.core.read_only ≡ true
    → (x : FlowError) × (flow_writable failing id db ≡ err x)
unfolding flow_writable
flow_writable-fails failing id e db h r = elim (Bool-cases (failing read_flow)) [
  | inl f ↦ (database, rw f refl)
  | inr f ↦ (read_only, rw (f, h, r) refl)
]

same_flow : (i id : Bytes) → some i ≡ some id → i ≡ id
same_flow i id h = ground arith

codec_equal_refl : (c : Option Bytes) → codec_equal c c ≡ true
unfolding codec_equal
codec_equal_refl none = refl
codec_equal_refl (some b) = bytes_eq_refl b

-- An operation on the tags, the collection, the label, the description or a bit rate of a flow
-- returns an error if the flow is read-only.
pub read_only_stops :
    (op : Op) (id : Bytes) (e : FlowEntry) (db : Db)
    → guarded_flow op ≡ some id
    → find (is_flow id) db.flows ≡ some e
    → e.core.read_only ≡ true
    → rejects op db ≡ true
unfolding rejects put_flow_tag delete_flow_tag guarded update_flow_field put_flow_collection
    delete_flow_collection finish
read_only_stops (put_tag_op failing i name value) id e db g h r =
    let (x, w) = flow_writable-fails failing i e db (rw (same_flow i id g) h) r in rw w refl
read_only_stops (delete_tag_op failing i name) id e db g h r =
    let (x, w) = flow_writable-fails failing i e db (rw (same_flow i id g) h) r in rw w refl
read_only_stops (column_op failing now i c) id e db g h r =
    let (x, w) = flow_writable-fails failing i e db (rw (same_flow i id g) h) r in rw w refl
read_only_stops (put_collection_op failing i items) id e db g h r =
    let (x, w) = flow_writable-fails failing i e db (rw (same_flow i id g) h) r in
    elim (Bool-cases (failing begin)) [ inl f ↦ rw f refl | inr f ↦ rw (f, w) refl ]
read_only_stops (delete_collection_op failing i) id e db g h r =
    let (x, w) = flow_writable-fails failing i e db (rw (same_flow i id g) h) r in rw w refl
read_only_stops (upsert_op failing now f) id e db g h r = absurd (cc)
read_only_stops (delete_op failing i) id e db g h r = absurd (cc)
read_only_stops (read_only_op failing now i b) id e db g h r = absurd (cc)
read_only_stops (put_source_tag_op failing i name value) id e db g h r = absurd (cc)
read_only_stops (delete_source_tag_op failing i name) id e db g h r = absurd (cc)
read_only_stops (source_column_op failing now i c) id e db g h r = absurd (cc)
read_only_stops (segments_op w) id e db g h r = absurd (cc)

abbrev pub none_failing : Failing
none_failing c = false

-- Where no call of the database fails, DeleteFlow succeeds on every flow that is there, and
-- UpsertFlow on every such flow for a request that keeps its source, format and codec, whether the
-- flow is read-only or not, and whether it has segments or not. No other field of the request is
-- compared with the flow's: essence parameters that differ are accepted for a flow with segments too.
pub read_only_ignored :
    (now : ℕ) (f : Flow) (e : FlowEntry) (db : Db)
    → find (is_flow f.id) db.flows ≡ some e
    → e.source_id ≡ f.source_id
    → e.format ≡ f.format
    → e.codec ≡ f.codec
    → ((delete_flow none_failing f.id db).0 ≡ ok tt)
      × ((upsert_flow none_failing now f db).0 ≡ ok false)
unfolding delete_flow delete_transaction upsert_flow upsert_transaction change_flow check_codec
    finish
read_only_ignored now f e db h s t c = (
  rw (exists-find (is_flow f.id) db.flows e h) refl,
  rw (h, s, t, c, bytes_eq_refl f.source_id, bytes_eq_refl f.format, codec_equal_refl f.codec) refl,
)
