-- ===== src/Flows/Preserved.antt =====
-- Each operation of internal/metastore on flows and sources keeps the tables sound, with any
-- failures of the database.
use open_tams.Flows.Counts.{surplus, delete_transaction-IsDrifted}
use open_tams.Segments.Consistent.{IsDrifted}
use open_tams.Prelude.Result.{Returns, Returns-map, Returns-bind, Returns-both, ensure, Returns-ok}
use open_tams.Prelude.Bytes.{Bytes, bytes_eq, bytes_eq_iff}
use open_tams.Prelude.{false, inl, inr, refl, ◌+◌, ◌∙◌, ◌≡◌, List, ℕ, Option-cases, arith}
use open_tams.Flows.Sound.{
  IsSound, HasFlow, HasSource, update_flows-IsSound, create-IsSound, IsEnsured,
  ensure_source-IsEnsured,
}
use open_tams.Flows.Finish.{finish-keeps}
use open_tams.Flows.Write.{
  upsert_flow, upsert_transaction, delete_flow, delete_transaction, set_entry, change_flow,
  drop_flow, create_flow, release_objects, ensure_source, check_codec,
}
use open_tams.Flows.{
  Db, is_flow, begin, commit, delete, decrement, read_flow, not_found, Failing, Flow, FlowEntry,
  segment_store, calls, insert_flow, immutable_field, in_collection, update_flow, in_flow,
}
use open_tams.Prelude.Table.{
  find, exists, remove, All-remove, exists-remove_other, All-remove_others,
}

create_flow-IsSound :
    (failing : Failing) (now : ℕ) (f : Flow) (db : Db)
    → IsSound db
    → Returns IsSound (create_flow failing now f db)
unfolding create_flow
create_flow-IsSound failing now f db c =
    Returns-bind _ (ensure_source failing now f db.sources) _ λ sources e.
      Returns-bind _ (calls failing insert_flow) _ λ _ _.
        create-IsSound now f db sources
          (Returns-ok (IsEnsured f db.sources) _ sources
            (ensure_source-IsEnsured failing now f db.sources) e)
          c

change_flow-IsSound :
    (failing : Failing) (now : ℕ) (f : Flow) (e : FlowEntry) (db : Db)
    → IsSound db
    → Returns IsSound (change_flow failing now f e db)
unfolding change_flow set_entry
change_flow-IsSound failing now f e db c =
    Returns-bind _ (ensure (bytes_eq e.source_id f.source_id) immutable_field) _ λ _ _.
      Returns-bind _ (ensure (bytes_eq e.format f.format) immutable_field) _ λ _ _.
        Returns-bind _ (check_codec failing f e db) _ λ _ _.
          Returns-bind _ (calls failing update_flow) _ λ _ _.
            update_flows-IsSound db (is_flow f.id) (set_entry now f) (λ x. (refl, refl, refl)) c

pub upsert_flow-IsSound :
    (failing : Failing) (now : ℕ) (f : Flow) (db : Db)
    → IsSound db
    → IsSound (upsert_flow failing now f db).1
unfolding upsert_flow upsert_transaction
upsert_flow-IsSound failing now f db c = finish-keeps IsSound db _ c (
    Returns-bind _ (calls failing begin) _ λ _ _. Returns-bind _ (calls failing read_flow) _ λ _ _.
      elim (Option-cases (find (is_flow f.id) db.flows)) [
        | inl e ↦ rw e (
            Returns-bind _ (create_flow failing now f db) _ λ db' d.
              Returns-bind _ (calls failing commit) _
                λ _ _. Returns-ok IsSound _ db' (create_flow-IsSound failing now f db c) d)
        | inr (x, e) ↦ rw e (
            Returns-bind _ (change_flow failing now f x db) _ λ db' d.
              Returns-bind _ (calls failing commit) _
                λ _ _. Returns-ok IsSound _ db' (change_flow-IsSound failing now f x db c) d)
      ])

-- The flows of the rows that stay are not the deleted one.
stays :
    (id owner : Bytes) (flows : List FlowEntry)
    → bytes_eq owner id ≡ false
    → HasFlow flows owner
    → HasFlow (remove (is_flow id) flows) owner
stays id owner flows d h =
    exists-remove_other (is_flow owner) (is_flow id) flows (λ y p.
      ground
        (arith, bytes_eq_iff y.core.id id, bytes_eq_iff owner id, bytes_eq_iff y.core.id owner))
    ∙ h

drop_flow-IsSound :
    (id : Bytes) (db : Db) (drift : Bytes → ℕ)
    → IsSound db
    → IsDrifted drift (
        segment_store
          (drop_flow id (record db { objects = release_objects id db.segments db.objects })))
    → IsSound (drop_flow id (record db { objects = release_objects id db.segments db.objects }))
unfolding drop_flow
drop_flow-IsSound id db drift c d = record {
  sourced = All-remove (HasSource db.sources) (is_flow id) db.flows c.sourced;
  source_tagged = c.source_tagged;
  tagged =
      All-remove_others _ _ (λ t. bytes_eq t.owner id) db.flow_tags
        (λ t e h. stays id t.owner db.flows e h) c.tagged;
  collected =
      All-remove_others _ _ (in_collection id) db.collections
        (λ i e h. stays id i.owner db.flows e h) c.collected;
  owned =
      All-remove_others _ _ (in_flow id) db.segments (λ r e h. stays id r.flow_id db.flows e h)
        c.owned;
  drift = drift;
  counted = d;
}

delete_transaction-ends :
    (failing : Failing) (id : Bytes) (db : Db)
    → Returns
        (λ p.
          p.1 ≡ drop_flow id (record db { objects = release_objects id db.segments db.objects }))
        (delete_transaction failing id db)
unfolding delete_transaction
delete_transaction-ends failing id db = Returns-bind _ (calls failing begin) _ λ _ _.
    Returns-bind _ (calls failing decrement) _ λ _ _. Returns-bind _ (calls failing delete) _ λ _ _.
      Returns-bind _ (ensure (exists (is_flow id) db.flows) not_found) _
        λ _ _. Returns-bind _ (calls failing commit) _ λ _ _. refl

pub delete_flow-IsSound :
    (failing : Failing) (id : Bytes) (db : Db) → IsSound db → IsSound (delete_flow failing id db).1
unfolding delete_flow
delete_flow-IsSound failing id db c = finish-keeps IsSound db _ c (
    Returns-map _ (λ p. IsSound p.1) (delete_transaction failing id db)
      (λ p h.
        rw h.0
          (drop_flow-IsSound id db (λ j. c.drift j + surplus id j db.segments) c (rw h.0 at h.1)))
      (Returns-both _ _ (delete_transaction failing id db) (delete_transaction-ends failing id db)
        (delete_transaction-IsDrifted c.drift failing id db c.counted)))
