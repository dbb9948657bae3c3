-- ===== src/Flows/Sound.antt =====
-- What holds of the tables of internal/metastore between its operations.
use open_tams.Prelude.Result.{Returns, Returns-bind}
use open_tams.Segments.{ObjectRow, Store, FlowRow, SegmentRow}
use open_tams.Prelude.Bytes.{Bytes, bytes_eq, bytes_eq_refl, bytes_eq_iff}
use open_tams.Prelude.Sort.{All, All-append, All-map}
use open_tams.Prelude.{
  Bool, List, [], inl, inr, refl, some, true, ℕ, ◌++◌, ◌∙◌, ◌∷◌, ◌≡◌, ap, Option-cases, Bool-cases,
}
use open_tams.Flows.{
  Db, FlowEntry, SourceRow, segment_store, is_flow, is_source, Failing, Flow, calls, read_source,
  insert_source,
}
use open_tams.Flows.Write.{new_source, new_entry, ensure_source}
use open_tams.Segments.Consistent.{IsDrifted}
use open_tams.Prelude.Table.{
  find, exists, update, exists-append, exists-update, All-update, find-append, find-append_none,
}

-- The source of a flow exists, with the format of the flow.
abbrev pub HasSource : List SourceRow → FlowEntry → Type 0
HasSource sources f =
    (s : SourceRow) × (find (is_source f.source_id) sources ≡ some s) × (s.format ≡ f.format)

abbrev pub HasFlow : List FlowEntry → Bytes → Type 0
HasFlow flows id = exists (is_flow id) flows ≡ true

-- The rows of a database whose rows refer to rows that exist, whose segments lie apart, and whose
-- counts of references are at least the numbers of references.
pub record IsSound (db : Db) : Type 0 where
  pub sourced : All (HasSource db.sources) db.flows
  pub source_tagged : All (λ t. exists (is_source t.owner) db.sources ≡ true) db.source_tags
  pub tagged : All (λ t. HasFlow db.flows t.owner) db.flow_tags
  pub collected : All (λ i. HasFlow db.flows i.owner) db.collections
  pub owned : All (λ r. HasFlow db.flows r.flow_id) db.segments
  pub drift : Bytes → ℕ
  pub counted : IsDrifted drift (segment_store db)

-- A change of flows that keeps their keys and formats.
abbrev pub KeepsKeys : (FlowEntry → FlowEntry) → Type 0
KeepsKeys f =
    (e : FlowEntry)
    → ((f e).core.id ≡ e.core.id) × ((f e).source_id ≡ e.source_id) × ((f e).format ≡ e.format)

HasSource-keep :
    (sources : List SourceRow) (f : FlowEntry → FlowEntry)
    → KeepsKeys f
    → (e : FlowEntry) → HasSource sources e
    → HasSource sources (f e)
HasSource-keep sources f k e h = rw ((k e).1, (k e).2) h

HasFlow-update :
    (p : FlowEntry → Bool) (f : FlowEntry → FlowEntry) (flows : List FlowEntry)
    → KeepsKeys f
    → (id : Bytes) → HasFlow flows id
    → HasFlow (update p f flows) id
HasFlow-update p f flows k id h =
    exists-update (is_flow id) p f flows (λ e. ap (λ i. bytes_eq i id) (k e).0) ∙ h

-- The segments and objects may change with the flows.
pub update-IsSound :
    (db : Db) (p : FlowEntry → Bool) (f : FlowEntry → FlowEntry) (objects : List ObjectRow)
    (segments : List SegmentRow)
    → KeepsKeys f
    → (c : IsSound db) → All (λ r. HasFlow db.flows r.flow_id) segments
    → IsDrifted c.drift (record { flows = []; objects = objects; segments = segments })
    → IsSound (record db { flows = update p f db.flows; objects = objects; segments = segments })
unfolding segment_store
update-IsSound db p f objects segments k c o d = record {
  sourced =
      All-update (HasSource db.sources) p f db.flows (HasSource-keep db.sources f k) c.sourced;
  source_tagged = c.source_tagged;
  tagged = All-map _ _ db.flow_tags (λ t. HasFlow-update p f db.flows k t.owner) c.tagged;
  collected = All-map _ _ db.collections (λ i. HasFlow-update p f db.flows k i.owner) c.collected;
  owned = All-map _ _ segments (λ r. HasFlow-update p f db.flows k r.flow_id) o;
  drift = c.drift;
  counted = record { disjoint = d.disjoint; nonempty = d.nonempty; counted = d.counted };
}

pub IsDrifted-flows :
    (drift : Bytes → ℕ) (s : Store) (flows : List FlowRow)
    → IsDrifted drift s
    → IsDrifted drift (record { flows = flows; objects = s.objects; segments = s.segments })
IsDrifted-flows drift s flows d = record {
  disjoint = d.disjoint;
  nonempty = d.nonempty;
  counted = d.counted;
}

-- An update of the flows alone.
pub update_flows-IsSound :
    (db : Db) (p : FlowEntry → Bool) (f : FlowEntry → FlowEntry)
    → KeepsKeys f
    → IsSound db
    → IsSound (record db { flows = update p f db.flows })
unfolding segment_store
update_flows-IsSound db p f k c =
    update-IsSound db p f db.objects db.segments k c c.owned
      (IsDrifted-flows c.drift (segment_store db) [] c.counted)

-- The sources of a new flow: what they held before they still hold, and the flow's source is there.
pub record IsEnsured (f : Flow) (sources sources' : List SourceRow) : Type 0 where
  pub kept : (e : FlowEntry) → HasSource sources e → HasSource sources' e
  pub stays :
      (id : Bytes) → exists (is_source id) sources ≡ true → exists (is_source id) sources' ≡ true
  pub source : SourceRow
  pub found : find (is_source f.source_id) sources' ≡ some source
  pub agrees : source.format ≡ f.format

pub ensure_source-IsEnsured :
    (failing : Failing) (now : ℕ) (f : Flow) (sources : List SourceRow)
    → Returns (IsEnsured f sources) (ensure_source failing now f sources)
unfolding ensure_source new_source
ensure_source-IsEnsured failing now f sources = Returns-bind _ (calls failing read_source) _ λ _ _.
    elim (Option-cases (find (is_source f.source_id) sources)) [
      | inl e ↦ rw e (
          Returns-bind _ (calls failing insert_source) _ λ _ _. record {
            kept = λ x h. (
              h.0,
              find-append (is_source x.source_id) sources (new_source now f ∷ []) h.0 h.1,
              h.2,
            );
            stays = λ id h. exists-append (is_source id) sources (new_source now f ∷ []) h;
            source = new_source now f;
            found =
                find-append_none (is_source f.source_id) sources (new_source now f ∷ []) e
                ∙ (unfold find in rw (bytes_eq_refl f.source_id));
            agrees = refl;
          })
      | inr (s, e) ↦ rw e (elim (Bool-cases (bytes_eq s.format f.format)) [
        | inr d ↦ rw d tt
        | inl d ↦ rw d (record {
          kept = λ x h. h;
          stays = λ id h. h;
          source = s;
          found = e;
          agrees = (bytes_eq_iff s.format f.format).0 d;
        })
      ])
    ]

-- A flow that is added, once its source is there.
pub create-IsSound :
    (now : ℕ) (f : Flow) (db : Db) (sources : List SourceRow)
    → IsEnsured f db.sources sources
    → IsSound db
    → IsSound (record db { sources = sources; flows = db.flows ++ new_entry now f ∷ [] })
unfolding segment_store new_entry
create-IsSound now f db sources s c =
    let more : (id : Bytes) → HasFlow db.flows id → HasFlow (db.flows ++ new_entry now f ∷ []) id =
      λ id. exists-append (is_flow id) db.flows (new_entry now f ∷ []) in
    record {
      sourced =
          All-append (HasSource sources) db.flows (new_entry now f ∷ [])
            (All-map _ _ db.flows s.kept c.sourced) ((s.source, s.found, s.agrees), tt);
      source_tagged = All-map _ _ db.source_tags (λ t. s.stays t.owner) c.source_tagged;
      tagged = All-map _ _ db.flow_tags (λ t. more t.owner) c.tagged;
      collected = All-map _ _ db.collections (λ i. more i.owner) c.collected;
      owned = All-map _ _ db.segments (λ r. more r.flow_id) c.owned;
      drift = c.drift;
      counted = record {
        disjoint = c.counted.disjoint;
        nonempty = c.counted.nonempty;
        counted = c.counted.counted;
      };
    }
