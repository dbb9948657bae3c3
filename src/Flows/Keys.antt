-- ===== src/Flows/Keys.antt =====
-- internal/metastore/flows.go, the fields of a flow that cannot change.
use open_tams.Segments.{SegmentRow}
use open_tams.Prelude.Result.{Returns, ensure, Returns-bind, Returns-ok}
use open_tams.Prelude.Bytes.{Bytes, bytes_eq, bytes_eq_iff}
use open_tams.Flows.Write.{
  check_codec, set_entry, delete_flow, change_flow, create_flow, upsert_flow, upsert_transaction,
  ensure_source, delete_transaction, drop_flow, new_entry,
}
use open_tams.Prelude.{
  false, inl, inr, none, refl, some, true, ◌∙◌, ◌≡◌, Bool, Option, List, ℕ, arith, ap, Bool-cases,
  sym, ◌∷◌, [], Option-cases,
}
use open_tams.Flows.Finish.{finish-keeps}
use open_tams.Flows.Operations.{Op, delete_op}
use open_tams.Flows.{
  Db, is_flow, FlowEntry, begin, commit, delete, decrement, read_flow, not_found, in_flow,
  codec_equal, Failing, FlowError, Flow, calls, count_segments, immutable_field, update_flow,
  insert_flow,
}
use open_tams.Prelude.Table.{
  find, exists, update, find-update_each, find-update_same, find-update_other, find-remove_other,
  find-append,
}

-- The flow with this id is the same one as before, in its source and format, and in its codec where
-- it had segments.
pub record IsKept (id : Bytes) (e : FlowEntry) (segments : List SegmentRow) (db : Db) : Type 0 where
  pub entry : FlowEntry
  pub found : find (is_flow id) db.flows ≡ some entry
  pub same_source : entry.source_id ≡ e.source_id
  pub same_format : entry.format ≡ e.format
  pub same_codec : exists (in_flow id) segments ≡ true → entry.codec ≡ e.codec

-- The calls that delete a flow.
abbrev pub deletes : Bytes → Op → Bool
deletes id (delete_op failing i) = bytes_eq i id
deletes id _ = false

-- A change of flows that keeps what the theorem is about.
abbrev pub Harmless : (FlowEntry → FlowEntry) → Type 0
Harmless f =
    (e : FlowEntry)
    → ((f e).core.id ≡ e.core.id)
      × ((f e).source_id ≡ e.source_id)
      × ((f e).format ≡ e.format)
      × ((f e).codec ≡ e.codec)

module _ (id : Bytes) (e : FlowEntry) (db : Db) where
  pub unchanged :
      (db' : Db)
      → db'.flows ≡ db.flows
      → find (is_flow id) db.flows ≡ some e
      → IsKept id e db.segments db'
  unchanged db' same h = record {
    entry = e;
    found = rw same h;
    same_source = refl;
    same_format = refl;
    same_codec = λ _. refl;
  }

  pub updated :
      (p : FlowEntry → Bool) (f : FlowEntry → FlowEntry) (db' : Db)
      → Harmless f
      → find (is_flow id) db.flows ≡ some e
      → db'.flows ≡ update p f db.flows
      → IsKept id e db.segments db'
  updated p f db' k h s =
      let (z, g, o) =
        find-update_each (is_flow id) p f db.flows e (λ y. ap (λ i. bytes_eq i id) (k y).0) h in
      elim o [
        | inl u ↦ record {
          entry = z;
          found = rw s g;
          same_source = ap (λ x. x.source_id) u;
          same_format = ap (λ x. x.format) u;
          same_codec = λ _. ap (λ x. x.codec) u;
        }
        | inr u ↦ record {
          entry = z;
          found = rw s g;
          same_source = ap (λ x. x.source_id) u ∙ (k e).1;
          same_format = ap (λ x. x.format) u ∙ (k e).2;
          same_codec = λ _. ap (λ x. x.codec) u ∙ (k e).3;
        }
      ]

codec_equal-ok : (a b : Option Bytes) → codec_equal a b ≡ true → a ≡ b
unfolding codec_equal
codec_equal-ok none none h = refl
codec_equal-ok none (some b) h = absurd (cc)
codec_equal-ok (some a) none h = absurd (cc)
codec_equal-ok (some a) (some b) h = ground (arith, bytes_eq_iff a b)

check_codec-keeps :
    (failing : Failing) (f : Flow) (e : FlowEntry) (db : Db)
    → Returns
        (λ _. exists (in_flow f.id) db.segments ≡ true → f.codec ≡ e.codec)
        (check_codec failing f e db)
unfolding check_codec
check_codec-keeps failing f e db = elim (Bool-cases (codec_equal e.codec f.codec)) [
  | inl c ↦ rw c (λ _. sym (codec_equal-ok e.codec f.codec c))
  | inr c ↦ rw c (
      Returns-bind _ (calls failing count_segments) _ λ _ _.
        elim (Bool-cases (exists (in_flow f.id) db.segments)) [
          | inl s ↦ rw s tt
          | inr s ↦ rw s (λ h. absurd (cc))
        ])
]

pub ensure_eq : (a b : Bytes) (x : FlowError) → Returns (λ _. a ≡ b) (ensure (bytes_eq a b) x)
ensure_eq a b x = elim (Bool-cases (bytes_eq a b)) [
  | inl e ↦ rw e ((bytes_eq_iff a b).0 e)
  | inr e ↦ rw e tt
]

-- The update of the flow that was found.
changed :
    (now : ℕ) (f : Flow) (x e : FlowEntry) (id : Bytes) (db : Db)
    → find (is_flow f.id) db.flows ≡ some x
    → find (is_flow id) db.flows ≡ some e
    → x.source_id ≡ f.source_id
    → x.format ≡ f.format
    → (exists (in_flow f.id) db.segments ≡ true → f.codec ≡ x.codec)
    → IsKept id e db.segments
        (record db { flows = update (is_flow f.id) (set_entry now f) db.flows })
unfolding set_entry
changed now f x e id db hx he s t c = elim (Bool-cases (bytes_eq f.id id)) [
  | inl same ↦
      let k : f.id ≡ id = (bytes_eq_iff f.id id).0 same in
      let there : find (is_flow id) db.flows ≡ some x = rw k at hx in
      let both : x ≡ e = cc in
      record {
        entry = set_entry now f e;
        found = (rw k (find-update_same (is_flow id) (set_entry now f) db.flows e (λ y p. p) he));
        same_source = refl;
        same_format = refl;
        same_codec = λ h. c (rw k h) ∙ ap (λ z. z.codec) both;
      }
  | inr other ↦ record {
    entry = e;
    found =
        find-update_other (is_flow id) (is_flow f.id) (set_entry now f) db.flows
          (λ y p.
            ground
              (arith, bytes_eq_iff y.core.id f.id, bytes_eq_iff f.id id, bytes_eq_iff y.core.id id))
          (λ y p. p)
        ∙ he;
    same_source = refl;
    same_format = refl;
    same_codec = λ _. refl;
  }
]

change_flow-IsKept :
    (failing : Failing) (now : ℕ) (f : Flow) (x e : FlowEntry) (id : Bytes) (db : Db)
    → find (is_flow f.id) db.flows ≡ some x
    → find (is_flow id) db.flows ≡ some e
    → Returns (IsKept id e db.segments) (change_flow failing now f x db)
unfolding change_flow
change_flow-IsKept failing now f x e id db hx he =
    Returns-bind _ (ensure (bytes_eq x.source_id f.source_id) immutable_field) _ λ u s.
      Returns-bind _ (ensure (bytes_eq x.format f.format) immutable_field) _ λ v t.
        Returns-bind _ (check_codec failing f x db) _ λ w c.
          Returns-bind _ (calls failing update_flow) _ λ _ _.
            changed now f x e id db hx he
              (Returns-ok (λ _. x.source_id ≡ f.source_id) _ u (ensure_eq _ _ immutable_field) s)
              (Returns-ok (λ _. x.format ≡ f.format) _ v (ensure_eq _ _ immutable_field) t)
              (Returns-ok (λ _. exists (in_flow f.id) db.segments ≡ true → f.codec ≡ x.codec) _ w
                (check_codec-keeps failing f x db) c)

create_flow-IsKept :
    (failing : Failing) (now : ℕ) (f : Flow) (e : FlowEntry) (id : Bytes) (db : Db)
    → find (is_flow id) db.flows ≡ some e
    → Returns (IsKept id e db.segments) (create_flow failing now f db)
unfolding create_flow
create_flow-IsKept failing now f e id db he =
    Returns-bind _ (ensure_source failing now f db.sources) _ λ sources _.
      Returns-bind _ (calls failing insert_flow) _ λ _ _. record {
        entry = e;
        found = find-append (is_flow id) db.flows (new_entry now f ∷ []) e he;
        same_source = refl;
        same_format = refl;
        same_codec = λ _. refl;
      }

pub upsert_flow-IsKept :
    (failing : Failing) (now : ℕ) (f : Flow) (e : FlowEntry) (id : Bytes) (db : Db)
    → find (is_flow id) db.flows ≡ some e
    → IsKept id e db.segments (upsert_flow failing now f db).1
unfolding upsert_flow upsert_transaction
upsert_flow-IsKept failing now f e id db he =
    finish-keeps (IsKept id e db.segments) db _ (unchanged id e db db refl he) (
      Returns-bind _ (calls failing begin) _ λ _ _.
        Returns-bind _ (calls failing read_flow) _ λ _ _.
          elim (Option-cases (find (is_flow f.id) db.flows)) [
            | inl n ↦ rw n (
                Returns-bind _ (create_flow failing now f db) _ λ db' d.
                  Returns-bind _ (calls failing commit) _ λ _ _.
                    Returns-ok (IsKept id e db.segments) _ db'
                      (create_flow-IsKept failing now f e id db he) d)
            | inr (x, n) ↦ rw n (
                Returns-bind _ (change_flow failing now f x db) _ λ db' d.
                  Returns-bind _ (calls failing commit) _ λ _ _.
                    Returns-ok (IsKept id e db.segments) _ db'
                      (change_flow-IsKept failing now f x e id db n he) d)
          ])

pub delete_flow-IsKept :
    (failing : Failing) (i : Bytes) (e : FlowEntry) (id : Bytes) (db : Db)
    → bytes_eq i id ≡ false
    → find (is_flow id) db.flows ≡ some e
    → IsKept id e db.segments (delete_flow failing i db).1
unfolding delete_flow delete_transaction drop_flow
delete_flow-IsKept failing i e id db d he =
    finish-keeps (IsKept id e db.segments) db _ (unchanged id e db db refl he) (
      Returns-bind _ (calls failing begin) _ λ _ _.
        Returns-bind _ (calls failing decrement) _ λ _ _.
          Returns-bind _ (calls failing delete) _ λ _ _.
            Returns-bind _ (ensure (exists (is_flow i) db.flows) not_found) _ λ _ _.
              Returns-bind _ (calls failing commit) _ λ _ _. record {
                entry = e;
                found =
                    find-remove_other (is_flow id) (is_flow i) db.flows (λ y p. ground (
                      arith,
                      bytes_eq_iff y.core.id i,
                      bytes_eq_iff i id,
                      bytes_eq_iff y.core.id id,
                    ))
                    ∙ he;
                same_source = refl;
                same_format = refl;
                same_codec = λ _. refl;
              })
