-- ===== src/Segments/Deletion.antt =====
-- What a deletion does to the tables when it succeeds.
use open_tams.Segments.Refresh.{IsRefreshed, refresh-IsRefreshed}
use open_tams.Segments.Taken.{Thinned, remaining-Thinned}
use open_tams.Timerange.{TimeRange, is_empty}
use open_tams.Timerange.Nanos.{NsBounds, NsError, ns_bounds}
use open_tams.Prelude.Bytes.{Bytes, length, bytes_eq}
use open_tams.Segments.Write.{
  refresh_flow_timerange, group_counts, delete_covered, total_deleted, delete_segments,
  delete_transaction, remaining, is_covered, add_to_group, deleted, decrement_all,
}
use open_tams.Prelude.Result.{err, ok, Returns, Result, Returns-bind, Returns-ok, Returns-map}
use open_tams.Segments.{
  lock_writable_flow, Faults, Store, SegmentRow, call, begin, commit, of_ns, delete,
}
use open_tams.Segments.Insert.{lower_param, upper_param}
use open_tams.Prelude.{
  [], inl, inr, refl, true, ℕ, ◌∙◌, ◌∷◌, ◌≡◌, List, Option, Bool-cases, ap, ◌⊎◌, suc, arith,
}
use open_tams.Segments.Effects.{IsWritable, lock-IsWritable, finish-ok}

-- What a deletion that reaches the rows does.
pub record IsDeleted (now : ℕ) (flow_id : Bytes) (b : NsBounds) (object : Option Bytes) (count : ℕ)
    (s s' : Store) : Type 0 where
  pub writable : IsWritable flow_id s.flows
  pub kept :
      s'.segments ≡ remaining (is_covered flow_id (lower_param b) (upper_param b) object) s.segments
  pub counted :
      count
      ≡ length (deleted (is_covered flow_id (lower_param b) (upper_param b) object) s.segments)
  pub thinned : Thinned flow_id b object s.segments s'.segments count
  pub refreshed : IsRefreshed now flow_id s'.segments s.flows s'.flows

total-add_to_group :
    (object : Bytes) (gs : List (Bytes × ℕ))
    → total_deleted (add_to_group object gs) ≡ suc (total_deleted gs)
unfolding total_deleted add_to_group
total-add_to_group object [] = omega arith
total-add_to_group object (g ∷ gs) = elim (Bool-cases (bytes_eq g.0 object)) [
  | inl e ↦ rw e (omega arith)
  | inr e ↦ rw e (omega (arith, total-add_to_group object gs))
]

-- The sum of the counts of all objects is the number of rows that went.
total-group_counts : (rows : List SegmentRow) → total_deleted (group_counts rows) ≡ length rows
unfolding group_counts
total-group_counts [] = unfold total_deleted in refl
total-group_counts (r ∷ rs) =
    total-add_to_group r.segment_object (group_counts rs) ∙ ap suc (total-group_counts rs)

-- The deletion of nothing, for an empty range, and the deletion within bounds.
abbrev pub Deletion : ℕ → Bytes → TimeRange → Option Bytes → Store → ℕ → Store → Type 0
Deletion now flow_id range object s count s' =
    ((is_empty range ≡ true) × (count ≡ 0) × (s' ≡ s))
    ⊎ ((b : NsBounds) × (ns_bounds range ≡ ok b) × IsDeleted now flow_id b object count s s')

of_ns-ok : (r : Result NsError NsBounds) (b : NsBounds) → of_ns r ≡ ok b → r ≡ ok b
unfolding of_ns
of_ns-ok (ok a) b e = ground arith
of_ns-ok (err x) b e = absurd (cc)

delete_covered-IsDeleted :
    (faults : Faults) (now : ℕ) (flow_id : Bytes) (object : Option Bytes) (b : NsBounds) (s : Store)
    → IsWritable flow_id s.flows
    → Returns
        (λ p. IsDeleted now flow_id b object p.0 s p.1)
        (delete_covered faults now flow_id object b s)
unfolding delete_covered
delete_covered-IsDeleted faults now flow_id object b s w =
    let taken = is_covered flow_id (lower_param b) (upper_param b) object in
    Returns-bind _ (call faults delete) _ λ _ _.
      Returns-bind _ (decrement_all faults 0 (group_counts (deleted taken s.segments)) s.objects) _
        λ objects _.
          Returns-bind _
            (refresh_flow_timerange faults now flow_id (remaining taken s.segments) s.flows) _
            λ flows ef. Returns-bind _ (call faults commit) _ λ _ _. record {
              writable = w;
              kept = refl;
              counted = total-group_counts (deleted taken s.segments);
              thinned =
                  rw (total-group_counts (deleted taken s.segments))
                    (remaining-Thinned flow_id b object s.segments);
              refreshed =
                  Returns-ok (IsRefreshed now flow_id (remaining taken s.segments) s.flows) _ flows
                    (refresh-IsRefreshed faults now flow_id (remaining taken s.segments) s.flows)
                    ef;
            }

delete_transaction-Deletion :
    (faults : Faults) (now : ℕ) (flow_id : Bytes) (range : TimeRange) (object : Option Bytes)
    (s : Store)
    → Returns
        (λ p. IsWritable flow_id s.flows × Deletion now flow_id range object s p.0 p.1)
        (delete_transaction faults now flow_id range object s)
unfolding delete_transaction
delete_transaction-Deletion faults now flow_id range object s =
    Returns-bind _ (call faults begin) _ λ _ _.
      Returns-bind _ (lock_writable_flow faults flow_id s) _ λ v el.
        let w =
          Returns-ok (λ _. IsWritable flow_id s.flows) _ v (lock-IsWritable faults flow_id s) el in
        elim (Bool-cases (is_empty range)) [
          | inl e ↦ rw e (w, inl (refl, refl, refl))
          | inr e ↦ rw e (
              Returns-bind _ (of_ns (ns_bounds range)) _ λ b eb.
                Returns-map (λ p. IsDeleted now flow_id b object p.0 s p.1) _
                  (delete_covered faults now flow_id object b s)
                  (λ p h. (w, inr (b, of_ns-ok (ns_bounds range) b eb, h)))
                  (delete_covered-IsDeleted faults now flow_id object b s w))
        ]

-- A call of DeleteSegmentsByTimerange that succeeds has found the flow writable. For an empty range
-- it has changed nothing and returns 0. For any other, whose bounds NsBounds gives, it has taken every
-- row of the flow that starts and ends within the bounds, and refers to the object where one is named,
-- it has left every other row as it was and where it was, and it returns how many it took. Of the
-- flows, the one with the id gets the time of the call as its segments_updated and a new time range, and
-- nothing else changes: the range is absent where no row of the flow is left, and else the text of the
-- range from the start of a row before which none of those left starts to the end of a row behind
-- whose start none of them starts, as the texts of the two rows are parsed.
pub delete_segments-Deletion :
    (faults : Faults) (now : ℕ) (flow_id : Bytes) (range : TimeRange) (object : Option Bytes)
    (s : Store) (count : ℕ)
    → (delete_segments faults now flow_id range object s).0 ≡ ok count
    → IsWritable flow_id s.flows
      × Deletion now flow_id range object s count
          (delete_segments faults now flow_id range object s).1
unfolding delete_segments
delete_segments-Deletion faults now flow_id range object s count =
    finish-ok (λ n s'. IsWritable flow_id s.flows × Deletion now flow_id range object s n s') s _
      count (delete_transaction-Deletion faults now flow_id range object s)
