-- ===== src/Tamsctl/Server.antt =====
-- `tamsctl … --all` (cmd/tamsctl/paginate.go) against `ListSegments` of internal/metastore/segments.go.
use open_tams.Prelude.Int.{ℤ}
use open_tams.Prelude.Bytes.{Bytes}
use open_tams.Prelude.Result.{ok, Result}
use open_tams.Prelude.{refl, some, ◌≡◌, Option, ◌≤◌, true, ◌∙◌, [], ℕ, List, map, ap, arith}
use open_tams.Prelude.Sort.{All, All-sort, All-select}
use open_tams.Prelude.Bytes.{Bytes, length}
use open_tams.Segments.Consistent.{IsConsistent}
use open_tams.Segments.Listing.{
  Codec, IsCodec, ListQuery, Item, wanted_bounds, list_segments, check_exists, scan_all, precedes,
  matches,
}
use open_tams.Segments.Pages.{page_at, at_token, no_faults}
use open_tams.Segments.Paging.{matching, precedes-IsStrictOrder}
use open_tams.Segments.Scanned.{length-scan_all}
use open_tams.Segments.{Store, FlowRow, find_flow, StoreError}
use open_tams.Tamsctl.AllPages.{run_list-pages}
use open_tams.Tamsctl.Cursors.{respond, IsJson, IsBigint, HasRoom}
use open_tams.Tamsctl.{Json, run_list, Page}
use open_tams.Conversion.Readable.{CanScan, Readable, scan_all-Readable}

-- Each token is answered with a page of the listing.
pub segment_server :
    Json → (Item → Bytes) → Codec → ListQuery → Store → Bytes → Result StoreError Page
segment_server json raw c q s token =
    respond json raw (list_segments c no_faults (at_token q token) s)

module _ (c : Codec) (json : Json) (raw : Item → Bytes) (q : ListQuery) (s : Store) (f : FlowRow)
    (bounds : Option ℤ × Option ℤ) (found : find_flow q.flow_id s.flows ≡ some f)
    (wanted : wanted_bounds q.timerange ≡ ok (some bounds)) where
  list_segments-page_at :
      (token : Bytes)
      → list_segments c no_faults (at_token q token) s ≡ page_at c q bounds s.segments token
  unfolding list_segments check_exists
  list_segments-page_at token = rw (found, wanted) refl

  segment_server-eq :
      segment_server json raw c q s
      ≡ (λ token. respond json raw (page_at c q bounds s.segments token))
  unfolding segment_server
  segment_server-eq i token = respond json raw (list_segments-page_at token i)

  module _ (readable : Readable s.segments) where
    matching-Readable : Readable (matching q bounds s.segments)
    unfolding matching
    matching-Readable =
        All-sort (precedes q.reverse_order) (precedes-IsStrictOrder q.reverse_order) CanScan _
          (All-select CanScan (matches q.flow_id q.object_id bounds) s.segments readable)

  -- On a consistent store whose rows can be read, tamsctl with --all gives one page without a
  -- cursor: the matching segments of a flow that is there, all of them, each once and in the order
  -- of the listing, however many pages the server cuts them into. This holds without a cap, and
  -- with one of at least one page more than there are segments, for a loop on as much fuel as there
  -- are segments; the columns of the matching rows are BIGINTs.
  pub run_list-every :
      (max_pages : ℤ) (fuel : ℕ)
      → IsCodec c
      → IsJson json
      → IsConsistent s
      → Readable s.segments
      → All IsBigint (matching q bounds s.segments)
      → length (matching q bounds s.segments) ≤ fuel
      → HasRoom max_pages 1 (length (matching q bounds s.segments))
      → (items : List Item) × (scan_all (matching q bounds s.segments) ≡ ok items)
        × (run_list json (segment_server json raw c q s) true [] max_pages fuel
            ≡ some (ok (record { items = json.marshal (map raw items); next_token = [] })))
  run_list-every max_pages fuel ic j k readable fits enough room =
      let (items, e) =
        scan_all-Readable (matching q bounds s.segments) (matching-Readable readable) in
      let same = length-scan_all (matching q bounds s.segments) items e in
      (
        items,
        e,
        ap (λ fetch. run_list json fetch true [] max_pages fuel) segment_server-eq
            ∙ run_list-pages c q bounds s.segments json raw max_pages ic j k.disjoint k.nonempty
                fits fuel items e (omega (arith, same)) (rw same room),
      )
