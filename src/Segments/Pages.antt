-- ===== src/Segments/Pages.antt =====
-- One call of `ListSegments`, from the rows behind its cursor to the page.
use native.Mathlib.Decide.{dec_lt}
use native.Mathlib.Numerals.{add-one}
use open_tams.Segments.Paging.{matching, query_rows-eq}
use open_tams.Segments.Scanned.{scan_all-take, length-scan_all, last?-scan_all}
use open_tams.Prelude.Sort.{
  last?, take, take_all, select, take-take-suc, last?-cases, length-take-suc,
}
use open_tams.Segments.Consistent.{Disjoint, Nonempty}
use open_tams.Prelude.Bytes.{Bytes, length}
use open_tams.Segments.Listing.{
  Codec, ListQuery, clamp_limit, read_page, make_page, Item, Page, decode_page, page_of, scan_all,
  encode_seg_cursor, is_behind, hard_limit,
}
use open_tams.Segments.{Faults, SegmentRow, StoreError}
use open_tams.Prelude.Result.{ok, Result}
use open_tams.Prelude.Int.{negsuc, pos, ℤ}
use open_tams.Prelude.{
  [], false, refl, some, ◌+◌, ◌<◌, ◌≡◌, ◌≤◌, Option, List, ℕ, arith, inl, ◌∷◌, ◌++◌, zero, ◌⊎◌, suc,
  ◌∙◌, inr, ap,
}

pub clamp_limit-pos : (l : ℤ) → (0 < clamp_limit l) × (clamp_limit l ≤ hard_limit)
unfolding clamp_limit
clamp_limit-pos (pos n) = ground arith
clamp_limit-pos (negsuc n) = ground arith

-- A beginning that is not empty has a last row.
last?-of_pos :
    (n : ℕ) (rest : List SegmentRow)
    → 0 < n
    → 0 < length rest
    → (zs : List SegmentRow) × (r : SegmentRow) × (take n rest ≡ zs ++ r ∷ [])
      × (last? (take n rest) ≡ some r)
last?-of_pos zero rest h k = absurd (omega arith)
last?-of_pos (suc n) [] h k = absurd (omega arith)
last?-of_pos (suc n) (x ∷ rest) h k = last?-cases x (take n rest)

abbrev pub no_faults : Faults
no_faults step = false

-- The call for one token.
abbrev pub at_token : ListQuery → Bytes → ListQuery
at_token q token = record q { page = token }

-- The rows of a full page.
abbrev pub page_size : ListQuery → ℕ
page_size q = clamp_limit q.limit

module _ (c : Codec) (q : ListQuery) (bounds : Option ℤ × Option ℤ) (rows : List SegmentRow) where
  abbrev pub page_at : Bytes → Result StoreError Page
  page_at token = read_page c no_faults (at_token q token) bounds rows

  read_page-eq :
      (token : Bytes) (cursor : Option (ℤ × ℤ)) (items : List Item)
      → Disjoint rows
      → Nonempty rows
      → decode_page c token ≡ ok cursor
      → scan_all (select (is_behind q.reverse_order cursor) (matching q bounds rows)) ≡ ok items
      → page_at token ≡ make_page c (page_size q) (take ((page_size q) + 1) items)
  unfolding read_page
  read_page-eq token cursor items d n e s =
      rw
        (
          e,
          query_rows-eq q bounds cursor ((page_size q) + 1) rows d n,
          scan_all-take ((page_size q) + 1) _ items s,
        )
        refl

  -- A short rest is the last page; of a longer one the page is a beginning, with a cursor at its end.
  make_page-last :
      (items : List Item)
      → length items ≤ page_size q
      → make_page c (page_size q) (take (page_size q + 1) items)
        ≡ ok (page_of (page_size q) [] items)
  unfolding make_page
  make_page-last items h = rw (take_all (page_size q + 1) items (omega arith)) (ground arith)

  make_page-long :
      (n : ℕ) (items : List Item) (i : Item)
      → n < length items
      → last? (take n items) ≡ some i
      → make_page c n items
        ≡ ok (page_of n (encode_seg_cursor c i.lower_ns (pos i.seg_id)) (take n items))
  unfolding make_page
  make_page-long n items i h l = rw l (ground arith)

  make_page-more :
      (items : List Item) (i : Item)
      → page_size q < length items
      → last? (take (page_size q) items) ≡ some i
      → make_page c (page_size q) (take (page_size q + 1) items)
        ≡ ok (
            page_of
              (page_size q)
              (encode_seg_cursor c i.lower_ns (pos i.seg_id))
              (take (page_size q) items))
  make_page-more items i h l =
      let same = take-take-suc (page_size q) items in
      let long = length-take-suc (page_size q) items h in
      rw add-one (
        make_page-long (page_size q) (take (suc (page_size q)) items) i (omega arith)
          (ap last? same ∙ l)
        ∙ ap (λ is. ok (page_of (page_size q) (encode_seg_cursor c i.lower_ns (pos i.seg_id)) is))
            same)

  -- The page at a cursor, where `rest` stands behind it.
  pub next_part :
      (token : Bytes) (cursor : Option (ℤ × ℤ)) (rest : List SegmentRow) (items : List Item)
      → Disjoint rows
      → Nonempty rows
      → decode_page c token ≡ ok cursor
      → select (is_behind q.reverse_order cursor) (matching q bounds rows) ≡ rest
      → scan_all rest ≡ ok items
      → ((length items ≤ page_size q) × (page_at token ≡ ok (page_of (page_size q) [] items)))
        ⊎ ((zs : List SegmentRow) × (r : SegmentRow) × (page_size q < length items)
            × (take (page_size q) rest ≡ zs ++ r ∷ [])
            × (page_at token
                ≡ ok (
                    page_of
                      (page_size q)
                      (encode_seg_cursor c r.lower_ns (pos r.id))
                      (take (page_size q) items))))
  next_part token cursor rest items d n e b s =
      let p = read_page-eq token cursor items d n e (rw b s) in
      elim (dec_lt (page_size q) (length items)) [
        | no h ↦ inl (omega arith, p ∙ make_page-last items (omega arith))
        | yes h ↦ inr (longer p h)
      ]
    where
      longer :
          page_at token ≡ make_page c (page_size q) (take (page_size q + 1) items)
          → page_size q < length items
          → (zs : List SegmentRow) × (r : SegmentRow) × (page_size q < length items)
            × (take (page_size q) rest ≡ zs ++ r ∷ [])
            × (page_at token
                ≡ ok (
                    page_of
                      (page_size q)
                      (encode_seg_cursor c r.lower_ns (pos r.id))
                      (take (page_size q) items)))
      longer p h =
          let (zs, r, w, l) =
            last?-of_pos (page_size q) rest (clamp_limit-pos q.limit).0
              (rw (← length-scan_all rest items s) (omega arith)) in
          let (i, m, k) =
            last?-scan_all (take (page_size q) rest) (take (page_size q) items) r
              (scan_all-take (page_size q) rest items s) l in
          (zs, r, h, w, rw (← k.lower, ← k.id) (p ∙ make_page-more items i h m))
