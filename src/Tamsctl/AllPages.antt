-- ===== src/Tamsctl/AllPages.antt =====
-- The loop of cmd/tamsctl/paginate.go against the pages of `ListSegments`.
use open_tams.Tamsctl.Cursors.{
  HasRoom, HasRoom-less, HasRoom-next, HasRoom-uncapped, IsBigint, IsJson, bytes_eq-nil,
  decode_items-marshal, decode_page-encode, encode_seg_cursor-advances, encode_seg_cursor-nonempty,
  map-take-drop, regroup, respond, split_rest,
}
use mathlib.Core.Path.{subst}
use open_tams.Segments.Pages.{page_at, next_part, page_size, clamp_limit-pos}
use open_tams.Segments.Paging.{
  matching, matching-Strict, behind_row, behind-none, precedes-IsStrictOrder,
}
use open_tams.Segments.Scanned.{scan_all-drop}
use open_tams.Prelude.Sort.{All, take, drop, All-at, Strict-suffix, length-drop}
use open_tams.Segments.Consistent.{Disjoint, Nonempty}
use open_tams.Prelude.Bytes.{Bytes, bytes_eq, is_nil, length}
use open_tams.Segments.{SegmentRow, StoreError}
use open_tams.Prelude.Result.{ok, Result}
use open_tams.Segments.Listing
use open_tams.Segments.Listing.{
  Codec, decode_page, encode_seg_cursor, precedes, Item, decode_seg_cursor, IsCodec, ListQuery,
  scan_all, page_of,
}
use open_tams.Prelude.Int.{pos, ℤ}
use open_tams.Tamsctl.{
  Json, Progress, Page, collect, next_page-ok, collect_done, run_list, run_list-ok,
}
use open_tams.Prelude.{
  false, inl, inr, some, suc, true, zero, ◌++◌, ◌<◌, ◌∙◌, ◌∷◌, ◌≡◌, ◌≤◌, List, ℕ, arith, Option, ap,
  map, [], refl, none,
}

module _ (c : Codec) (q : ListQuery) (bounds : Option ℤ × Option ℤ) (rows : List SegmentRow)
    (json : Json) (raw : Item → Bytes) (max_pages : ℤ) (ic : IsCodec c) (j : IsJson json)
    (d : Disjoint rows) (n : Nonempty rows) (fits : All IsBigint (matching q bounds rows)) where
  abbrev pub server : Bytes → Result StoreError Page
  server token = respond json raw (page_at c q bounds rows token)

  server-ok :
      (token : Bytes) (page : Listing.Page)
      → page_at c q bounds rows token ≡ ok page
      → server token
        ≡ ok (record { items = json.marshal (map raw page.items); next_token = page.next_cursor })
  unfolding respond
  server-ok token page e = rw e

  cursor_of : SegmentRow → Bytes
  cursor_of r = encode_seg_cursor c r.lower_ns (pos r.id)

  -- The loop from a cursor on.
  collect-rest :
      (fuel : ℕ) (xs : List SegmentRow) (r : SegmentRow) (rest : List SegmentRow)
      (items : List Item) (s : Progress)
      → matching q bounds rows ≡ xs ++ r ∷ rest
      → s.token ≡ cursor_of r
      → bytes_eq s.token s.prev_token ≡ false
      → scan_all rest ≡ ok items
      → 0 < length items
      → length items ≤ fuel
      → HasRoom max_pages s.pages (length items)
      → collect json server max_pages fuel s ≡ some (ok (s.all ++ map raw items))
  unfolding cursor_of collect page_of
  collect-rest zero xs r rest items s m t a e h f room = absurd (omega arith)
  collect-rest (suc fuel) xs r rest items s m t a e h f room =
      let strict = rw m at (matching-Strict q bounds rows d n) in
      let fit = rw m at fits in
      let behind =
        behind_row q.reverse_order xs r rest (matching q bounds rows)
          (matching-Strict q bounds rows d n) m in
      let uncapped = HasRoom-uncapped max_pages s.pages (length items) h room in
      let filled : is_nil s.token ≡ false =
        rw t (encode_seg_cursor-nonempty c r.lower_ns (pos r.id) ic) in
      elim (next_part c q bounds rows s.token (some (r.lower_ns, pos r.id)) rest items d n
        (rw t (decode_page-encode c r ic (All-at IsBigint xs r rest fit))) behind e) [
          | inl (short, p) ↦
              rw
                (
                  filled,
                  next_page-ok json server max_pages s _ (map raw items) a uncapped
                      (server-ok s.token _ p) (decode_items-marshal json (map raw items) j),
                )
                (collect_done json server max_pages fuel _ refl)
          | inr (zs, u, long, w, p) ↦
              let grouped = regroup (page_size q) (matching q bounds rows) xs r rest zs u m w in
              let fit' =
                All-at IsBigint (xs ++ r ∷ zs) u (drop (page_size q) rest) (rw grouped at fits) in
              let later =
                All-at (λ y. precedes q.reverse_order r y ≡ true) zs u (drop (page_size q) rest)
                  (subst (All (λ y. precedes q.reverse_order r y ≡ true))
                    (split_rest (page_size q) rest zs u w)
                    (Strict-suffix (precedes q.reverse_order)
                      (precedes-IsStrictOrder q.reverse_order) xs (r ∷ rest) strict).0) in
              let taken = length-drop (page_size q) items in
              let full = (clamp_limit-pos q.limit).0 in
              rw
                (
                  filled,
                  next_page-ok json server max_pages s _ (map raw (take (page_size q) items)) a
                      uncapped (server-ok s.token _ p)
                      (decode_items-marshal json (map raw (take (page_size q) items)) j),
                )
                (collect-rest fuel (xs ++ r ∷ zs) u (drop (page_size q) rest)
                    (drop (page_size q) items) _ grouped refl
                    (rw t (
                      encode_seg_cursor-advances c q.reverse_order r u ic
                        (All-at IsBigint xs r rest fit) fit' later))
                    (scan_all-drop (page_size q) rest items e) (omega arith) (omega arith)
                    (rw taken
                      (HasRoom-next max_pages s.pages (length items) (page_size q) full long room))
                  ∙ ap (λ l. some (ok l)) (map-take-drop raw (page_size q) items s.all))
        ]

  -- The same from the first page on.
  pub run_list-pages :
      (fuel : ℕ) (items : List Item)
      → scan_all (matching q bounds rows) ≡ ok items
      → length items ≤ fuel
      → HasRoom max_pages 1 (length items)
      → run_list json server true [] max_pages fuel
        ≡ some (ok (record { items = json.marshal (map raw items); next_token = [] }))
  unfolding page_of cursor_of
  run_list-pages fuel items e f room =
      elim (next_part c q bounds rows [] none (matching q bounds rows) items d n
        (unfold decode_page in refl) (behind-none q bounds rows) e) [
          | inl (short, p) ↦
              run_list-ok json server [] max_pages fuel _ (map raw items) (map raw items)
                (server-ok [] _ p) (decode_items-marshal json (map raw items) j)
                (collect_done json server max_pages fuel _ refl)
          | inr (zs, u, long, w, p) ↦
              let grouped = split_rest (page_size q) (matching q bounds rows) zs u w in
              let first = map raw (take (page_size q) items) in
              run_list-ok json server [] max_pages fuel _ first (map raw items) (server-ok [] _ p)
                (decode_items-marshal json first j)
                (collect-rest fuel zs u (drop (page_size q) (matching q bounds rows))
                    (drop (page_size q) items) _ grouped refl
                    (bytes_eq-nil _ (encode_seg_cursor-nonempty c u.lower_ns (pos u.id) ic))
                    (scan_all-drop (page_size q) (matching q bounds rows) items e)
                    (omega (arith, length-drop (page_size q) items))
                    (omega (arith, length-drop (page_size q) items))
                    (rw (length-drop (page_size q) items)
                      (HasRoom-less max_pages 1 (length items) (page_size q) room))
                  ∙ ap (λ l. some (ok l)) (map-take-drop raw (page_size q) items []))
        ]
