-- ===== src/Tamsctl/Cursors.antt =====
-- What the loop of `--all` relies on: the decoding of arrays, the cursors of pages, and the cap.
use mathlib.Core.List.{append_assoc, map-append}
use open_tams.Prelude.Sort.{take, drop, take-drop}
use open_tams.Prelude.Bytes.{Bytes, bytes_eq, is_nil, bytes_eq_iff}
use open_tams.Segments.{SegmentRow, StoreError}
use open_tams.Prelude.Result.{err, ok, Result}
use open_tams.Segments.Listing
use open_tams.Segments.Listing.{
  Codec, decode_page, encode_seg_cursor, precedes, Item, decode_seg_cursor, IsCodec, ListQuery,
  scan_all, page_of,
}
use open_tams.Prelude.Int.{negsuc, pos, ℤ, ◌≤ℤ◌, FitsInt64}
use open_tams.Tamsctl.{Json, decode_items, is_capped, Page}
use open_tams.Prelude.{
  false, inl, inr, some, true, ◌++◌, ◌+◌, ◌<◌, ◌∙◌, ◌∷◌, ◌≡◌, ◌⊎◌, List, ℕ, Bool, arith, Bool-cases,
  ap, sym, map, [], refl, ◌-◌,
}

-- What `encoding/json` documents: decoding an encoded array gives its elements, and an encoded array
-- is not an empty text.
pub record IsJson (json : Json) : Type 0 where
  pub unmarshal-marshal : (xs : List Bytes) → json.unmarshal (json.marshal xs) ≡ some xs
  pub marshal-nonempty : (xs : List Bytes) → is_nil (json.marshal xs) ≡ false

-- The columns of a cursor are BIGINTs.
abbrev pub IsBigint : SegmentRow → Type 0
IsBigint r = FitsInt64 r.lower_ns × FitsInt64 (pos r.id)

-- A server that answers a token with the page of the store, each item encoded by `raw`.
unfoldable pub respond :
    Json → (Item → Bytes) → Result StoreError Listing.Page → Result StoreError Page
respond json raw (err e) = err e
respond json raw (ok page) =
    ok (record { items = json.marshal (map raw page.items); next_token = page.next_cursor })

-- No cap, or one that leaves room for the items that are still to come.
abbrev pub HasRoom : ℤ → ℕ → ℕ → Type 0
HasRoom max_pages pages n = (max_pages ≤ℤ pos 0) ⊎ (pos (pages + n) ≤ℤ max_pages)

pub HasRoom-uncapped :
    (max_pages : ℤ) (pages n : ℕ)
    → 0 < n
    → HasRoom max_pages pages n
    → is_capped max_pages pages ≡ false
unfolding is_capped
HasRoom-uncapped (pos m) pages n h (inl r) = ground arith
HasRoom-uncapped (pos m) pages n h (inr r) = ground arith
HasRoom-uncapped (negsuc m) pages n h r = ground arith

pub HasRoom-less :
    (max_pages : ℤ) (pages n k : ℕ) → HasRoom max_pages pages n → HasRoom max_pages pages (n - k)
HasRoom-less max_pages pages n k (inl r) = inl r
HasRoom-less max_pages pages n k (inr r) = inr (omega arith)

pub bytes_eq-nil : (s : Bytes) → is_nil s ≡ false → bytes_eq s [] ≡ false
bytes_eq-nil [] h = absurd (cc)
bytes_eq-nil (x ∷ s) h = unfold bytes_eq in refl

pub HasRoom-next :
    (max_pages : ℤ) (pages n k : ℕ)
    → 0 < k
    → k < n
    → HasRoom max_pages pages n
    → HasRoom max_pages (pages + 1) (n - k)
HasRoom-next max_pages pages n k h l (inl r) = inl r
HasRoom-next max_pages pages n k h l (inr r) = inr (omega arith)

-- The rows up to the end of a page, and those behind it.
pub split_rest :
    (size : ℕ) (rest zs : List SegmentRow) (t : SegmentRow)
    → take size rest ≡ zs ++ t ∷ []
    → rest ≡ zs ++ t ∷ drop size rest
split_rest size rest zs t w =
    sym (take-drop size rest)
    ∙ ap (λ l. l ++ drop size rest) w
    ∙ append_assoc zs (t ∷ []) (drop size rest)

pub regroup :
    (size : ℕ) (all xs : List SegmentRow) (r : SegmentRow) (rest zs : List SegmentRow)
    (t : SegmentRow)
    → all ≡ xs ++ r ∷ rest
    → take size rest ≡ zs ++ t ∷ []
    → all ≡ (xs ++ r ∷ zs) ++ t ∷ drop size rest
regroup size all xs r rest zs t m w =
    m
    ∙ ap (λ l. xs ++ r ∷ l) (split_rest size rest zs t w)
    ∙ sym (append_assoc xs (r ∷ zs) (t ∷ drop size rest))

pub map-take-drop :
    (raw : Item → Bytes) (size : ℕ) (items : List Item) (before : List Bytes)
    → (before ++ map raw (take size items)) ++ map raw (drop size items) ≡ before ++ map raw items
map-take-drop raw size items before =
    append_assoc before _ _
    ∙ ap (λ l. before ++ l)
        (sym (map-append raw (take size items) (drop size items))
          ∙ ap (map raw) (take-drop size items))

pub decode_page-encode :
    (c : Codec) (r : SegmentRow)
    → IsCodec c
    → IsBigint r
    → decode_page c (encode_seg_cursor c r.lower_ns (pos r.id)) ≡ ok (some (r.lower_ns, pos r.id))
unfolding decode_page decode_seg_cursor encode_seg_cursor
decode_page-encode c r ic h = rw (
  ic.encode-nonempty _ (ic.marshal-nonempty r.lower_ns (pos r.id)),
  ic.decode-encode (c.marshal r.lower_ns (pos r.id)),
  ic.unmarshal-marshal r.lower_ns (pos r.id) h.0 h.1,
)

pub encode_seg_cursor-nonempty :
    (c : Codec) (a b : ℤ) → IsCodec c → is_nil (encode_seg_cursor c a b) ≡ false
unfolding encode_seg_cursor
encode_seg_cursor-nonempty c a b ic = ic.encode-nonempty _ (ic.marshal-nonempty a b)

pub decode_items-marshal :
    (json : Json) (xs : List Bytes)
    → IsJson json
    → decode_items {E = StoreError} json (json.marshal xs) ≡ ok xs
unfolding decode_items
decode_items-marshal json xs j = rw (j.marshal-nonempty xs, j.unmarshal-marshal xs)

precedes-irreflexive :
    (reverse : Bool) (r t : SegmentRow)
    → precedes reverse r t ≡ true
    → r.lower_ns ≡ t.lower_ns
    → pos r.id ≡ pos t.id
    → ⊥
unfolding precedes
precedes-irreflexive true r t h e i = ground arith
precedes-irreflexive false r t h e i = ground arith

-- Cursors of different rows differ.
pub encode_seg_cursor-advances :
    (c : Codec) (reverse : Bool) (r t : SegmentRow)
    → IsCodec c
    → IsBigint r
    → IsBigint t
    → precedes reverse r t ≡ true
    → bytes_eq
        (encode_seg_cursor c t.lower_ns (pos t.id))
        (encode_seg_cursor c r.lower_ns (pos r.id))
      ≡ false
encode_seg_cursor-advances c reverse r t ic h k p =
    elim (Bool-cases (
      bytes_eq (encode_seg_cursor c t.lower_ns (pos t.id))
        (encode_seg_cursor c r.lower_ns (pos r.id)))) [
          | inr e ↦ e
          | inl e ↦
              let same = ap (decode_page c) ((bytes_eq_iff _ _).0 e) in
              let keys = sym (decode_page-encode c t ic k) ∙ same ∙ decode_page-encode c r ic h in
              absurd (precedes-irreflexive reverse r t p (cc) (cc))
        ]
