-- ===== src/Tamsctl/Examples.antt =====
-- A concrete encoding of arrays and cursors, and the theorems on `--all` applied to a store.
use open_tams.Conversion.Faithful.{scan_row-new_row}
use open_tams.Prelude.Sort.{All, sort, select}
use open_tams.Prelude.Result.{Result, ok}
use open_tams.Segments.{find_flow, StoreError}
use open_tams.Conversion.Readable.{Readable}
use open_tams.Segments.Insert.{new_row}
use open_tams.Segments.Paging.{matching}
use open_tams.Prelude.Bytes.{Bytes, is_nil, bytes_eq, codes}
use open_tams.Prelude.Int.{negsuc, pos, ℤ}
use open_tams.Segments.Listing.{
  Codec, IsCodec, Item, ListQuery, wanted_bounds, scan_all, precedes, matches, overlap_cond,
}
use open_tams.Tamsctl.Cursors.{IsJson, IsBigint}
use open_tams.Prelude.{
  List, [], false, none, refl, some, suc, zero, ℕ, ◌∷◌, ◌≡◌, Option, inr, true, arith, map,
}
use open_tams.Segments.Samples.{
  two_segments, two_segments-IsConsistent, seg1, seg2, f1, reads_text1, flow, reads_text2,
}
use open_tams.Tamsctl.{Json, collect, collect-ends, ListError, Page, run_list}
use open_tams.Tamsctl.Server.{run_list-every, segment_server}

-- Every byte of an element is moved by two: 1 ends an element and 0 the array.
moved : Bytes → Bytes → Bytes
moved [] tail = 1 ∷ tail
moved (b ∷ s) tail = suc (suc b) ∷ moved s tail

join_array : List Bytes → Bytes
unfolding moved
join_array [] = 0 ∷ []
join_array (x ∷ xs) = moved x (join_array xs)

push : ℕ → Option (List Bytes) → Option (List Bytes)
push b (some (x ∷ xs)) = some ((b ∷ x) ∷ xs)
push b _ = none

split_array : Bytes → Option (List Bytes)
unfolding push
split_array [] = none
split_array (zero ∷ s) = some []
split_array (suc zero ∷ s) = elim (split_array s) [ none ↦ none | some xs ↦ some ([] ∷ xs) ]
split_array (suc (suc b) ∷ s) = push b (split_array s)

abbrev json : Json
json = record { marshal = join_array; unmarshal = split_array }

split-moved :
    (x tail : Bytes) (xs : List Bytes)
    → split_array tail ≡ some xs
    → split_array (moved x tail) ≡ some (x ∷ xs)
unfolding split_array moved
split-moved [] tail xs h = rw h refl
split-moved (b ∷ s) tail xs h = rw (split-moved s tail xs h) refl

split-join_array : (xs : List Bytes) → split_array (join_array xs) ≡ some xs
unfolding join_array
split-join_array [] = unfold split_array in refl
split-join_array (x ∷ xs) = split-moved x (join_array xs) xs (split-join_array xs)

moved-nonempty : (x tail : Bytes) → is_nil (moved x tail) ≡ false
unfolding moved
moved-nonempty [] tail = refl
moved-nonempty (b ∷ x) tail = refl

join_array-nonempty : (xs : List Bytes) → is_nil (join_array xs) ≡ false
unfolding join_array
join_array-nonempty [] = refl
join_array-nonempty (x ∷ xs) = moved-nonempty x (join_array xs)

json-IsJson : IsJson json
json-IsJson = record {
  unmarshal-marshal = split-join_array;
  marshal-nonempty = join_array-nonempty;
}

-- A sign and an absolute value for each of the two numbers.
of_sign : ℕ → ℕ → ℤ
of_sign zero n = pos n
of_sign (suc s) n = negsuc n

sign : ℤ → ℕ
sign (pos n) = 0
sign (negsuc n) = 1

size : ℤ → ℕ
size (pos n) = n
size (negsuc n) = n

pair_of : Bytes → Option (ℤ × ℤ)
unfolding of_sign
pair_of (s ∷ (n ∷ (t ∷ (m ∷ [])))) = some (of_sign s n, of_sign t m)
pair_of _ = none

text_of_pair : ℤ → ℤ → Bytes
text_of_pair a b = sign a ∷ (size a ∷ (sign b ∷ (size b ∷ [])))

drop_first : Bytes → Option Bytes
drop_first [] = none
drop_first (b ∷ s) = some s

abbrev codec : Codec
codec = record {
  marshal = text_of_pair;
  unmarshal = pair_of;
  encode_to_string = λ s. 7 ∷ s;
  decode_string = drop_first;
}

pair-text : (a b : ℤ) → pair_of (text_of_pair a b) ≡ some (a, b)
unfolding pair_of text_of_pair sign size of_sign
pair-text (pos a) (pos b) = refl
pair-text (pos a) (negsuc b) = refl
pair-text (negsuc a) (pos b) = refl
pair-text (negsuc a) (negsuc b) = refl

codec-IsCodec : IsCodec codec
unfolding drop_first text_of_pair
codec-IsCodec = record {
  unmarshal-marshal = λ a b _ _. pair-text a b;
  decode-encode = λ s. refl;
  marshal-nonempty = λ a b. refl;
  encode-nonempty = λ s _. refl;
}

-- Pages of one segment.
abbrev one_at_a_time : ListQuery
one_at_a_time = record {
  flow_id = f1;
  timerange = none;
  object_id = none;
  reverse_order = false;
  page = [];
  limit = pos 1;
}

raw : Item → Bytes
raw item = item.seg.timerange_raw

flow_found :
    find_flow f1 two_segments.flows
    ≡ some (record flow { flow_timerange = some (codes "[0:0_2:0)"); segments_updated = some 7 })
unfolding find_flow bytes_eq
flow_found = refl

texts_read : Readable two_segments.segments
texts_read = (
  (
    _,
    scan_row-new_row 0 f1 7 seg1 (pos 0) (pos 1_000_000_000) (record {
      timerange = reads_text1;
      ts_offset = refl;
      object_timerange = refl;
      last_duration = refl;
    }),
  ),
  (
    (
      _,
      scan_row-new_row 1 f1 7 seg2 (pos 1_000_000_000) (pos 2_000_000_000) (record {
        timerange = reads_text2;
        ts_offset = refl;
        object_timerange = refl;
        last_duration = refl;
      }),
    ),
    tt,
  ),
)

both_match : matching one_at_a_time (none, none) two_segments.segments ≡ two_segments.segments
unfolding matching sort select precedes matches bytes_eq new_row overlap_cond
both_match = refl

both_fit : All IsBigint two_segments.segments
unfolding new_row
both_fit = (
  ((omega arith, omega arith), (omega arith, omega arith)),
  (((omega arith, omega arith), (omega arith, omega arith)), tt),
)

-- Two pages, under a cap of three.
run_list-every_example :
    (items : List Item) × (scan_all (matching one_at_a_time (none, none) two_segments.segments)
      ≡ ok items)
    × (run_list json (segment_server json raw codec one_at_a_time two_segments) true [] (pos 3) 2
        ≡ some (ok (record { items = json.marshal (map raw items); next_token = [] })))
unfolding wanted_bounds
run_list-every_example =
    run_list-every codec json raw one_at_a_time two_segments _ (none, none) flow_found refl (pos 3)
      2 codec-IsCodec json-IsJson two_segments-IsConsistent texts_read (rw both_match both_fit)
      (rw both_match (omega arith)) (rw both_match (inr (omega arith)))

-- A server that never sends a last page.
endless : Bytes → Result StoreError Page
endless token = ok (record { items = []; next_token = 1 ∷ token })

collect-ends_example :
    (r : Result (ListError StoreError) (List Bytes)) × (collect json endless
        (pos 3)
        4
        (record { all = []; pages = 1; prev_token = []; token = 1 ∷ [] })
      ≡ some r)
collect-ends_example =
    collect-ends json endless 3 4 (record { all = []; pages = 1; prev_token = []; token = 1 ∷ [] })
      (omega arith) (omega arith) (omega arith)
