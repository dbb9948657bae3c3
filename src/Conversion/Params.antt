-- ===== src/Conversion/Params.antt =====
-- internal/httpx/conversion/segment_params.go: the query parameters of listing and deleting.
use mathlib.Core.List.{append-nil, append_assoc}
use open_tams.Timerange.{TimeRange}
use open_tams.Timerange.Text.{ParseError, parse}
use open_tams.Conversion.{ConversionError, bad_query_timerange, bad_limit}
use open_tams.Segments.Listing.{clamp_limit}
use open_tams.Prelude.Int.{negsuc, pos, ℤ}
use open_tams.Prelude.{
  List, Option, [], false, if◌then◌else◌, inl, inr, none, refl, some, ℕ, ◌++◌, ◌<◌, ◌==◌, ◌∙◌, ◌∷◌,
  ◌≡◌, ◌≢◌, ◌≤◌, Bool, sym, Bool-cases, arith, ltb, ap,
}
use open_tams.Prelude.Bytes.{Bytes, Lacks}
use open_tams.Prelude.Result.{Result, err, ok, ◌>>=◌}

abbrev pub default_list_limit : ℕ
default_list_limit = 100

abbrev pub max_list_limit : ℕ
max_list_limit = 1000

-- `csvSplit`: `part` is `s[start:i]`, read so far.
split_from : Bytes → Bytes → List Bytes
split_from part [] = part ∷ []
split_from part (c ∷ s) =
    let rest = part ∷ split_from [] s in
    let longer = split_from (part ++ c ∷ []) s in if c == b',' then rest else longer

pub csv_split : Bytes → List Bytes
unfolding split_from
csv_split [] = []
csv_split (c ∷ s) = split_from [] (c ∷ s)

-- The generated parameters of both requests.
pub record GetFlowSegmentsParams : Type 0 where
  pub timerange : Option Bytes
  pub object_id : Option Bytes
  pub reverse_order : Option Bool
  pub verbose_storage : Option Bool
  pub accept_get_urls : Option Bytes
  pub accept_storage_ids : Option Bytes
  pub presigned : Option Bool
  pub include_object_timerange : Option Bool
  pub page : Option Bytes
  pub limit : Option ℤ

-- `domain.ListParams`; a nil slice is an empty list.
pub record ListParams : Type 0 where
  pub timerange : Option TimeRange
  pub object_id : Option Bytes
  pub reverse_order : Bool
  pub verbose_storage : Bool
  pub accept_get_urls : List Bytes
  pub accept_storage_ids : List Bytes
  pub presigned : Option Bool
  pub include_object_timerange : Bool
  pub page : Bytes
  pub limit : ℕ

query_timerange : Result ParseError TimeRange → Result ConversionError (Option TimeRange)
query_timerange (ok tr) = ok (some tr)
query_timerange (err e) = err (bad_query_timerange e)

listed_timerange : Option Bytes → Result ConversionError (Option TimeRange)
unfolding query_timerange
listed_timerange none = ok none
listed_timerange (some text) = query_timerange (parse text)

or_false : Option Bool → Bool
or_false none = false
or_false (some b) = b

split_or_nil : Option Bytes → List Bytes
split_or_nil none = []
split_or_nil (some s) = csv_split s

or_empty : Option Bytes → Bytes
or_empty none = []
or_empty (some s) = s

unfoldable pub list_limit : Option ℤ → Result ConversionError ℕ
list_limit none = ok default_list_limit
list_limit (some (negsuc n)) = err bad_limit
list_limit (some (pos n)) =
    if n == 0 then err bad_limit else if ltb max_list_limit n then ok max_list_limit else ok n

pub list_params_from_api : GetFlowSegmentsParams → Result ConversionError ListParams
unfolding listed_timerange or_false split_or_nil or_empty list_limit
list_params_from_api p = do
  tr ← listed_timerange p.timerange
  limit ← list_limit p.limit
  ok (record {
    timerange = tr;
    object_id = p.object_id;
    reverse_order = or_false p.reverse_order;
    verbose_storage = or_false p.verbose_storage;
    accept_get_urls = split_or_nil p.accept_get_urls;
    accept_storage_ids = split_or_nil p.accept_storage_ids;
    presigned = p.presigned;
    include_object_timerange = or_false p.include_object_timerange;
    page = or_empty p.page;
    limit = limit;
  })

-- `DeleteParamsFromAPI`, without the object, which is passed on: an absent time range is "_".
or_eternity : Option Bytes → Bytes
or_eternity none = b'_' ∷ []
or_eternity (some s) = s

deleted_timerange : Result ParseError TimeRange → Result ConversionError TimeRange
deleted_timerange (ok tr) = ok tr
deleted_timerange (err e) = err (bad_query_timerange e)

pub delete_params_from_api :
    Option Bytes → Option Bytes → Result ConversionError (TimeRange × Option Bytes)
unfolding or_eternity deleted_timerange
delete_params_from_api timerange object_id = do
  tr ← deleted_timerange (parse (or_eternity timerange))
  ok (tr, object_id)

-- The parts joined by commas again.
pub join_commas : List Bytes → Bytes
join_commas [] = []
join_commas (p ∷ []) = p
join_commas (p ∷ q ∷ ps) = p ++ b',' ∷ join_commas (q ∷ ps)

abbrev pub Each {κ} : (Bytes → Type κ) → List Bytes → Type κ
Each P [] = Unit
Each P (p ∷ ps) = P p × Each P ps

split_from-nonempty :
    (part s : Bytes) → (p : Bytes) × (ps : List Bytes) × (split_from part s ≡ p ∷ ps)
unfolding split_from
split_from-nonempty part [] = (part, [], refl)
split_from-nonempty part (c ∷ s) = elim (Bool-cases (c == b',')) [
  | inl e ↦ (part, split_from [] s, rw e)
  | inr e ↦ let (p, ps, h) = split_from-nonempty (part ++ c ∷ []) s in (p, ps, rw e h)
]

join-split_from : (part s : Bytes) → join_commas (split_from part s) ≡ part ++ s
unfolding split_from join_commas
join-split_from part [] = sym (append-nil part)
join-split_from part (c ∷ s) = elim (Bool-cases (c == b',')) [
  | inr e ↦ rw e (join-split_from (part ++ c ∷ []) s ∙ append_assoc part (c ∷ []) s)
  | inl e ↦
      let (p, ps, h) = split_from-nonempty [] s in
      let rest = ap join_commas (sym h) ∙ join-split_from [] s in
      let comma : c ≡ b',' = ground arith in
      rw (e, h) (ap (λ l. part ++ b',' ∷ l) rest ∙ ap (λ d. part ++ d ∷ s) (sym comma))
]

split_from-Lacks : (part s : Bytes) → Lacks b',' part → Each (Lacks b',') (split_from part s)
unfolding split_from
split_from-Lacks part [] h = (h, tt)
split_from-Lacks part (c ∷ s) h = elim (Bool-cases (c == b',')) [
  | inl e ↦ rw e (h, split_from-Lacks [] s tt)
  | inr e ↦ rw e (split_from-Lacks (part ++ c ∷ []) s (Lacks-snoc part c h (ground arith)))
]
  where
    Lacks-snoc : (part : Bytes) (c : ℕ) → Lacks b',' part → c ≢ b',' → Lacks b',' (part ++ c ∷ [])
    Lacks-snoc [] c h k = (k, tt)
    Lacks-snoc (x ∷ part) c h k = (h.0, Lacks-snoc part c h.1 k)

-- csvSplit cuts a text at all of its commas: the parts hold none, and joined by commas they are the
-- text again.
pub csv_split_lem : (s : Bytes) → (join_commas (csv_split s) ≡ s) × Each (Lacks b',') (csv_split s)
unfolding csv_split
csv_split_lem [] = (unfold join_commas in refl, tt)
csv_split_lem (c ∷ s) = (join-split_from [] (c ∷ s), split_from-Lacks [] (c ∷ s) tt)

-- Every limit of a listing that is passed on is at least 1, at most the maximum, and one that the
-- store takes as it is.
pub list_limit_lem :
    (limit : Option ℤ) (n : ℕ)
    → list_limit limit ≡ ok n
    → (0 < n) × (n ≤ max_list_limit) × (clamp_limit (pos n) ≡ n)
unfolding list_limit clamp_limit
list_limit_lem none n e = ground arith
list_limit_lem (some (pos m)) n e = ground arith
list_limit_lem (some (negsuc m)) n e = absurd (cc)
