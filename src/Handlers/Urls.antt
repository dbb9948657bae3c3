-- ===== src/Handlers/Urls.antt =====
-- internal/httpx/handlers/segments.go: the URLs of a listed segment, and the value of a header. The
-- object store is an interface of the program, here a function from an object and the filter to its
-- answer; `none` is an error.
use open_tams.Prelude.Sort.{All}
use open_tams.Prelude.Bytes.{Bytes, is_nil, codes, Lacks}
use open_tams.Segments.{GetUrl, Segment}
use open_tams.Prelude.{
  List, Option, [], false, if◌then◌else◌, inl, inr, none, refl, some, true, ◌&&◌, ◌++◌, ◌==◌, ◌||◌,
  ◌∷◌, ◌≡◌, Bool, Bool-cases, not, Option-cases, arith, ap,
}

-- `objectstore.BackendInfo` and `objectstore.DownloadURLSet`.
pub record BackendInfo : Type 0 where
  pub storage_id : Bytes
  pub provider : Bytes
  pub region : Bytes
  pub store_product : Bytes

pub record DownloadUrlSet : Type 0 where
  pub storage_id : Bytes
  pub storage_uri : Bytes
  pub presigned_url : Bytes
  pub backend : BackendInfo

abbrev pub Download : Type 0
Download = Bytes → Option Bool → Option DownloadUrlSet

-- `segGetURL`, of which the handler sets these fields.
pub record SegGetUrl : Type 0 where
  pub url : Bytes
  pub label : Option Bytes
  pub storage_id : Option Bytes
  pub controlled : Option Bool
  pub presigned : Option Bool

unfoldable pub opt_str : Bytes → Option Bytes
opt_str s = if is_nil s then none else some s

unfoldable pub backend_label : BackendInfo → Bytes
backend_label b =
    b.provider ++ codes "." ++ b.region ++ codes ":" ++ b.store_product ++ codes ":opentams"

-- `presigned == nil || !*presigned`, and `presigned == nil || *presigned`.
unfoldable pub wants_plain : Option Bool → Bool
wants_plain none = true
wants_plain (some b) = not b

unfoldable pub wants_presigned : Option Bool → Bool
wants_presigned none = true
wants_presigned (some b) = b

unfoldable pub storage_entry : DownloadUrlSet → SegGetUrl
storage_entry set = record {
  url = set.storage_uri;
  label = opt_str (backend_label set.backend);
  storage_id = opt_str set.storage_id;
  controlled = none;
  presigned = none;
}

unfoldable pub signed_entry : DownloadUrlSet → SegGetUrl
signed_entry set = record (storage_entry set) { url = set.presigned_url; presigned = some true }

unfoldable pub controlled_entries : Option Bool → DownloadUrlSet → List SegGetUrl
controlled_entries presigned set =
    let signed =
      if wants_presigned presigned && not (is_nil set.presigned_url)
      then signed_entry set ∷ []
      else [] in
    if wants_plain presigned then storage_entry set ∷ signed else signed

unfoldable pub controlled_get_urls : Download → Bytes → Option Bool → Option (List SegGetUrl)
controlled_get_urls download object_id presigned = elim (download object_id presigned) [
  | none ↦ none
  | some set ↦ some (controlled_entries presigned set)
]

unfoldable pub byos_entry : GetUrl → SegGetUrl
byos_entry u = record {
  url = u.url;
  label = opt_str u.label;
  storage_id = none;
  controlled = some false;
  presigned = none;
}

unfoldable pub byos_get_urls : List GetUrl → Option Bool → List SegGetUrl
byos_get_urls [] presigned = []
byos_get_urls (u ∷ us) presigned =
    let rest = byos_get_urls us presigned in
    if wants_plain presigned then byos_entry u ∷ rest else rest

-- One turn of the loop of `projectSegmentURLs`: what `GetUrls` is set to.
unfoldable pub project_segment_urls : Download → Option Bool → Segment → Option (List SegGetUrl)
project_segment_urls download presigned seg =
    if is_nil seg.get_urls
    then controlled_get_urls download seg.object_id presigned
    else let entries = byos_get_urls seg.get_urls presigned in
      if is_nil entries then none else some entries

-- What the filter asks of an entry, and what the two kinds of segments show.
abbrev pub Passes : Option Bool → SegGetUrl → Type 0
Passes none u = Unit {0}
Passes (some true) u = u.presigned ≡ some true
Passes (some false) u = u.presigned ≡ none

abbrev pub Stamped : Segment → SegGetUrl → Type 0
Stamped seg u = u.controlled ≡ (if is_nil seg.get_urls then none else some false)

controlled-fine :
    (set : DownloadUrlSet) (presigned : Option Bool)
    → All (λ u. Passes presigned u × (u.controlled ≡ none)) (controlled_entries presigned set)
unfolding controlled_entries wants_plain wants_presigned storage_entry signed_entry
controlled-fine set none = elim (Bool-cases (is_nil set.presigned_url)) [
  | inl e ↦ rw e ((tt, refl), tt)
  | inr e ↦ rw e ((tt, refl), ((tt, refl), tt))
]
controlled-fine set (some true) = elim (Bool-cases (is_nil set.presigned_url)) [
  | inl e ↦ rw e tt
  | inr e ↦ rw e ((refl, refl), tt)
]
controlled-fine set (some false) = ((refl, refl), tt)

byos-fine :
    (us : List GetUrl) (presigned : Option Bool)
    → All (λ u. Passes presigned u × (u.controlled ≡ some false)) (byos_get_urls us presigned)
unfolding byos_get_urls byos_entry wants_plain
byos-fine [] presigned = tt
byos-fine (u ∷ us) none = ((tt, refl), byos-fine us none)
byos-fine (u ∷ us) (some true) = byos-fine us (some true)
byos-fine (u ∷ us) (some false) = ((refl, refl), byos-fine us (some false))

-- The URLs of every listed segment pass the filter of the request: with presigned=true each of them
-- is marked as presigned, with presigned=false none is; and an entry is marked as not controlled
-- exactly where the segment came with URLs of its own.
pub project_segment_urls-fine :
    (download : Download) (presigned : Option Bool) (seg : Segment) (urls : List SegGetUrl)
    → project_segment_urls download presigned seg ≡ some urls
    → All (λ u. Passes presigned u × Stamped seg u) urls
unfolding project_segment_urls controlled_get_urls
project_segment_urls-fine download presigned seg urls h = elim (Bool-cases (is_nil seg.get_urls)) [
  | inl e ↦ elim (Option-cases (download seg.object_id presigned)) [
    | inl d ↦ absurd (ground arith)
    | inr (set, d) ↦
        let same : controlled_entries presigned set ≡ urls = ground arith in
        rw (← same, e) (controlled-fine set presigned)
  ]
  | inr e ↦ elim (Bool-cases (is_nil (byos_get_urls seg.get_urls presigned))) [
    | inl n ↦ absurd (ground arith)
    | inr n ↦
        let same : byos_get_urls seg.get_urls presigned ≡ urls = ground arith in
        rw (← same, e) (byos-fine seg.get_urls presigned)
  ]
]

-- `sanitiseHeaderValue`, which takes the two bytes out wherever they stand.
unfoldable pub sanitise_header_value : Bytes → Bytes
sanitise_header_value [] = []
sanitise_header_value (c ∷ s) =
    let rest = sanitise_header_value s in if c == 13 || c == 10 then rest else c ∷ rest

-- A sanitised value holds no CR and no LF, and one without them is left as it is.
pub sanitise_header_value_lem :
    (s : Bytes)
    → Lacks 13 (sanitise_header_value s)
      × Lacks 10 (sanitise_header_value s)
      × (Lacks 13 s → Lacks 10 s → sanitise_header_value s ≡ s)
unfolding sanitise_header_value
sanitise_header_value_lem [] = (tt, tt, λ h k. refl)
sanitise_header_value_lem (c ∷ s) =
    let (a, b, k) = sanitise_header_value_lem s in
    elim (Bool-cases (c == 13 || c == 10)) [
      | inl e ↦ rw e (a, b, λ h l. absurd (ground arith))
      | inr e ↦ rw e ((ground arith, a), (ground arith, b), λ h l. ap (λ t. c ∷ t) (k h.1 l.1))
    ]
