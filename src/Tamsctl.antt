-- ===== src/Tamsctl.antt =====
-- cmd/tamsctl/paginate.go: `runList` with `--all`, which follows the cursors of a server. A page is
-- fetched by a parameter, and so are the two directions of `encoding/json` on an array of raw items.
pub mod Cursors
pub mod AllPages
pub mod Server
mod Examples
use open_tams.Prelude.Bytes.{Bytes, is_nil, bytes_eq}
use open_tams.Prelude.Int.{pos, ℤ, ltb_ℤ}
use open_tams.Prelude.Result.{Result, err, ok, ◌>>=◌, Result-cases}
use open_tams.Prelude.{
  List, Option, [], if◌then◌else◌, none, some, suc, zero, ◌&&◌, ◌++◌, ◌+◌, ◌<◌, ◌≡◌, ◌≤◌, ℕ, Bool,
  arith, not, Bool-cases, inr, inl, false, true,
}

pub record Page : Type 0 where
  pub items : Bytes
  pub next_token : Bytes

pub record Json : Type 0 where
  pub marshal : List Bytes → Bytes
  pub unmarshal : Bytes → Option (List Bytes)

pub data ListError {ℓ} (E : Type ℓ) : Type ℓ where
  fetch_failed : E → ListError E
  bad_items non_advancing too_many_pages : ListError E

unfoldable pub decode_items {ℓ} : {E : Type ℓ} → Json → Bytes → Result (ListError E) (List Bytes)
decode_items json raw =
    if is_nil raw
    then ok []
    else elim (json.unmarshal raw) [ none ↦ err bad_items | some items ↦ ok items ]

unfoldable pub fetched {ℓ} : {E : Type ℓ} → Result E Page → Result (ListError E) Page
fetched (ok page) = ok page
fetched (err e) = err (fetch_failed e)

-- `maxPages > 0 && pages >= maxPages`
unfoldable pub is_capped : ℤ → ℕ → Bool
is_capped max_pages pages = ltb_ℤ (pos 0) max_pages && not (ltb_ℤ (pos pages) max_pages)

-- The state of the loop of `collectRemaining`.
pub record Progress : Type 0 where
  pub all : List Bytes
  pub pages : ℕ
  pub prev_token : Bytes
  pub token : Bytes

unfoldable pub next_page {ℓ} :
    {E : Type ℓ} → Json → (Bytes → Result E Page) → ℤ → Progress → Result (ListError E) Progress
next_page json fetch max_pages s =
    if bytes_eq s.token s.prev_token
    then err non_advancing
    else if is_capped max_pages s.pages
    then err too_many_pages
    else do
      page ← fetched (fetch s.token)
      items ← decode_items json page.items
      ok (record {
        all = s.all ++ items;
        pages = s.pages + 1;
        prev_token = s.token;
        token = page.next_token;
      })

-- The loop, on fuel: `none` is no answer yet.
unfoldable pub collect {ℓ} :
    {E : Type ℓ}
    → Json
    → (Bytes → Result E Page)
    → ℤ
    → ℕ
    → Progress
    → Option (Result (ListError E) (List Bytes))
collect json fetch max_pages zero s = if is_nil s.token then some (ok s.all) else none
collect json fetch max_pages (suc fuel) s =
    if is_nil s.token then some (ok s.all) else elim (next_page json fetch max_pages s) [
      | err e ↦ some (err e)
      | ok s' ↦ collect json fetch max_pages fuel s'
    ]

unfoldable pub merged {ℓ} :
    {E : Type ℓ} → Json → Result (ListError E) (List Bytes) → Result (ListError E) Page
merged json (err e) = err e
merged json (ok all) = ok (record { items = json.marshal all; next_token = [] })

unfoldable pub merge {ℓ} :
    {E : Type ℓ}
    → Json
    → Option (Result (ListError E) (List Bytes))
    → Option (Result (ListError E) Page)
unfolding merged
merge json none = none
merge json (some r) = some (merged json r)

unfoldable pub collect_remaining {ℓ} :
    {E : Type ℓ}
    → Json
    → (Bytes → Result E Page)
    → ℤ
    → ℕ
    → Page
    → Option (Result (ListError E) Page)
collect_remaining {E} json fetch max_pages fuel first =
    elim (decode_items {E = E} json first.items) [
      | err e ↦ some (err e)
      | ok items ↦ merge json (
          collect json fetch max_pages fuel
            (record { all = items; pages = 1; prev_token = []; token = first.next_token }))
    ]

-- `runList` up to the printing of the page.
unfoldable pub run_list {ℓ} :
    {E : Type ℓ}
    → Json
    → (Bytes → Result E Page)
    → Bool
    → Bytes
    → ℤ
    → ℕ
    → Option (Result (ListError E) Page)
run_list json fetch all start_token max_pages fuel = elim (fetched (fetch start_token)) [
  | err e ↦ some (err e)
  | ok page ↦ if all then collect_remaining json fetch max_pages fuel page else some (ok page)
]

pub collect_done :
    {E : Type 0} (json : Json) (fetch : Bytes → Result E Page) (max_pages : ℤ) (fuel : ℕ)
    (s : Progress)
    → is_nil s.token ≡ true
    → collect json fetch max_pages fuel s ≡ some (ok s.all)
unfolding collect
collect_done json fetch max_pages zero s e = rw e
collect_done json fetch max_pages (suc fuel) s e = rw e

-- A round of the loop in which nothing goes wrong.
pub next_page-ok :
    {E : Type 0} (json : Json) (fetch : Bytes → Result E Page) (max_pages : ℤ) (s : Progress)
    (page : Page) (items : List Bytes)
    → bytes_eq s.token s.prev_token ≡ false
    → is_capped max_pages s.pages ≡ false
    → fetch s.token ≡ ok page
    → decode_items {E = E} json page.items ≡ ok items
    → next_page json fetch max_pages s
      ≡ ok (record {
        all = s.all ++ items;
        pages = s.pages + 1;
        prev_token = s.token;
        token = page.next_token;
      })
unfolding next_page fetched
next_page-ok json fetch max_pages s page items a b f d = rw (a, b, f, d)

pub run_list-ok :
    {E : Type 0} (json : Json) (fetch : Bytes → Result E Page) (start_token : Bytes) (max_pages : ℤ)
    (fuel : ℕ) (page : Page) (items all : List Bytes)
    → fetch start_token ≡ ok page
    → decode_items {E = E} json page.items ≡ ok items
    → collect json fetch max_pages fuel
        (record { all = items; pages = 1; prev_token = []; token = page.next_token })
      ≡ some (ok all)
    → run_list json fetch true start_token max_pages fuel
      ≡ some (ok (record { items = json.marshal all; next_token = [] }))
unfolding run_list fetched collect_remaining merge
run_list-ok json fetch start_token max_pages fuel page items all f d c =
    rw (f, run_list, d, collect_remaining, c)

-- A round of the loop stays below the cap and counts one page.
next_page-counts :
    {E : Type 0} (json : Json) (fetch : Bytes → Result E Page) (max_pages : ℕ) (s s' : Progress)
    → 0 < max_pages
    → next_page json fetch (pos max_pages) s ≡ ok s'
    → (s.pages < max_pages) × (s'.pages ≡ s.pages + 1)
unfolding next_page is_capped
next_page-counts json fetch max_pages s s' k e = ground arith

-- With a positive cap the loop of collectRemaining ends, whatever the server answers, once the fuel
-- exceeds the pages that the cap leaves.
pub collect-ends :
    {E : Type 0} (json : Json) (fetch : Bytes → Result E Page) (max_pages fuel : ℕ) (s : Progress)
    → 0 < max_pages
    → 0 < fuel
    → max_pages < s.pages + fuel
    → (r : Result (ListError E) (List Bytes)) × (collect json fetch (pos max_pages) fuel s ≡ some r)
unfolding collect
collect-ends json fetch max_pages zero s k l h = absurd (omega arith)
collect-ends json fetch max_pages (suc fuel) s k l h = elim (Bool-cases (is_nil s.token)) [
  | inl e ↦ (ok s.all, rw e)
  | inr e ↦ elim (Result-cases (next_page json fetch (pos max_pages) s)) [
    | inr (x, n) ↦ (err x, rw (e, n))
    | inl (s', n) ↦
        let counts = next_page-counts json fetch max_pages s s' k n in
        let (r, q) = collect-ends json fetch max_pages fuel s' k (omega arith) (omega arith) in
        (r, rw (e, n) q)
  ]
]
