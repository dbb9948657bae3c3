-- ===== src/Flows/Keyset.antt =====
-- internal/metastore: pages of rows ordered by (created, id), as `ListFlows` and `ListSources` cut
-- them, with the cursor of internal/metastore/store.go.
use mathlib.Core.List.{append_assoc}
use native.Mathlib.Decide.{dec_lt}
use open_tams.Prelude.Maybe.{map_option}
use open_tams.Prelude.Bytes.{Bytes, bytes_eq, length}
use open_tams.Prelude.{
  Bool, List, Option, [], arith, false, if◌then◌else◌, inl, inr, none, refl, some, suc, true, ℕ,
  ◌&&◌, ◌++◌, ◌<◌, ◌==◌, ◌||◌, ◌∙◌, ◌∷◌, ◌≡◌, ◌≤◌, ◌⊎◌, ltb, ap, sym, zero,
}
use open_tams.Flows.{bytes_lt}
use open_tams.Prelude.Sort.{
  All, Comparable, Distinct, Distinct-select, IsStrictOrder, Strict, last?, select, select-select,
  select-sort, select_beyond, sort, sort-Strict, take, drop, take-drop, take_all, All-map,
  length-take-suc, take-take-suc, last?-cases,
}

-- `pageCursor`, and the order of SQL on such pairs.
abbrev pub Cursor : Type 0
Cursor = ℕ × Bytes

unfoldable pub cursor_lt : Cursor → Cursor → Bool
cursor_lt a b = ltb a.0 b.0 || (a.0 == b.0 && bytes_lt a.1 b.1)

bytes_lt-asym : (s t : Bytes) → bytes_lt s t ≡ true → bytes_lt t s ≡ false
unfolding bytes_lt
bytes_lt-asym [] [] h = absurd (cc)
bytes_lt-asym [] (d ∷ t) h = refl
bytes_lt-asym (c ∷ s) [] h = absurd (cc)
bytes_lt-asym (c ∷ s) (d ∷ t) h = ground (arith, bytes_lt-asym s t)

bytes_lt_trans : (s t u : Bytes) → bytes_lt s t ≡ true → bytes_lt t u ≡ true → bytes_lt s u ≡ true
unfolding bytes_lt
bytes_lt_trans s t [] h k = absurd (cc)
bytes_lt_trans s [] (e ∷ u) h k = absurd (cc)
bytes_lt_trans [] (d ∷ t) (e ∷ u) h k = refl
bytes_lt_trans (c ∷ s) (d ∷ t) (e ∷ u) h k = ground (arith, bytes_lt_trans s t u)

bytes_lt-total :
    (s t : Bytes) → bytes_eq s t ≡ false → (bytes_lt s t ≡ true) ⊎ (bytes_lt t s ≡ true)
unfolding bytes_lt bytes_eq
bytes_lt-total [] [] h = absurd (cc)
bytes_lt-total [] (d ∷ t) h = inl refl
bytes_lt-total (c ∷ s) [] h = inr refl
bytes_lt-total (c ∷ s) (d ∷ t) h = ground (arith, bytes_lt-total s t)

-- The functions of the standard library on a cursor, as they document them: decoding undoes
-- encoding.
pub record CursorCodec : Type 0 where
  pub encode_cursor : Cursor → Bytes
  pub decode_cursor : Bytes → Option Cursor

abbrev pub IsCursorCodec : CursorCodec → Type 0
IsCursorCodec c = (k : Cursor) → c.decode_cursor (c.encode_cursor k) ≡ some k

module _ {A : Type 0} (key : A → Cursor) where
  abbrev pub row_lt : A → A → Bool
  row_lt x y = cursor_lt (key x) (key y)

  unfoldable pub behind : Option Cursor → A → Bool
  behind none x = true
  behind (some k) x = cursor_lt k (key x)

  -- `SELECT … WHERE … ORDER BY created, id LIMIT limit+1`, and the cut behind it.
  unfoldable pub fetch : (A → Bool) → Option Cursor → ℕ → List A → List A
  fetch passes cursor n rows = take n (sort row_lt (select (λ r. passes r && behind cursor r) rows))

  unfoldable pub cut_page : ℕ → List A → List A × Option Cursor
  cut_page limit items =
      if ltb limit (length items)
      then (take limit items, map_option key (last? (take limit items)))
      else (items, none)

  -- Rows whose keys have different ids.
  abbrev pub Unique : List A → Type 0
  Unique [] = Unit {0}
  Unique (x ∷ xs) = All (λ y. bytes_eq (key x).1 (key y).1 ≡ false) xs × Unique xs

  row_lt-IsStrictOrder : IsStrictOrder row_lt
  unfolding cursor_lt
  row_lt-IsStrictOrder = record {
    asym = λ x y h. ground (arith, bytes_lt-asym (key x).1 (key y).1);
    trans = λ x y z h k. ground (arith, bytes_lt_trans (key x).1 (key y).1 (key z).1);
  }

  comparable : (x y : A) → bytes_eq (key x).1 (key y).1 ≡ false → Comparable row_lt x y
  unfolding cursor_lt
  comparable x y h = ground (arith, bytes_lt-total (key x).1 (key y).1)

  pub Unique-Distinct : (xs : List A) → Unique xs → Distinct row_lt xs
  Unique-Distinct [] u = tt
  Unique-Distinct (x ∷ xs) u =
      (All-map _ _ xs (λ y h. comparable x y h) u.0, Unique-Distinct xs u.1)

  -- All rows that pass, in order.
  unfoldable pub ordered : (A → Bool) → List A → List A
  ordered passes rows = sort row_lt (select passes rows)

  module _ (passes : A → Bool) (rows : List A) (unique : Unique rows) where
    pub ordered-Strict : Strict row_lt (ordered passes rows)
    unfolding ordered
    ordered-Strict =
        sort-Strict row_lt row_lt-IsStrictOrder _
          (Distinct-select row_lt row_lt-IsStrictOrder passes rows (Unique-Distinct rows unique))

    -- A page is a beginning of what stands behind its cursor.
    fetch-eq :
        (cursor : Option Cursor) (n : ℕ)
        → fetch passes cursor n rows ≡ take n (select (behind cursor) (ordered passes rows))
    unfolding fetch ordered
    fetch-eq cursor n = ap (take n) (
        ap (sort row_lt) (sym (select-select (behind cursor) passes rows))
        ∙ sym (
            select-sort row_lt row_lt-IsStrictOrder (behind cursor) _ (
              Distinct-select row_lt row_lt-IsStrictOrder passes rows
                (Unique-Distinct rows unique))))

    behind_row :
        (xs : List A) (r : A) (ys : List A)
        → ordered passes rows ≡ xs ++ r ∷ ys
        → select (behind (some (key r))) (ordered passes rows) ≡ ys
    unfolding behind
    behind_row xs r ys e =
        rw e (select_beyond row_lt row_lt-IsStrictOrder xs r ys (rw e at ordered-Strict))

    cut-short :
        (limit : ℕ) (rest : List A)
        → length rest ≤ limit
        → cut_page limit (take (suc limit) rest) ≡ (rest, none)
    unfolding cut_page
    cut-short limit rest h = rw (take_all (suc limit) rest (omega arith)) (ground arith)

    cut-long :
        (limit : ℕ) (rest : List A)
        → limit < length rest
        → cut_page limit (take (suc limit) rest)
          ≡ (take limit rest, map_option key (last? (take limit rest)))
    unfolding cut_page
    cut-long limit rest h =
        let long = length-take-suc limit rest h in rw (take-take-suc limit rest) (ground arith)

    -- The page at a cursor.
    abbrev pub page_at : ℕ → Option Cursor → List A × Option Cursor
    page_at limit cursor = cut_page limit (fetch passes cursor (suc limit) rows)

    -- What stands behind a cursor is one last page, or a full page and what stands behind its cursor.
    pub next_page :
        (limit : ℕ) (cursor : Option Cursor) (pre rest : List A)
        → 0 < limit
        → ordered passes rows ≡ pre ++ rest
        → select (behind cursor) (ordered passes rows) ≡ rest
        → ((length rest ≤ limit) × (page_at limit cursor ≡ (rest, none)))
          ⊎ ((k : Cursor) × (limit < length rest)
              × (page_at limit cursor ≡ (take limit rest, some k))
              × (select (behind (some k)) (ordered passes rows) ≡ drop limit rest))
    next_page limit cursor pre rest positive e b =
        let page = ap (cut_page limit) (fetch-eq cursor (suc limit) ∙ ap (take (suc limit)) b) in
        elim (dec_lt limit (length rest)) [
          | no h ↦ inl (omega arith, page ∙ cut-short limit rest (omega arith))
          | yes h ↦
              let (zs, r, w, l) = last_of limit rest positive (omega arith) in
              inr (
                key r,
                h,
                page ∙ cut-long limit rest h ∙ ap (λ o. (take limit rest, map_option key o)) l,
                behind_row (pre ++ zs) r (drop limit rest) (
                    e
                    ∙ ap (λ q. pre ++ q)
                        (sym (take-drop limit rest) ∙ ap (λ q. q ++ drop limit rest) w)
                    ∙ ap (λ q. pre ++ q) (append_assoc zs (r ∷ []) (drop limit rest))
                    ∙ sym (append_assoc pre zs (r ∷ drop limit rest))),
              )
        ]
      where
        last_of :
            (n : ℕ) (rest : List A)
            → 0 < n
            → 0 < length rest
            → (zs : List A) × (r : A) × (take n rest ≡ zs ++ r ∷ [])
              × (last? (take n rest) ≡ some r)
        last_of zero rest h k = absurd (omega arith)
        last_of (suc n) [] h k = absurd (omega arith)
        last_of (suc n) (x ∷ rest) h k = last?-cases x (take n rest)
