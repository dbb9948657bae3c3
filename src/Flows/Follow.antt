-- ===== src/Flows/Follow.antt =====
-- internal/metastore: a client that follows the cursors of `ListFlows` or `ListSources` from page to
-- page.
use open_tams.Prelude.Sort.{select, take, drop, take-drop, length-drop}
use open_tams.Prelude.Bytes.{Bytes, length}
use open_tams.Prelude.{
  Bool, List, Option, [], inl, inr, none, refl, some, suc, zero, ◌++◌, ◌<◌, ◌∙◌, ◌∷◌, ◌≡◌, ℕ, map,
  arith, ap, sym,
}
use open_tams.Prelude.Result.{Result, ok, ◌>>=◌}
use open_tams.Prelude.Maybe.{map_option}
use mathlib.Core.List.{map-append, append_assoc}
use open_tams.Flows.Keyset.{
  Cursor, CursorCodec, IsCursorCodec, Unique, behind, cut_page, fetch, ordered, next_page,
}

-- A client that asks for one page after the other, as long as there is a cursor.
unfoldable pub follow {ℓ} :
    {E : Type 0} {B : Type ℓ}
    → (Option Bytes → Result E (List B × Option Bytes))
    → ℕ
    → Option Bytes
    → Result E (List B)
follow server zero token = ok []
follow server (suc fuel) token = do
  page ← server token
  elim page.1 [
    | none ↦ ok page.0
    | some after ↦ do rest ← follow server fuel (some after); ok (page.0 ++ rest)
  ]

-- A page as it is sent: the rows are scanned, and the cursor is encoded.
unfoldable pub sent :
    {A B : Type 0} → CursorCodec → (A → B) → List A × Option Cursor → List B × Option Bytes
sent codec scan p = (map scan p.0, map_option codec.encode_cursor p.1)

-- `none` is a token that cannot be read.
unfoldable pub decoded : CursorCodec → Option Bytes → Option (Option Cursor)
decoded codec none = some none
decoded codec (some token) = map_option some (codec.decode_cursor token)

module _ {A B E : Type 0} (key : A → Cursor) (scan : A → B) (codec : CursorCodec)
    (lawful : IsCursorCodec codec) (passes : A → Bool) (rows : List A) (unique : Unique key rows)
    (limit : ℕ) (positive : 0 < limit) (server : Option Bytes → Result E (List B × Option Bytes))
    (serves : (token : Option Bytes) (cursor : Option Cursor)
      → decoded codec token ≡ some cursor
      → server token
        ≡ ok
            (sent codec scan (cut_page key limit (fetch key passes cursor (suc limit) rows)))) where
  follow-from :
      (fuel : ℕ) (token : Option Bytes) (cursor : Option Cursor) (pre rest : List A)
      → decoded codec token ≡ some cursor
      → ordered key passes rows ≡ pre ++ rest
      → select (behind key cursor) (ordered key passes rows) ≡ rest
      → length rest < fuel
      → follow server fuel token ≡ ok (map scan rest)
  unfolding follow sent decoded
  follow-from zero token cursor pre rest d e b f = absurd (omega arith)
  follow-from (suc fuel) token cursor pre rest d e b f =
      elim (next_page key passes rows unique limit cursor pre rest positive e b) [
        | inl (h, p) ↦ rw (serves token cursor d, p) refl
        | inr (k, h, p, n) ↦
            let rec =
              follow-from fuel (some (codec.encode_cursor k)) (some k) (pre ++ take limit rest)
                (drop limit rest) (ap (map_option some) (lawful k))
                (e
                  ∙ ap (λ q. pre ++ q) (sym (take-drop limit rest))
                  ∙ sym (append_assoc pre (take limit rest) (drop limit rest)))
                n (omega (arith, length-drop limit rest)) in
            rw (serves token cursor d, p, rec)
              (ap ok (
                sym (map-append scan (take limit rest) (drop limit rest))
                ∙ ap (map scan) (take-drop limit rest)))
      ]

  behind-none : (xs : List A) → select (behind key none) xs ≡ xs
  unfolding select behind
  behind-none [] = refl
  behind-none (x ∷ xs) = ap (λ l. x ∷ l) (behind-none xs)

  -- With more fuel than there are rows, the pages are all rows that pass, each once and in order.
  pub follow-every :
      (fuel : ℕ)
      → length (ordered key passes rows) < fuel
      → follow server fuel none ≡ ok (map scan (ordered key passes rows))
  unfolding decoded
  follow-every fuel f =
      follow-from fuel none none [] (ordered key passes rows) refl refl
        (behind-none (ordered key passes rows)) f
