-- ===== src/Flows/Sources.antt =====
-- internal/metastore/sources.go, the operations that change a source and its tags.
use open_tams.Prelude.Table.{exists, update, remove}
use open_tams.Flows.{
  Db, Failing, FlowError, SourceRow, calls, exec, finish, is_source, is_tag, not_found, read_source,
}
use open_tams.Flows.Fields.{put_tag}
use open_tams.Prelude.Result.{Result, ok, ◌>>=◌, ensure}
use open_tams.Prelude.Bytes.{Bytes}
use open_tams.Prelude.{ℕ, Option, some, none}

-- `sourceExists`.
unfoldable pub source_exists : Failing → Bytes → Db → Result FlowError (Unit {0})
source_exists failing id db = do
  _ ← calls failing read_source
  ensure (exists (is_source id) db.sources) not_found

unfoldable pub put_source_tag :
    Failing → Bytes → Bytes → Bytes → Db → Result FlowError (Unit {0}) × Db
put_source_tag failing id name value db = finish db (do
  _ ← source_exists failing id db
  _ ← calls failing exec
  ok (tt, record db { source_tags = put_tag id name value db.source_tags }))

unfoldable pub delete_source_tag : Failing → Bytes → Bytes → Db → Result FlowError (Unit {0}) × Db
delete_source_tag failing id name db = finish db (do
  _ ← source_exists failing id db
  _ ← calls failing exec
  ok (tt, record db { source_tags = remove (is_tag id name) db.source_tags }))

-- `updateSourceField` on the columns that the four methods name, with the value, or NULL.
pub data SourceColumn : Type 0 where
  source_label source_description : Option Bytes → SourceColumn

unfoldable pub set_source_column : ℕ → SourceColumn → SourceRow → SourceRow
set_source_column now (source_label v) s = record s { label = v; updated = now }
set_source_column now (source_description v) s = record s { description = v; updated = now }

unfoldable pub update_source_field :
    Failing → ℕ → Bytes → SourceColumn → Db → Result FlowError (Unit {0}) × Db
update_source_field failing now id c db = finish db (do
  _ ← calls failing exec
  _ ← ensure (exists (is_source id) db.sources) not_found
  ok (tt, record db { sources = update (is_source id) (set_source_column now c) db.sources }))

unfoldable pub put_source_label :
    Failing → ℕ → Bytes → Bytes → Db → Result FlowError (Unit {0}) × Db
put_source_label failing now id v = update_source_field failing now id (source_label (some v))

unfoldable pub delete_source_label : Failing → ℕ → Bytes → Db → Result FlowError (Unit {0}) × Db
delete_source_label failing now id = update_source_field failing now id (source_label none)

unfoldable pub put_source_description :
    Failing → ℕ → Bytes → Bytes → Db → Result FlowError (Unit {0}) × Db
put_source_description failing now id v =
    update_source_field failing now id (source_description (some v))

unfoldable pub delete_source_description :
    Failing → ℕ → Bytes → Db → Result FlowError (Unit {0}) × Db
delete_source_description failing now id =
    update_source_field failing now id (source_description none)
