-- ===== src/Timerange/Text/Examples.antt =====
-- Texts of timestamps and ranges, and the theorems about them applied to concrete values.
use open_tams.Prelude.{◌≡◌, some, refl, inr, if◌then◌else◌}
use open_tams.Prelude.Int.{◌-ℤ◌, int64, ◌+ℤ◌, ◌-ℤ◌, int64, ◌-ℤ◌, int64}
use open_tams.Prelude.Bytes.{codes, cut, split_last}
use open_tams.Prelude.Decimal.{parse_uint, format_uint}
use open_tams.Prelude.Result.{ok, err}
use open_tams.Timerange.{is_eternity, equal, before, empty_range, is_empty}
use open_tams.Timerange.Text.{
  valid_nano, valid_int, valid_int, valid_nano, valid_int, parse, parse_timestamp, timestamp_text,
  range_text, bad_seconds, exclusive_instant, separated, side,
}
use open_tams.Timerange.Text.RoundTrip.{ReadsAs, parse-range_text}
use open_tams.Timerange.Examples.{early, early-IsValid, late-IsValid, span}

negative_text : parse_timestamp (codes "-0:500000000") ≡ ok early
unfolding parse_timestamp cut parse_uint valid_int valid_nano int64 ◌-ℤ◌
negative_text = refl

padded_text : parse_timestamp (codes "01:0") ≡ err bad_seconds
unfolding parse_timestamp cut valid_int
padded_text = refl

span_text : range_text span ≡ some (codes "[-0:500000000_2:0)")
unfolding range_text is_empty timestamp_text format_uint before equal is_eternity int64 ◌-ℤ◌ ◌+ℤ◌
span_text = refl

reads_span : parse (codes "[-0:500000000_2:0)") ≡ ok span
unfolding parse parse_timestamp cut parse_uint split_last separated side valid_int valid_nano int64
    ◌-ℤ◌
reads_span = refl

half_open_instant : parse (codes "[2:0)") ≡ err exclusive_instant
unfolding parse cut split_last
half_open_instant = refl

parse-range_text_example : ReadsAs (if is_empty span then empty_range else span) (range_text span)
parse-range_text_example = parse-range_text span (inr (early-IsValid, late-IsValid))
