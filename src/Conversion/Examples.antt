-- ===== src/Conversion/Examples.antt =====
-- A request with one segment, and the theorems on conversions applied to it.
use open_tams.Prelude.Decimal.{parse_uint}
use open_tams.Timerange.Text.{parse, side, parse_timestamp, valid_int, valid_nano}
use open_tams.Segments.Pages.{no_faults}
use open_tams.Segments.Invariant.{Write, insert_batch, delete_range}
use open_tams.Segments.Insert.{new_row}
use open_tams.Segments.Listing.{scan_row}
use open_tams.Segments.Invariant.{apply_all}
use open_tams.Prelude.{◌≡◌, none, some, [], ◌∷◌, refl, List}
use open_tams.Prelude.Int.{pos, int64}
use open_tams.Prelude.Bytes.{codes}
use open_tams.Prelude.Result.{ok}
use open_tams.Segments.Samples.{
  seg1, seg2, text1, f1, o1, ids, no_segments, reads_text1, reads_text2, seconds_range,
}
use open_tams.Conversion.{
  Body, FlowSegmentPost, register_params_from_api, register_params_from_post_array, post_to_segment,
  set_time_fields, posted_urls,
}
use open_tams.Conversion.Params.{list_limit}
use open_tams.Conversion.Faithful.{IsParsed, register_params-AllParsed, scan_row-new_row, AllParsed}
use open_tams.Conversion.Readable.{Readable, apply_all-Readable}

abbrev post : FlowSegmentPost
post = record {
  object_id = o1;
  timerange = text1;
  ts_offset = none;
  object_timerange = none;
  last_duration = none;
  key_frame_count = none;
  sample_offset = none;
  sample_count = none;
  get_urls = none;
}

abbrev body : Body
body = record { as_array = none; as_single = some post }

converted : register_params_from_api body ≡ ok (seg1 ∷ [])
unfolding register_params_from_api register_params_from_post_array post_to_segment set_time_fields
    parse side parse_timestamp valid_int valid_nano parse_uint int64 posted_urls
converted = refl

register_params-AllParsed_example : AllParsed (seg1 ∷ [])
register_params-AllParsed_example = register_params-AllParsed body (seg1 ∷ []) converted

seg1-IsParsed : IsParsed seg1
seg1-IsParsed = record {
  timerange = reads_text1;
  ts_offset = refl;
  object_timerange = refl;
  last_duration = refl;
}

seg2-IsParsed : IsParsed seg2
seg2-IsParsed = record {
  timerange = reads_text2;
  ts_offset = refl;
  object_timerange = refl;
  last_duration = refl;
}

scan_row-new_row_example :
    scan_row (new_row 0 f1 7 seg1 (pos 0) (pos 1_000_000_000))
    ≡ ok (record {
      seg = seg1;
      flow_id = f1;
      created_at = 7;
      lower_ns = pos 0;
      upper_ns = pos 1_000_000_000;
      seg_id = 0;
    })
scan_row-new_row_example = scan_row-new_row 0 f1 7 seg1 (pos 0) (pos 1_000_000_000) seg1-IsParsed

limited : list_limit (some (pos 5000)) ≡ ok 1000
unfolding list_limit
limited = refl

abbrev writes : List Write
writes =
    insert_batch no_faults ids 7 f1 (codes "s3") (seg1 ∷ seg2 ∷ [])
    ∷ delete_range no_faults 8 f1 (seconds_range 0 1) none
    ∷ []

apply_all-Readable_example : Readable (apply_all writes no_segments).segments
apply_all-Readable_example =
    apply_all-Readable writes no_segments ((seg1-IsParsed, (seg2-IsParsed, tt)), (tt, tt)) tt
