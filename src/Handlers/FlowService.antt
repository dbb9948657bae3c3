-- ===== src/Handlers/FlowService.antt =====
-- internal/service/flow/flow.go, the two operations that do more than call the store. Metrics are left
-- out.
use open_tams.Prelude.Bytes.{Bytes, is_nil, codes}
use open_tams.Prelude.Result.{Result, err, ok, ◌>>=◌}
use open_tams.Prelude.{
  Bool, Option, [], false, if◌then◌else◌, none, some, true, ℕ, ◌&&◌, ◌==◌, ◌||◌, ◌∷◌, not,
}
use open_tams.Flows.{Db, Failing, Flow, FlowError, get_flow}
use open_tams.Flows.Write.{upsert_flow}
use open_tams.Segments.Write.{flow_span}
use open_tams.Segments.{Faults, StoreError}
use open_tams.Timerange.{TimeRange, intersect}
use open_tams.Timerange.Text.{ParseError, parse, range_text}
use open_tams.Handlers.FlowBodies.{FlowEnv, or_false}

-- The errors of the service.
pub data FlowServiceError : Type 0 where
  of_flow : FlowError → FlowServiceError
  of_span : StoreError → FlowServiceError
  bad_span : ParseError → FlowServiceError
  invalid_essence frame_rate_required frame_rate_refused span_panics : FlowServiceError

-- `strings.HasPrefix` and `strings.Contains`.
unfoldable pub has_prefix : Bytes → Bytes → Bool
has_prefix [] s = true
has_prefix (c ∷ p) [] = false
has_prefix (c ∷ p) (d ∷ s) = let rest = has_prefix p s in if c == d then rest else false

unfoldable pub contains_text : Bytes → Bytes → Bool
contains_text p [] = is_nil p
contains_text p (c ∷ s) = has_prefix p (c ∷ s) || contains_text p s

unfoldable pub check_frame_rate : Option (Option Bool × Bytes) → Result FlowServiceError (Unit {0})
check_frame_rate none = err invalid_essence
check_frame_rate (some (vfr, rate)) =
    if not (or_false vfr) && is_nil rate
    then err frame_rate_required
    else if or_false vfr && not (is_nil rate)
    then err frame_rate_refused
    else ok tt

unfoldable pub validate_video_flow : FlowEnv → Flow → Result FlowServiceError (Unit {0})
validate_video_flow env f =
    if is_nil f.essence_parameters
    then ok tt
    else if not (contains_text (codes "video") f.format)
    then ok tt
    else check_frame_rate (env.video_fields f.essence_parameters)

unfoldable pub from_flow {ℓ} : {A : Type ℓ} → Result FlowError A → Result FlowServiceError A
from_flow (ok a) = ok a
from_flow (err e) = err (of_flow e)

-- `UpsertFlow` of the service.
unfoldable pub service_upsert :
    FlowEnv → Failing → ℕ → Flow → Db → Result FlowServiceError Bool × Db
service_upsert env failing now f db = elim (validate_video_flow env f) [
  | err e ↦ (err e, db)
  | ok _ ↦ (from_flow (upsert_flow failing now f db).0, (upsert_flow failing now f db).1)
]

unfoldable pub from_span {ℓ} : {A : Type ℓ} → Result StoreError A → Result FlowServiceError A
from_span (ok a) = ok a
from_span (err e) = err (of_span e)

unfoldable pub from_text : Result ParseError TimeRange → Result FlowServiceError TimeRange
from_text (ok tr) = ok tr
from_text (err e) = err (bad_span e)

unfoldable pub from_string : Option Bytes → Result FlowServiceError Bytes
from_string none = err span_panics
from_string (some s) = ok s

-- `Intersect(…).String()`, of which either may panic.
unfoldable pub text_of : Option TimeRange → Option Bytes
text_of none = none
text_of (some tr) = range_text tr

-- The span of a flow's segments, cut to the filter where there is one.
unfoldable pub filtered_span :
    Option TimeRange → Option Bytes → Option Bytes → Result FlowServiceError (Option Bytes)
filtered_span filter stored none = ok stored
filtered_span none stored (some span) = ok (some span)
filtered_span (some filter) stored (some span) = do
  computed ← from_text (parse span)
  text ← from_string (text_of (intersect computed filter))
  ok (some text)

-- `GetFlow` of the service.
unfoldable pub service_get :
    Failing → Faults → Bool → Option TimeRange → Bytes → Db → Result FlowServiceError Flow
service_get failing faults include filter id db = do
  f ← from_flow (get_flow failing id db)
  if include
      then (do
        span ← from_span (flow_span faults id db.segments)
        text ← filtered_span filter f.timerange span
        ok (record f { timerange = text }))
      else ok f
