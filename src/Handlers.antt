-- ===== src/Handlers.antt =====
-- internal/httpx/handlers/segments.go: what the handlers of segments share. A generated response
-- struct is a constructor with the problem that it holds. `uuid.Parse`, `encoding/json`, SHA-256 and
-- the English texts of errors are parameters.
pub mod Post
pub mod Retry
pub mod Replay
pub mod Urls
pub mod Reading
pub mod Effects
pub mod FlowBodies
pub mod FlowService
pub mod Flows
pub mod Puts
pub mod Fields
pub mod Sources
pub mod ReadBack
pub mod Listings
pub mod Filters
pub mod Pages
mod Examples
mod FieldExamples
use open_tams.Conversion.{ConversionError, optional_raw}
use open_tams.Service.{FailedSegment, Reason, ServiceError}
use open_tams.Prelude.Bytes.{Bytes, codes, is_nil}
use open_tams.Prelude.{ℕ, Option, none, some, List, [], ◌∷◌, ◌++◌, if◌then◌else◌}

-- The problem of RFC 9457 that the builders fill in.
pub record Problem : Type 0 where
  pub type : Bytes
  pub title : Bytes
  pub detail : Bytes
  pub status : ℕ

-- `problemType`.
unfoldable pub problem_type : Bytes → Bytes
problem_type slug = codes "https://github.com/amagioss/opentams/problems/" ++ slug

unfoldable pub problem_400 : Bytes → Bytes → Problem
problem_400 slug detail = record {
  type = problem_type slug;
  title = codes "Bad Request";
  detail = detail;
  status = 400;
}

unfoldable pub problem_403 : Bytes → Problem
problem_403 detail = record {
  type = problem_type (codes "read-only");
  title = codes "Forbidden";
  detail = detail;
  status = 403;
}

unfoldable pub problem_404 : Bytes → Problem
problem_404 detail = record {
  type = problem_type (codes "not-found");
  title = codes "Not Found";
  detail = detail;
  status = 404;
}

unfoldable pub problem_409 : Bytes → Bytes → Problem
problem_409 slug detail = record {
  type = problem_type slug;
  title = codes "Conflict";
  detail = detail;
  status = 409;
}

unfoldable pub problem_422 : Bytes → Bytes → Bytes → Problem
problem_422 slug title detail = record {
  type = problem_type slug;
  title = title;
  detail = detail;
  status = 422;
}

-- An entry of `api.FlowSegmentBulkFailure`; the reason stands for its type, title and detail.
pub record FailureEntry : Type 0 where
  pub object_id : Bytes
  pub timerange : Option Bytes
  pub reason : Reason

-- `RegisterFailureToAPI`.
unfoldable pub register_failure_to_api : List FailedSegment → List FailureEntry
register_failure_to_api [] = []
register_failure_to_api (f ∷ fs) =
    record {
      object_id = f.segment.object_id;
      timerange = optional_raw f.segment.timerange_raw;
      reason = f.reason;
    }
    ∷ register_failure_to_api fs

-- The functions of other packages that the handlers call.
pub record Env : Type 0 where
  pub parse_uuid : Bytes → Option Bytes
  pub hash : Bytes → Bytes
  pub marshal_problem : Problem → Option Bytes
  pub unmarshal_problem : Bytes → Option Problem
  pub marshal_failures : List FailureEntry → Option Bytes
  pub unmarshal_failures : Bytes → Option (List FailureEntry)
  pub conversion_text : ConversionError → Bytes
  pub service_text : ServiceError → Bytes
