-- ===== src/Handlers/Flows.antt =====
-- internal/httpx/handlers/flows.go, the handlers of one whole flow, over the service of flows. Logging is
-- left out.
use open_tams.Prelude.Bytes.{Bytes}
use open_tams.Prelude.Result.{Result, err, ok, ◌>>=◌}
use open_tams.Prelude.{Bool, Option, false, none, some, true, ℕ}
use open_tams.Flows.{Db, Failing, Flow, FlowError}
use open_tams.Flows.Write.{delete_flow}
use open_tams.Segments.{Faults}
use open_tams.Timerange.Text.{parse}
use open_tams.Handlers.FlowBodies.{
  ApiFlowBase, FlowCommonJson, FlowEnv, api_flow_to_metastore, map_flow_to_api, or_false,
}
use open_tams.Handlers.FlowService.{
  FlowServiceError, bad_span, of_flow, service_get, service_upsert,
}

pub data PutFlowResponse : Type 0 where
  put_created : FlowCommonJson → PutFlowResponse
  put_updated put_bad_request : PutFlowResponse

-- `PutFlow` behind `parseFlowBody`, which answers `none` for a body that is no flow.
unfoldable pub put_created_flow :
    FlowEnv → Failing → Faults → Bytes → Db → Result FlowServiceError PutFlowResponse
put_created_flow env failing faults id db = do
  stored ← service_get failing faults false none id db
  ok (put_created (map_flow_to_api env stored))

unfoldable pub put_answer :
    FlowEnv
    → Failing
    → Faults
    → Bytes
    → Result FlowServiceError Bool
    → Db
    → Result FlowServiceError PutFlowResponse
put_answer env failing faults id (err e) db = err e
put_answer env failing faults id (ok false) db = ok put_updated
put_answer env failing faults id (ok true) db = put_created_flow env failing faults id db

unfoldable pub put_flow :
    FlowEnv
    → Failing
    → Failing
    → ℕ
    → Bytes
    → Option ApiFlowBase
    → Db
    → Result FlowServiceError PutFlowResponse × Db
put_flow env failing read_failing now flow_id body db = elim (env.parse_uuid flow_id) [
  | none ↦ (ok put_bad_request, db)
  | some id ↦ elim body [
    | none ↦ (ok put_bad_request, db)
    | some base ↦
        let (r, db') = service_upsert env failing now (api_flow_to_metastore env id base) db in
        (put_answer env read_failing (λ _. false) id r db', db')
  ]
]

pub data GetFlowResponse : Type 0 where
  got : FlowCommonJson → GetFlowResponse
  got_nothing : GetFlowResponse

unfoldable pub got_flow :
    FlowEnv → Result FlowServiceError Flow → Result FlowServiceError GetFlowResponse
got_flow env (ok f) = ok (got (map_flow_to_api env f))
got_flow env (err (of_flow FlowError.not_found)) = ok got_nothing
got_flow env (err e) = err e

-- `GetFlow`, whose filter is parsed before the flow is read.
unfoldable pub get_flow_request :
    FlowEnv
    → Failing
    → Faults
    → Bytes
    → Option Bool
    → Option Bytes
    → Db
    → Result FlowServiceError GetFlowResponse
get_flow_request env failing faults flow_id include timerange db = elim (env.parse_uuid flow_id) [
  | none ↦ ok got_nothing
  | some id ↦ elim timerange [
    | none ↦ got_flow env (service_get failing faults (or_false include) none id db)
    | some text ↦ elim (parse text) [
      | err e ↦ err (bad_span e)
      | ok tr ↦ got_flow env (service_get failing faults (or_false include) (some tr) id db)
    ]
  ]
]

pub data DeleteFlowResponse : Type 0 where
  flow_deleted flow_missing : DeleteFlowResponse

unfoldable pub deleted_flow : Result FlowError (Unit {0}) → Result FlowError DeleteFlowResponse
deleted_flow (ok u) = ok flow_deleted
deleted_flow (err FlowError.not_found) = ok flow_missing
deleted_flow (err e) = err e

unfoldable pub delete_flow_request :
    FlowEnv → Failing → Bytes → Db → Result FlowError DeleteFlowResponse × Db
delete_flow_request env failing flow_id db = elim (env.parse_uuid flow_id) [
  | none ↦ (ok flow_missing, db)
  | some id ↦ (deleted_flow (delete_flow failing id db).0, (delete_flow failing id db).1)
]
