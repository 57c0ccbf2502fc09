-- ===== src/Service/Context.antt =====
-- service.rs: what the service is given, a request, and what is done for it.
use flatbed.Base.{
  ℕ, Bool, not, Option, none, some, List, [], ◌∷◌, ◌&&◌, map, if◌then◌else◌, Text, codes, is_empty,
  join, Result,
}
use flatbed.Http.{ResponseParts, FlatbedRouteError, Response}
use flatbed.Readiness
use flatbed.Readiness.{Readiness, blocked_on}
use flatbed.Router.{RouterNode, Params}
use flatbed.StaticFiles.{StaticRouteInfo}
use flatbed.Supervisor.{WorkerState}

pub record Request (H : Type 0) : Type 0 where
  pub method : Text
  pub path : Text
  pub query : Option Text
  pub headers : H
  -- The bytes of the body, or why reading them fails.
  pub body : Result Text Text
  -- The identifier that would be generated for it.
  pub fresh_id : Text

pub record RequestParts (H : Type 0) : Type 0 where
  pub headers : H
  pub method : Text
  pub path : Text
  pub path_params : Params
  pub query_params : Params
  pub request_id : Text

pub data Error : Type 0 where
  deserialization_error serialization_error handler_error custom : (msg : Text) → Error

pub data Handled (H : Type 0) : Type 0 where
  returned : ResponseParts H → Handled H
  failed_with : Error → Handled H
  panicked : (message : Text) → Handled H

pub record RouteEntry (H C : Type 0) : Type 0 where
  pub route : Text
  pub handler :
      RequestParts H → (body : Text) → (content_type : Text) → (app : Option C) → Handled H

pub record ServiceContext (H C : Type 0) : Type 0 where
  pub router : RouterNode (RouteEntry H C)
  pub healthy : Bool
  pub booted : Bool
  pub readiness : Readiness
  pub context : Option C
  pub static_routes : List StaticRouteInfo
  pub disk : Text → Option Text
  pub splash : Option Text
  -- The feed of metrics of the telemetry service, if there is one, or its error.
  pub telemetry : Option (Result Text Text)
  pub worker_states : List (Text × WorkerState)
  pub versions : List Text
  pub openapi_json : (version : Text) → Text
  pub schema_bfbs : Option Text
  pub before_request : Option {0} (RequestParts H → Result (FlatbedRouteError H) Unit)

pub record RouteRequest : Type 0 where
  pub method : Text
  pub route : Text
  pub path : Text
  pub request_id : Text

pub record RouteFailure : Type 0 where
  pub request : RouteRequest
  pub status : ℕ
  pub code : Text
  pub message : Text

-- What is done for a request beside the response, in order.
pub data Event : Type 0 where
  hook_called body_read handler_called : Event
  error_reported : RouteFailure → Event
  panic_reported : RouteRequest → (message : Text) → Event

pub record Answer (H : Type 0) : Type 0 where
  pub events : List Event
  pub response : Response H

abbrev pub reply : {H : Type 0} → Response H → Answer H
reply r = record { events = []; response = r }

abbrev pub after : {H : Type 0} → Event → Answer H → Answer H
after e a = record { events = e ∷ a.events; response = a.response }

module _ {H C : Type 0} where
  unfoldable pub is_ready : ServiceContext H C → Bool
  is_ready ctx = ctx.booted && Readiness.is_ready ctx.readiness

  unfoldable pub blocked_gates : ServiceContext H C → Option Text
  blocked_gates ctx =
      let blocked = map codes (blocked_on ctx.readiness.gates) in
      if not ctx.booted
      then none
      else (if is_empty blocked then none else some (join (codes ", ") blocked))
