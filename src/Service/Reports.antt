-- ===== src/Service/Reports.antt =====
-- service.rs: which failures of a matched route are reported.
use flatbed.Base.{ℕ, ◌≡◌, ◌⊎◌, Bool, true, false, any, All, Text, ok}
use flatbed.Http.{HttpLibrary, ResponseParts, is_server_error, build_success_response}
use flatbed.Service.Context.{
  Request, RequestParts, RouteEntry, ServiceContext, Event, hook_called, body_read, handler_called,
  error_reported, panic_reported, Answer, Handled, returned,
}
use flatbed.Service.Answering.{content_type_of}
use flatbed.Service.Guards.{calls_handler}

abbrev pub is_report : Event → Bool
is_report (error_reported f) = true
is_report (panic_reported r m) = true
is_report handler_called = false
is_report hook_called = false
is_report body_read = false

abbrev pub Carries : ℕ → Event → Type 0
Carries status (error_reported f) = f.status ≡ status
Carries status (panic_reported r m) = status ≡ 500
Carries status handler_called = Unit
Carries status hook_called = Unit
Carries status body_read = Unit

module _ {H : Type 0} ⦃http : HttpLibrary H⦄ where
  -- A failure is reported, under the answer's status, exactly when that is a server's error.
  abbrev pub Told : Answer H → Type 0
  Told a =
      (any is_report a.events ≡ is_server_error a.response.status)
      × All (Carries a.response.status) a.events

  IsReturned : Handled H → Type 0
  IsReturned h = (made : ResponseParts H) × (h ≡ returned made)

module _ {H C : Type 0} ⦃http : HttpLibrary H⦄ where
  module _ (ctx : ServiceContext H C) (req : Request H) (entry : RouteEntry H C)
      (parts : RequestParts H) where
    -- The handler was called and returned a response, which is the answer, whatever its status
    -- says, and nothing is reported.
    abbrev pub HandlerReturned : Answer H → Type 0
    HandlerReturned a =
        (calls_handler a ≡ true)
        × (any is_report a.events ≡ false)
        × ((body : Text) × (made : ResponseParts H) × (req.body ≡ ok body)
            × (entry.handler parts body (content_type_of req) ctx.context ≡ returned made)
            × (a.response ≡ build_success_response made))

    abbrev Outcome : Answer H → Type 0
    Outcome a = HandlerReturned a ⊎ Told a
