-- ===== src/Service/Guards.antt =====
-- service.rs: what has passed when a route's handler is called.
use flatbed.Base.{
  Result-cases, ◌≡◌, ◌⊎◌, ◌↔◌, sym, ap, ◌∙◌, Bool, true, false, not, none, some, ◌&&◌, ◌||◌, any,
  Text, Result, ok, err, Bool-cases, Option-cases, inl, inr,
}
use flatbed.Http.{HttpLibrary, FlatbedRouteError, is_server_error}
use flatbed.Router.{Params}
use flatbed.Service.Codec.{is_json, is_flatbuffer}
use flatbed.Service.Context.{
  Request, RequestParts, RouteEntry, RouteRequest, ServiceContext, Event, hook_called, body_read,
  handler_called, error_reported, panic_reported, Answer,
}
use flatbed.Service.Answering.{content_type_of, needs_body, request_parts, fail_route}
use flatbed.Service.Dispatch.{read_body, handle_matched, dispatch}
use flatbed.Service.Branches.{IsMatched, dispatch_matched, dispatch_cases}

abbrev pub is_handler_call : Event → Bool
is_handler_call handler_called = true
is_handler_call hook_called = false
is_handler_call body_read = false
is_handler_call (error_reported f) = false
is_handler_call (panic_reported r m) = false

abbrev pub calls_handler : {H : Type 0} → Answer H → Bool
calls_handler a = any is_handler_call a.events

holds : {P : Type 0} {b : Bool} → b ≡ true → P → (b ≡ true) ↔ P
holds e p = ((λ h. p), (λ h. e))

fails : {P : Type 0} {b : Bool} → b ≡ false → (P → ⊥) → (b ≡ true) ↔ P
fails e np = ((λ h. cc (e, h)), (λ p. absurd (np p)))

module _ {H : Type 0} ⦃http : HttpLibrary H⦄ where
  abbrev pub lacks_type : Request H → Bool
  lacks_type req =
      needs_body req.method
      && not (is_json (content_type_of req) || is_flatbuffer (content_type_of req))

  abbrev pub Readable : Request H → Type 0
  Readable req = (lacks_type req ≡ false) × ((body : Text) × (req.body ≡ ok body))

  fail_route-calls_handler :
      (route : RouteRequest) (code : Text) (e : FlatbedRouteError H) (flat : Bool)
      → calls_handler (fail_route route code e flat) ≡ false
  unfolding fail_route
  fail_route-calls_handler route code e flat = elim (Bool-cases (is_server_error e.status)) [
    | inl t ↦ simp (fail_route, t)
    | inr t ↦ simp (fail_route, t)
  ]

module _ {H C : Type 0} ⦃http : HttpLibrary H⦄ where
  -- There is no hook, or it accepts.
  abbrev pub Admitted : ServiceContext H C → RequestParts H → Type 0
  Admitted ctx parts =
      (ctx.before_request ≡ none)
      ⊎ ((hook : RequestParts H → Result (FlatbedRouteError H) Unit) × (ctx.before_request
            ≡ some hook)
          × (hook parts ≡ ok tt))

  module _ (ctx : ServiceContext H C) (req : Request H) (entry : RouteEntry H C)
      (parts : RequestParts H) where
    refused :
        (hook : RequestParts H → Result (FlatbedRouteError H) Unit) (e : FlatbedRouteError H)
        → ctx.before_request ≡ some hook
        → hook parts ≡ err e
        → Admitted ctx parts
        → ⊥
    refused hook e s a (inl n) = cc (n, s)
    refused hook e s a (inr (other, t, b)) =
        let same : some hook ≡ some other = sym s ∙ t in
        let here : hook ≡ other = cc same in
        let both : hook parts ≡ ok tt = ap (λ h. h parts) here ∙ b in cc (a, both)

    read_body-Readable : (calls_handler (read_body ctx req entry parts) ≡ true) ↔ Readable req
    unfolding read_body
    read_body-Readable = elim (Bool-cases (lacks_type req)) [
      | inl t ↦ fails (simp (read_body, t)) (λ (u, r). cc (u, t))
      | inr t ↦ elim (Result-cases req.body) [
        | inl (body, b) ↦ holds (simp (read_body, t, b)) (t, (body, b))
        | inr (e, b) ↦ fails (simp (read_body, t, b)) (λ (u, (body, r)). cc (b, r))
      ]
    ]

    handle_matched-Admitted :
        (calls_handler (handle_matched ctx req entry parts) ≡ true)
        ↔ (Admitted ctx parts × Readable req)
    unfolding handle_matched
    handle_matched-Admitted =
        let (to, from) = read_body-Readable in
        elim (Option-cases ctx.before_request) [
          | inl n ↦
              let same : calls_handler (handle_matched ctx req entry parts)
                  ≡ calls_handler (read_body ctx req entry parts) =
                simp (handle_matched, n) in
              ((λ h. (inl n, to (sym same ∙ h))), (λ (a, r). same ∙ from r))
          | inr (hook, s) ↦ elim (Result-cases (hook parts)) [
            | inl (u, a) ↦
                let same : calls_handler (handle_matched ctx req entry parts)
                    ≡ calls_handler (read_body ctx req entry parts) =
                  simp (handle_matched, s, a) in
                ((λ h. (inr (hook, s, a), to (sym same ∙ h))), (λ (x, r). same ∙ from r))
            | inr (e, a) ↦
                fails (simp (handle_matched, s, a) (fail_route-calls_handler _ _ e _))
                  (λ (x, r). refused hook e s a x)
          ]
        ]

  abbrev pub Reaches : ServiceContext H C → Request H → Type 0
  Reaches ctx req =
      (entry : RouteEntry H C) × (params : Params) × IsMatched ctx req entry params
      × Admitted ctx (request_parts req params)
      × Readable req

  calls_handler-Reaches :
      (ctx : ServiceContext H C) (req : Request H)
      → calls_handler (dispatch ctx req) ≡ true
      → Reaches ctx req
  calls_handler-Reaches ctx req h = elim (dispatch_cases ctx req) [
    | inl (r, b, d) ↦ cc (sym h ∙ ap calls_handler d)
    | inr (inl (b, r, d)) ↦ cc (sym h ∙ ap calls_handler d)
    | inr (inr (inl (b, r, m, d))) ↦ cc (sym h ∙ ap calls_handler d)
    | inr (inr (inr (entry, params, matched))) ↦
        let same = ap calls_handler (dispatch_matched ctx req entry params matched) in
        let (to, from) = handle_matched-Admitted ctx req entry (request_parts req params) in
        let (a, r) = to (sym same ∙ h) in (entry, params, matched, a, r)
  ]

  -- The handler of a route is called for a request exactly when no built-in endpoint takes it, the
  -- server is ready, a route matches, there is no hook or the hook accepts, a content type that is
  -- known comes with a method that has a body, and the body can be read.
  pub handler_called_iff :
      (ctx : ServiceContext H C) (req : Request H)
      → (calls_handler (dispatch ctx req) ≡ true) ↔ Reaches ctx req
  handler_called_iff ctx req = (
    calls_handler-Reaches ctx req,
    (λ (entry, params, matched, a, r).
        let (to, from) = handle_matched-Admitted ctx req entry (request_parts req params) in
        ap calls_handler (dispatch_matched ctx req entry params matched) ∙ from (a, r)),
  )
