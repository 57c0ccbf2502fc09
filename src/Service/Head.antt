-- ===== src/Service/Head.antt =====
-- service.rs: HEAD answers what GET would, where no route is declared.
use flatbed.Base.{
  ◌≡◌, refl, ap, ◌∙◌, none, some, [], length, Text, codes, Option-cases, Bool-cases, to_uppercase,
  Any, inl, inr,
}
use flatbed.Http.{HttpLibrary}
use flatbed.Router.{RouterNode, match_route, get_allowed_methods}
use flatbed.Router.Allowed.{get_allowed_methods_iff}
use flatbed.Service.Context.{Request, ServiceContext, is_ready}
use flatbed.Service.Endpoints.{
  builtin, handle_splash_endpoint, handle_telemetry_endpoint, handle_openapi_endpoint,
  handle_schema_endpoint,
}
use flatbed.Service.Answering.{strip_body_for_head}
use flatbed.Service.Dispatch.{unmatched, dispatch, handle_request}

match_route-none :
    {A : Type 0} (path method : Text) (root : RouterNode A)
    → get_allowed_methods path root ≡ []
    → match_route path method root ≡ none
match_route-none path method root e = elim (Option-cases (match_route path method root)) [
  | inl n ↦ n
  | inr (found, s) ↦
      let (to, from) = get_allowed_methods_iff path method root in
      let h : Any (λ k. k ≡ to_uppercase method) [] = rw e at (to (rw s refl)) in absurd h
]

abbrev pub with_method : {H : Type 0} → Text → Request H → Request H
with_method method req = record req { method = method }

module _ {H C : Type 0} ⦃http : HttpLibrary H⦄ where
  -- The endpoints and the search for a file do not tell the two methods apart.
  builtin_head :
      (ctx : ServiceContext H C) (path : Text)
      → builtin ctx (codes "HEAD") path ≡ builtin ctx (codes "GET") path
  unfolding builtin handle_splash_endpoint handle_telemetry_endpoint handle_openapi_endpoint
      handle_schema_endpoint
  builtin_head ctx path = refl

  unmatched_head :
      (ctx : ServiceContext H C) (path : Text)
      → unmatched ctx (codes "HEAD") path ≡ unmatched ctx (codes "GET") path
  unfolding unmatched
  unmatched_head ctx path = refl

  dispatch_unrouted :
      (ctx : ServiceContext H C) (req : Request H)
      → get_allowed_methods req.path ctx.router ≡ []
      → dispatch ctx (with_method (codes "HEAD") req) ≡ dispatch ctx (with_method (codes "GET") req)
  unfolding dispatch
  dispatch_unrouted ctx req e =
      let same = builtin_head ctx req.path in
      let head = match_route-none req.path (codes "HEAD") ctx.router e in
      let get = match_route-none req.path (codes "GET") ctx.router e in
      elim (Option-cases (builtin ctx (codes "GET") req.path)) [
        | inr (r, b) ↦ simp (dispatch, same, b)
        | inl b ↦ elim (Bool-cases (is_ready ctx)) [
          | inr r ↦ simp (dispatch, same, b, r)
          | inl r ↦ simp (dispatch, same, b, r, head, get, unmatched_head ctx req.path)
        ]
      ]

  -- Where no method is allowed for a path in the router, HEAD is answered with the status of GET,
  -- with no body, and with a content-length that is the length of the body of GET.
  pub handle_request_head :
      (ctx : ServiceContext H C) (req : Request H)
      → get_allowed_methods req.path ctx.router ≡ []
      → let head = (handle_request ctx (with_method (codes "HEAD") req)).response in
        let get = (handle_request ctx (with_method (codes "GET") req)).response in
        (head.status ≡ get.status)
        × (head.body ≡ [])
        × (http.get (codes "content-length") head.headers
            ≡ some (http.number_value (length get.body)))
  unfolding handle_request strip_body_for_head
  handle_request_head ctx req e =
      let same = dispatch_unrouted ctx req e in
      let head = (dispatch ctx (with_method (codes "HEAD") req)).response in
      (
        ap (λ a. a.response.status) same,
        refl,
        http.get-insert (codes "content-length") (http.number_value (length head.body)) head.headers
            ∙ ap (λ a. some (http.number_value (length a.response.body))) same,
      )
