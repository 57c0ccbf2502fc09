-- ===== src/Service/Branches.antt =====
-- service.rs: the branches of `dispatch`.
use flatbed.Base.{◌≡◌, ◌⊎◌, true, false, none, some, Bool-cases, Option-cases, inl, inr}
use flatbed.Http.{HttpLibrary, Response}
use flatbed.Router.{Params, match_route}
use flatbed.Service.Context.{Request, RouteEntry, ServiceContext, reply, is_ready}
use flatbed.Service.Endpoints.{builtin}
use flatbed.Service.Answering.{request_parts}
use flatbed.Service.Dispatch.{unmatched, not_ready, handle_matched, dispatch}

module _ {H C : Type 0} ⦃http : HttpLibrary H⦄ (ctx : ServiceContext H C) (req : Request H) where
  abbrev pub IsBuiltin : Type 0
  IsBuiltin =
      (r : Response H) × (builtin ctx req.method req.path ≡ some r) × (dispatch ctx req ≡ reply r)

  abbrev pub IsBooting : Type 0
  IsBooting =
      (builtin ctx req.method req.path ≡ none)
      × (is_ready ctx ≡ false)
      × (dispatch ctx req ≡ reply (not_ready ctx))

  abbrev pub IsUnmatched : Type 0
  IsUnmatched =
      (builtin ctx req.method req.path ≡ none)
      × (is_ready ctx ≡ true)
      × (match_route req.path req.method ctx.router ≡ none)
      × (dispatch ctx req ≡ reply (unmatched ctx req.method req.path))

  abbrev pub IsMatched : RouteEntry H C → Params → Type 0
  IsMatched entry params =
      (builtin ctx req.method req.path ≡ none)
      × (is_ready ctx ≡ true)
      × (match_route req.path req.method ctx.router ≡ some (entry, params))

  pub dispatch_matched :
      (entry : RouteEntry H C) (params : Params)
      → IsMatched entry params
      → dispatch ctx req ≡ handle_matched ctx req entry (request_parts req params)
  unfolding dispatch
  dispatch_matched entry params (b, r, m) = simp (dispatch, b, r, m)

  pub dispatch_cases :
      IsBuiltin
      ⊎ (IsBooting
          ⊎ (IsUnmatched ⊎ ((entry : RouteEntry H C) × (params : Params) × IsMatched entry params)))
  unfolding dispatch
  dispatch_cases = elim (Option-cases (builtin ctx req.method req.path)) [
    | inr (r, b) ↦ inl (r, b, simp (dispatch, b))
    | inl b ↦ elim (Bool-cases (is_ready ctx)) [
      | inr r ↦ inr (inl (b, r, simp (dispatch, b, r)))
      | inl r ↦ elim (Option-cases (match_route req.path req.method ctx.router)) [
        | inl m ↦ inr (inr (inl (b, r, m, simp (dispatch, b, r, m))))
        | inr ((entry, params), m) ↦ inr (inr (inr (entry, params, (b, r, m))))
      ]
    ]
  ]
