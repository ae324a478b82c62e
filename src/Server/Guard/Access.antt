-- ===== src/Server/Guard/Access.antt =====
-- What gets past the guard.
use riscv_exam_computer.Base.{
  ◌≡◌, ◌↔◌, refl, ◌∙◌, true, false, not, ◌&&◌, ◌||◌, none, some, arith, if◌then◌else◌, Bool-cases,
  inl, inr,
}
use riscv_exam_computer.SebFile.Values.{Ext}
use riscv_exam_computer.Fleet.Model.{Instant}
use riscv_exam_computer.Server.State.{App}
use riscv_exam_computer.Server.Http.{Request, Response, with_headers}
use riscv_exam_computer.Server.Guard.{
  is_public, is_get, checks_origin, origin_allowed, signed_in, refusal, guard,
}

pub with_headers-status : (res : Response) → (with_headers res).status ≡ res.status
unfolding with_headers
with_headers-status res = ground arith

module _ (ext : Ext) where
  -- A request is let through exactly when its origin is allowed, if it is checked, and its path is
  -- public or its session open.
  refusal-none_iff :
      (a : App) (req : Request) (now : Instant)
      → (refusal ext a req now ≡ none) ↔ (
          ((checks_origin req && not (origin_allowed a.allowed_origins req.headers)) ≡ false)
          × ((is_public req.path || signed_in ext a.auth req.headers now) ≡ true))
  unfolding refusal
  refusal-none_iff a req now = ground arith

  refused_status :
      (a : App) (req : Request) (now : Instant)
      → is_public req.path ≡ false
      → signed_in ext a.auth req.headers now ≡ false
      → (res : Response) × (refusal ext a req now ≡ some res)
        × (res.status ≡ (
            if checks_origin req && not (origin_allowed a.allowed_origins req.headers)
            then 403
            else if is_get req.method
            then 303
            else 401))
  unfolding refusal
  refused_status a req now p s =
      elim (Bool-cases (checks_origin req && not (origin_allowed a.allowed_origins req.headers))) [
        | inl e ↦ rw (refusal, e) (_, refl, refl)
        | inr e ↦ elim (Bool-cases (is_get req.method)) [
          | inl g ↦ rw (refusal, e, p, s, g) (_, refl, refl)
          | inr g ↦ rw (refusal, e, p, s, g) (_, refl, refl)
        ]
      ]

  -- A request for a path that is not public, without an open session, changes nothing, whatever
  -- the route behind the guard does: the status is 403 if its origin is refused, and otherwise 303
  -- for a GET and 401 for any other method.
  pub guard-refused :
      (a : App) (req : Request) (now : Instant) (next : App → App × Response)
      → is_public req.path ≡ false
      → signed_in ext a.auth req.headers now ≡ false
      → ((guard ext a req now next).0 ≡ a)
        × ((guard ext a req now next).1.status ≡ (
            if checks_origin req && not (origin_allowed a.allowed_origins req.headers)
            then 403
            else if is_get req.method
            then 303
            else 401))
  unfolding guard
  guard-refused a req now next p s =
      let (res, refused, status) = refused_status a req now p s in
      rw (guard, refused) (refl, with_headers-status res ∙ status)
