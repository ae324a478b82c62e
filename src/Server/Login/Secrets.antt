-- ===== src/Server/Login/Secrets.antt =====
-- Where a session's cookie is set, and what signing out ends.
use riscv_exam_computer.Base.{◌≡◌, refl, ◌∙◌, false, Option-cases, inl, inr, str_eq_refl}
use riscv_exam_computer.SebFile.Values.{Ext}
use riscv_exam_computer.Fleet.Model.{Instant}
use riscv_exam_computer.Auth.Digests.{digest}
use riscv_exam_computer.Auth.Sessions.Laws.{logout-session_valid}
use riscv_exam_computer.Server.State.{App}
use riscv_exam_computer.Server.Http.{Request, session_token}
use riscv_exam_computer.Server.Guard.{signed_in}
use riscv_exam_computer.Server.Login.{logout}

module _ (ext : Ext) where
  -- After signing out, a request with the same cookies is not signed in, at any time.
  logout-signed_in :
      (a : App) (req : Request) (now : Instant)
      → signed_in ext (logout ext a req).0.auth req.headers now ≡ false
  unfolding logout signed_in
  logout-signed_in a req now = elim (Option-cases (session_token req.headers)) [
    | inl e ↦ rw (logout, e) (rw (signed_in, e) refl)
    | inr (t, e) ↦
        rw (logout, e, signed_in, e)
          (logout-session_valid ext a.auth t t now ∙ rw (str_eq_refl (digest ext t)) refl)
  ]
