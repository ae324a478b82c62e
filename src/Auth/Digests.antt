-- ===== src/Auth/Digests.antt =====
-- The state of `Auth`, password digests, and the agent token.
use riscv_exam_computer.Base.{
  ℕ, Bool, true, false, not, Option, none, some, List, [], null, opt_map, opt_bind, opt_filter,
  is_some, Str, txt, str_eq, strip_prefix, trim, utf8,
}
use riscv_exam_computer.SebFile.Values.{Ext}
use riscv_exam_computer.Fleet.Model.{Instant}

pub record Limiter : Type 0 where
  pub per_client : List (Str × List Instant)
  pub global : List Instant

pub record Auth : Type 0 where
  pub password : List ℕ
  pub agent_token : Option (List ℕ)
  pub sessions : List (List ℕ × Instant)
  pub limiter : Limiter

pub data LoginError : Type 0 where
  bad_password rate_limited : LoginError

module _ (ext : Ext) where
  unfoldable pub digest : Str → List ℕ
  digest s = ext.sha256 (utf8 s)

  unfoldable pub new : Str → Option Str → Auth
  unfolding digest
  new password agent_token = record {
    password = digest password;
    agent_token = opt_map digest (opt_filter (λ t. not (null t)) agent_token);
    sessions = [];
    limiter = record { per_client = []; global = [] };
  }

  -- `ct_eq` of two digests is their equality.
  unfoldable pub bearer_matches : List ℕ → Option Str → Bool
  unfolding digest str_eq
  bearer_matches expected authorization =
      elim (opt_bind authorization (λ h. strip_prefix h (txt "Bearer "))) [
        | none ↦ false
        | some token ↦ str_eq (digest (trim token)) expected
      ]

  unfoldable pub agent_allowed : Auth → Option Str → Bool
  unfolding bearer_matches
  agent_allowed a authorization = elim a.agent_token [
    | none ↦ true
    | some expected ↦ bearer_matches expected authorization
  ]

unfoldable pub agent_token_required : Auth → Bool
agent_token_required a = is_some a.agent_token
