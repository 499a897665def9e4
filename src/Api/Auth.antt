-- ===== src/Api/Auth.antt =====
-- src/api/auth.rs: the two checks before a request reaches a handler. The argon2 crate is a
-- parameter, and a handler is a function from the request and the state.
pub mod Laws
use v6proxy.Prelude.{
  Bool, true, false, Option, none, some, List, Result, ok, err, if◌then◌else◌, any,
}
use v6proxy.Text.{Text, codes, strip_prefix}
use v6proxy.Config.Net.{IpNets}
use v6proxy.Addr.Socket.{SocketAddr}

-- How `verify_password` ends.
pub data Verdict : Type 0 where
  matches differs verify_failed : Verdict

-- What the source uses of the argon2 crate: `PasswordHash::new` and `verify_password`.
pub record Argon2 : Type 1 where
  pub Hash : Type 0
  pub parse_hash : Text → Option Hash
  pub verify_password : Text → Hash → Verdict

pub data TokenError : Type 0 where
  bad_hash verify_error : TokenError

abbrev pub of_verdict : Verdict → Result TokenError Bool
of_verdict matches = ok true
of_verdict differs = ok false
of_verdict verify_failed = err verify_error

unfoldable pub verify_token : Argon2 → Text → Text → Result TokenError Bool
verify_token argon token hash = elim (argon.parse_hash hash) [
  | none ↦ err bad_hash
  | some parsed ↦ of_verdict (argon.verify_password token parsed)
]

-- The parts of a request that the checks read, and the rest. `authorization` is the header of that
-- name, if there is one and it is visible ASCII.
pub record Request (A : Type 0) : Type 0 where
  pub addr : SocketAddr
  pub authorization : Option Text
  pub rest : A

-- The answers of the checks: 403, and 401 with either text.
pub data Refusal : Type 0 where
  forbidden_ip missing_token invalid_token : Refusal

-- The text after `Bearer `.
unfoldable pub bearer : Option Text → Option Text
bearer none = none
bearer (some h) = strip_prefix (codes "Bearer ") h

module _ {B : Type 0} where
  unfoldable pub run_verified : Result Refusal B → Result TokenError Bool → Result Refusal B
  run_verified response (ok true) = response
  run_verified response (ok false) = err invalid_token
  run_verified response (err e) = err invalid_token

module _ (nets : IpNets) where
  -- `ParsedTokensConfig`
  pub record Tokens : Type 0 where
    pub admin_token_hash : Text
    pub admin_allowlist : List nets.Net

  -- A handler behind a check: its answer, or that of the check.
  module _ {A B : Type 0} (tokens : Tokens) where
    unfoldable pub ip_allowlist_middleware :
        (next : Request A → Result Refusal B) → Request A → Result Refusal B
    ip_allowlist_middleware next request =
        if any (λ net. nets.contains net request.addr.ip) tokens.admin_allowlist
        then next request
        else err forbidden_ip

    unfoldable pub token_middleware :
        Argon2 → (next : Request A → Result Refusal B) → Request A → Result Refusal B
    token_middleware argon next request = elim (bearer request.authorization) [
      | none ↦ err missing_token
      | some token ↦ run_verified (next request) (verify_token argon token tokens.admin_token_hash)
    ]
