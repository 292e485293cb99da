-- ===== src/Auth/Types.antt =====
-- The configuration, the state and the requests of the impersonation client. Times and durations
-- are nanoseconds; the time 0 is the zero time of Go.
use cluster_api_provider_clo.Prelude.{ℕ, ◌*◌, String, ℤ, Option, List, Action, Result}
use cluster_api_provider_clo.Prelude.Dict.{Dict}

abbrev pub second : ℕ
second = 1000000000

abbrev pub minute : ℕ
minute = 60 * second

-- `ImpersonationConfig`
pub record ImpersonationConfig : Type 0 where
  pub oauth_url : String
  pub client_id : String
  pub client_secret : String
  pub token_expiry_buffer : ℕ
  pub http_timeout : ℕ

-- `CachedToken`
pub record CachedToken : Type 0 where
  pub token : String
  pub expires_at : ℕ
  pub user_email : String
  pub region : String

-- `ImpersonationClient`, less its HTTP client and its mutexes.
pub record ImpersonationClient : Type 0 where
  pub config : ImpersonationConfig
  pub sa_token : String
  pub sa_token_expires_at : ℕ
  pub rpt_token : String
  pub rpt_token_expires_at : ℕ
  pub token_cache : Dict CachedToken

-- The body of a request: the values of a form, or `impersonateRequest`.
pub data Body : Type 0 where
  form : List (String × String) → Body
  impersonate_body : String → String → Body

pub record Request : Type 0 where
  pub url : String
  pub authorization : Option String
  pub body : Body

-- A response, and what reading its body gives.
pub record Response : Type 0 where
  pub status : ℕ
  pub body : Result String String

-- `tokenResponse` and `impersonateResponse`, less the fields that the code does not read.
pub record TokenResponse : Type 0 where
  pub access_token : String
  pub expires_in : ℤ

-- The HTTP client, the clock and the JSON decoder. Time passes in the calls; `new_request` is the
-- test of `http.NewRequestWithContext`.
pub record OauthApi (W : Type 0) : Type 0 where
  pub new_request : Request → Result String (Unit {0})
  pub now : W → ℕ
  pub do_request : Request → Action W String Response
  pub decode_token : String → Result String TokenResponse
