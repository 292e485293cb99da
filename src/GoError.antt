-- ===== src/GoError.antt =====
-- Go errors as values: pkg/cloud/errors.go, with what the code uses of `fmt.Errorf` and `errors.As`.
use cluster_api_provider_clo.Prelude.{
  ℕ, String, ◌<>◌, Bool, true, false, Option, none, some, decimal,
}
use cluster_api_provider_clo.CloudSdk.{ApiError}

-- An SDK error, a plain message, `fmt.Errorf("text: %w", cause)`, or a `PermissionDeniedError`.
pub data Error : Type 0 where
  sdk : ApiError → Error
  plain : String → Error
  wrap : String → Error → Error
  permission_denied :
      (resource_type uuid : String) (status_code : ℕ) (user : String) → Error → Error

-- `err.Error()`
unfoldable pub error_text : Error → String
error_text (sdk e) = e.message
error_text (plain message) = message
error_text (wrap context cause) = context <> (": " <> error_text cause)
error_text (permission_denied resource_type uuid status_code user cause) =
    "permission denied: user "
    <> (user
        <> (" cannot access "
            <> (resource_type
                <> (" "
                    <> (uuid
                        <> (" (HTTP " <> (decimal status_code <> ("): " <> error_text cause))))))))

-- `IsPermissionDeniedError`: the error or one that it wraps.
unfoldable pub is_permission_denied : Error → Bool
is_permission_denied (sdk e) = false
is_permission_denied (plain message) = false
is_permission_denied (wrap context cause) = is_permission_denied cause
is_permission_denied (permission_denied resource_type uuid status_code user cause) = true

-- `GetPermissionDeniedError`: the outermost one of the chain.
pub get_permission_denied : Error → Option Error
get_permission_denied (sdk e) = none
get_permission_denied (plain message) = none
get_permission_denied (wrap context cause) = get_permission_denied cause
get_permission_denied (permission_denied resource_type uuid status_code user cause) =
    some (permission_denied resource_type uuid status_code user cause)
