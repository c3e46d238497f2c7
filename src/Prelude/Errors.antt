-- ===== src/Prelude/Errors.antt =====
-- What code asks of an exception: its class, and what the class says.
use mathlib.Core.Bool.{Bool, true, false}
use mathlib.Core.Option.{Option, none, some}
use openevent_modules_im.Prelude.Results.{
  decode_error, Error, error, caused_by, Class, rpc_error, publish_failed, StatusCode,
}

-- `error.code()` of an `RpcError`, and `none` for another class. The first `none` is no `RpcError`.
unfoldable pub class_code : Class → Option (Option StatusCode)
class_code (rpc_error code) = some code
class_code c = none

unfoldable pub error_class : Error → Class
error_class (error c) = c
error_class (caused_by c e) = c

unfoldable pub class_retry_safe : Class → Bool
class_retry_safe (publish_failed retry_safe outcome_unknown) = retry_safe
class_retry_safe c = false

unfoldable pub is_class_decode_error : Class → Bool
is_class_decode_error decode_error = true
is_class_decode_error c = false

-- `isinstance(e, (UnicodeDecodeError, json.JSONDecodeError))`
unfoldable pub is_decode_error : Error → Bool
is_decode_error e = is_class_decode_error (error_class e)

-- `isinstance(e, PublishFailedError) and e.retry_safe`
unfoldable pub is_retry_safe : Error → Bool
is_retry_safe e = class_retry_safe (error_class e)

unfoldable pub is_class_publish_failed : Class → Bool
is_class_publish_failed (publish_failed retry_safe outcome_unknown) = true
is_class_publish_failed c = false

-- `isinstance(e, PublishFailedError)`
unfoldable pub is_publish_failed : Error → Bool
is_publish_failed e = is_class_publish_failed (error_class e)

unfoldable pub is_class_unknown : Class → Bool
is_class_unknown (publish_failed retry_safe outcome_unknown) = outcome_unknown
is_class_unknown c = false

-- `isinstance(e, PublishFailedError) and e.outcome_unknown`
unfoldable pub is_outcome_unknown : Error → Bool
is_outcome_unknown e = is_class_unknown (error_class e)
