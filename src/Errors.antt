-- ===== src/Errors.antt =====
-- errors.go: the error codes, the structured error and the classification of error chains.
-- A message is kept in its parts: fixed text around a value, or a formatted instant.
pub mod Chain
use Prim.Native.String.{String}
use go_sdk.Prelude.{
  ℕ, ◌≡◌, refl, ◌↔◌, Bool, true, false, List, [], ◌∷◌, Option, none, some, arith, Text, Eq, text_eq,
  Dict, insert,
}

pub data ErrorCode : Type 0 where
  permission_denied lease_subset_violation job_not_found duplicate_key : ErrorCode
  agent_not_available agent_version_not_available cancelled timeout : ErrorCode
  resume_window_expired heartbeat_lost lease_expired budget_exhausted : ErrorCode
  invalid_request unauthenticated internal_error : ErrorCode

pub code_discrete : Discrete ErrorCode
code_discrete = hlevel

pub data Message : Type 0 where
  says : String → Message
  about : String → Text → String → Message
  about_two : String → Text → String → Text → Message
  at_time : String → ℕ → Message

-- `Error` without its cause, which `GoError` holds.
pub record Error : Type 0 where
  pub code : ErrorCode
  pub message : Message
  pub retryable : Bool
  pub details : Dict Text Text

sentinel : ErrorCode → String → Bool → Error
sentinel c m r = record { code = c; message = says m; retryable = r; details = [] }

-- The sentinel values: the one for each code.
unfoldable pub err : ErrorCode → Error
unfolding sentinel
err permission_denied = sentinel permission_denied "permission denied" false
err lease_subset_violation = sentinel lease_subset_violation "lease subset violation" false
err job_not_found = sentinel job_not_found "job not found" false
err duplicate_key = sentinel duplicate_key "duplicate idempotency key" false
err agent_not_available = sentinel agent_not_available "agent not available" false
err agent_version_not_available =
    sentinel agent_version_not_available "agent version not available" false
err cancelled = sentinel cancelled "cancelled" false
err timeout = sentinel timeout "timeout" false
err resume_window_expired = sentinel resume_window_expired "resume window expired" false
err heartbeat_lost = sentinel heartbeat_lost "heartbeat lost" true
err lease_expired = sentinel lease_expired "lease expired" false
err budget_exhausted = sentinel budget_exhausted "budget exhausted" false
err invalid_request = sentinel invalid_request "invalid request" false
err unauthenticated = sentinel unauthenticated "unauthenticated" false
err internal_error = sentinel internal_error "internal error" true

unfoldable pub with_message : Error → Message → Error
with_message e m = record e { message = m }

-- The loop of `WithDetails` over the new details, onto a copy of the old ones.
pub merge : Dict Text Text → Dict Text Text → Dict Text Text
merge old [] = old
merge old ((k, v) ∷ new) = merge (insert k v old) new

unfoldable pub with_details : Error → Dict Text Text → Error
unfolding merge
with_details e new = record e { details = merge (merge [] e.details) new }

unfoldable pub default_retryable : ErrorCode → Bool
default_retryable internal_error = true
default_retryable heartbeat_lost = true
default_retryable _ = false

unfoldable pub newf : ErrorCode → Message → Error
unfolding default_retryable
newf c m = record { code = c; message = m; retryable = default_retryable c; details = [] }

-- A non-nil Go error: a structured one, alone or around its cause, or one of another package, alone
-- or around the error that it wraps.
pub data GoError : Type 0 where
  structured : Error → GoError
  caused : Error → GoError → GoError
  foreign : Message → GoError
  wrapped : Message → GoError → GoError

unfoldable pub with_cause : Error → GoError → GoError
with_cause e cause = caused e cause

-- `errors.As(err, &e)` at an `*Error`: the first one on the chain.
unfoldable pub as_error : GoError → Option Error
as_error (structured e) = some e
as_error (caused e cause) = some e
as_error (foreign m) = none
as_error (wrapped m inner) = as_error inner

code_or_internal : Option Error → ErrorCode
code_or_internal none = internal_error
code_or_internal (some e) = e.code

-- `Code`, with `none` for nil and for the empty code.
unfoldable pub code_of : Option GoError → Option ErrorCode
unfolding code_or_internal
code_of none = none
code_of (some err) = some (code_or_internal (as_error err))

retryable_or_true : Option Error → Bool
retryable_or_true none = true
retryable_or_true (some e) = e.retryable

unfoldable pub is_retryable : Option GoError → Bool
unfolding retryable_or_true
is_retryable none = false
is_retryable (some err) = retryable_or_true (as_error err)

same_code : ErrorCode → Option Error → Bool
same_code c none = false
same_code c (some e) = elim (code_discrete c e.code) [ yes _ ↦ true | no _ ↦ false ]

-- The method `Is`.
unfoldable pub error_is : Error → GoError → Bool
unfolding same_code
error_is e target = same_code e.code (as_error target)

-- A sentinel with a message of its own, the form in which the SDK returns its errors.
abbrev pub fail : ErrorCode → Message → Error
fail c m = with_message (err c) m

pub fail-code : (c : ErrorCode) (m : Message) → (fail c m).code ≡ c
unfolding err with_message
fail-code permission_denied m = refl
fail-code _ m = refl

-- `errors.Is(err, target)` for a structured target: the chain is walked, causes included.
unfoldable pub errors_is : GoError → Error → Bool
errors_is (structured e) target = error_is e (structured target)
errors_is (caused e cause) target = elim (error_is e (structured target)) [
  | true ↦ true
  | false ↦ errors_is cause target
]
errors_is (foreign m) target = false
errors_is (wrapped m inner) target = errors_is inner target
