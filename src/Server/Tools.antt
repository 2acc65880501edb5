-- ===== src/Server/Tools.antt =====
-- server/jobcontext.go: the tool events of a job, by the bodies that they send, and the checks of
-- messages/event.go on the bodies of events.
use go_sdk.Prelude.{
  ℕ, ◌≡◌, ◌≢◌, ◌↔◌, refl, Bool, true, false, not, ◌&&◌, [], ◌∷◌, Option, none, some, Text, text_beq,
  text_eq, text_beq_iff, codes, ltb, nat_beq, if◌then◌else◌, length, arith,
}
use go_sdk.Errors.{
  Error, ErrorCode, GoError, fail, invalid_request, internal_error, says, code_of, is_retryable,
}
use go_sdk.Server.World.{Body, ErrorText, plain, printed, World}
use go_sdk.Server.Emit.{emit_event}
use go_sdk.Server.Emit.Metric.{JobIds}

pub record ToolError : Type 0 where
  pub code : Option ErrorCode
  pub message : ErrorText
  pub retryable : Bool

-- A nil result is the empty text.
pub record ToolResultBody : Type 0 where
  pub call_id : Text
  pub result : Text
  pub error : Option ToolError

is_set : Option ToolError → Bool
is_set none = false
is_set (some e) = true

same_flag : Bool → Bool → Bool
same_flag true b = b
same_flag false b = not b

-- `ToolResultBody.Validate`, `none` for nil.
unfoldable pub validate_tool_result : ToolResultBody → Option Error
unfolding is_set same_flag
validate_tool_result b =
    let has_result : Bool = ltb 0 (length b.result) && not (text_beq b.result (codes "null")) in
    if same_flag has_result (is_set b.error)
    then some
        (fail invalid_request (says "tool_result body must carry exactly one of result or error"))
    else none

pub record ProgressBody : Type 0 where
  pub current : ℕ
  pub total : ℕ
  pub units : Text
  pub message : Text

-- `ProgressBody.Validate`
unfoldable pub validate_progress : ProgressBody → Option Error
validate_progress b =
    if not (nat_beq b.total 0) && ltb b.total b.current
    then some (fail invalid_request (says "progress current must be <= total when total is set"))
    else none

-- The body that `ToolResult` sends, of a result that json.Marshal turns into a text or refuses.
unfoldable pub tool_result_body : Text → Option Text → ToolResultBody
tool_result_body call_id none = record {
  call_id = call_id;
  result = [];
  error = some (record {
    code = some internal_error;
    message = plain (says "tool result not serializable");
    retryable = false;
  });
}
tool_result_body call_id (some raw) = record { call_id = call_id; result = raw; error = none }

-- The body that `ToolError` sends, of an error that is not nil.
unfoldable pub tool_error_body : Text → GoError → ToolResultBody
tool_error_body call_id e = record {
  call_id = call_id;
  result = [];
  error =
      some (record {
        code = code_of (some e);
        message = printed e;
        retryable = is_retryable (some e);
      });
}

-- The events, with json.Marshal on the body a parameter.
module _ (marshal_body : ToolResultBody → Option Body) where
  unfoldable pub tool_result : World → ℕ → JobIds → Text → Option Text → World
  tool_result w now ids call_id result =
      emit_event w now ids.session_id ids.job_id (codes "tool_result")
        (marshal_body (tool_result_body call_id result))

  unfoldable pub tool_error : World → ℕ → JobIds → Text → GoError → World
  tool_error w now ids call_id e =
      emit_event w now ids.session_id ids.job_id (codes "tool_result")
        (marshal_body (tool_error_body call_id e))

valid_raw :
    (raw : Text)
    → ((ltb 0 (length raw) && not (text_beq raw (codes "null"))) ≡ true)
      ↔ ((raw ≢ []) × (raw ≢ codes "null"))
valid_raw [] = ground arith
valid_raw (c ∷ raw) = ground (arith, text_beq_iff (c ∷ raw) (codes "null"))

-- A body of ToolResult passes the check of its own kind exactly if the result does not marshal, or
-- marshals to a text that is not empty and is not null. So the result nil, whose text is null, makes
-- a body that the check refuses. A body of ToolError always passes.
pub validate_tool_result-bodies :
    (call_id : Text) (result : Option Text) (e : GoError)
    → ((validate_tool_result (tool_result_body call_id result) ≡ none)
        ↔ ((result ≢ some []) × (result ≢ some (codes "null"))))
      × (validate_tool_result (tool_error_body call_id e) ≡ none)
unfolding validate_tool_result tool_result_body tool_error_body
validate_tool_result-bodies call_id none e = (ground arith, refl)
validate_tool_result-bodies call_id (some raw) e = (ground (arith, valid_raw raw), refl)
