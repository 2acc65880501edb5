-- ===== src/Errors/Chain.antt =====
-- Classification of an error by the first structured error on its chain.
use go_sdk.Prelude.{
  ◌≡◌, refl, [], ◌∷◌, true, Option, none, some, arith, Text, text_eq, Dict, lookup, insert,
  lookup-insert,
}
use go_sdk.Errors.{
  ErrorCode, permission_denied, Message, Error, GoError, structured, caused, foreign, wrapped,
  as_error, code_of, is_retryable, newf, err, error_is, errors_is, merge, with_details,
}

error_is-same : (d target : Error) → d.code ≡ target.code → error_is d (structured target) ≡ true
unfolding error_is as_error
error_is-same d target c = ground arith

-- `errors.Is` against a sentinel holds whenever the code that `Code` reports, from a structured
-- error on the chain, is the sentinel's.
pub errors_is-code_of :
    (chain : GoError) (e target : Error)
    → as_error chain ≡ some e
    → code_of (some chain) ≡ some target.code
    → errors_is chain target ≡ true
unfolding as_error errors_is code_of
errors_is-code_of (structured d) e target h c = error_is-same d target (ground arith)
errors_is-code_of (caused d cause) e target h c =
    rw (error_is-same d target (ground arith), errors_is) refl
errors_is-code_of (foreign m) e target h c = cc
errors_is-code_of (wrapped m inner) e target h c = errors_is-code_of inner e target h c

-- The retry hint of an error made by `Newf` is that of the sentinel with its code.
pub newf-retryable :
    (c : ErrorCode) (m : Message)
    → is_retryable (some (structured (newf c m))) ≡ is_retryable (some (structured (err c)))
unfolding is_retryable as_error newf err
newf-retryable permission_denied m = refl
newf-retryable _ m = refl

abbrev pub override : Option Text → Option Text → Option Text
override none old = old
override (some v) old = some v

lookup-merge :
    (k : Text) (base new : Dict Text Text)
    → lookup k (merge base new) ≡ override (lookup k (merge [] new)) (lookup k base)
unfolding merge lookup
lookup-merge k base [] = refl
lookup-merge k base ((j, v) ∷ new) = ground (
  arith,
  lookup-merge k (insert j v base) new,
  lookup-merge k (insert j v []) new,
  lookup-insert j k v base,
  lookup-insert j k v [],
)

-- `WithDetails` keeps the code, the message and the retry hint, and its details are those of the
-- receiver overridden by the new ones.
pub with_details_fields :
    (e : Error) (new : Dict Text Text) (k : Text)
    → ((with_details e new).code ≡ e.code)
      × ((with_details e new).message ≡ e.message)
      × ((with_details e new).retryable ≡ e.retryable)
      × (lookup k (with_details e new).details
          ≡ override (lookup k (merge [] new)) (lookup k (merge [] e.details)))
unfolding with_details
with_details_fields e new k = (refl, refl, refl, lookup-merge k (merge [] e.details) new)
