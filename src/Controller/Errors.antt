-- ===== src/Controller/Errors.antt =====
-- internal/controller/errors.go. An error is a chain of wrappers round a leaf, whose text is given;
-- `errors.As` looks through the chain for a type.
use helios_lb.Prelude.{Bool, true, false, Option, none, some, ◌++◌, Text, codes}

pub data Error : Type 0 where
  -- an error of another package or of `fmt.Errorf`, by its text
  leaf : Text → Error
  -- `RetryableError` and `PermanentError`, with `Reason` and `Err`
  retryable permanent : Text → Error → Error

-- `Error()`.
unfoldable pub error_text : Error → Text
error_text (leaf t) = t
error_text (retryable reason e) = reason ++ (codes ": " ++ error_text e)
error_text (permanent reason e) = reason ++ (codes ": " ++ error_text e)

-- `Unwrap()`, where the type has it.
unfoldable pub unwrap : Error → Option Error
unwrap (leaf t) = none
unwrap (retryable reason e) = some e
unwrap (permanent reason e) = some e

unfoldable pub as_retryable : Error → Bool
as_retryable (leaf t) = false
as_retryable (retryable reason e) = true
as_retryable (permanent reason e) = as_retryable e

unfoldable pub as_permanent : Error → Bool
as_permanent (leaf t) = false
as_permanent (retryable reason e) = as_permanent e
as_permanent (permanent reason e) = true

unfoldable pub is_retryable : Option Error → Bool
unfolding as_retryable
is_retryable none = false
is_retryable (some e) = as_retryable e

unfoldable pub is_permanent : Option Error → Bool
unfolding as_permanent
is_permanent none = false
is_permanent (some e) = as_permanent e
