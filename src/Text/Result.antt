-- ===== src/Text/Result.antt =====
-- The results of calls that can fail with a message.
use codesight.Prelude.{◌++◌}
use codesight.Text.{Text}

-- A value, or the message of an error.
pub data Result (A : Type 0) : Type 0 where
  ok : A → Result A
  error : Text → Result A

-- The next step takes the value; an error ends the function.
unfoldable pub and_then : {A B : Type 0} → Result A → (A → Result B) → Result B
and_then (ok a) next = next a
and_then (error message) next = error message

-- An error is wrapped: the text goes in front of its message.
abbrev pub wrap : {A : Type 0} → Text → Result A → Result A
wrap prefix (ok a) = ok a
wrap prefix (error message) = error (prefix ++ message)
