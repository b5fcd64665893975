-- ===== src/Review.antt =====
-- packages/coding-agent/src/llm: finalSafetyReview.js, and sanitizeContext.js in the child Context,
-- azureClient.js in Azure.
-- A reviewer is a function from the context to what its `review` resolves to, `none` where it throws.
pub mod Context
pub mod Laws
pub mod Azure
pub mod Cautious
mod Tests
use monad_hackathon.Codes.{Code, llm_safety_blocked, llm_safety_unavailable}
use monad_hackathon.Js.{Value, get, obj, str}
use monad_hackathon.Prelude.{
  Bool, Option, String, false, if◌then◌else◌, none, some, str_eq, suc, to_lower, true, zero, ℕ,
}

abbrev pub Reviewer : Type 0
Reviewer = Value → Option Value

pub data ReviewVerdict : Type 0 where
  safe unsafe unavailable : ReviewVerdict

pub record LlmReview : Type 0 where
  pub ran : Bool
  pub verdict : ReviewVerdict
  pub reason_redacted : String
  pub error_code : Option Code

-- `result && result[name]`, where it is a text.
unfoldable pub text_field : String → Value → Option String
unfolding get
text_field name (obj fs) = elim (get name fs) [ str s ↦ some s | _ ↦ none ]
text_field name v = none

-- `s.slice(0, n)`
unfoldable pub slice : ℕ → String → String
slice zero s = ""
slice (suc n) String.[] = ""
slice (suc n) (String.◌∷◌ c s) = String.◌∷◌ c (slice n s)

abbrev text_or_empty : Option String → String
text_or_empty none = ""
text_or_empty (some s) = s

lowered : Option String → String
unfolding to_lower
lowered none = ""
lowered (some s) = to_lower s

judged : Option String → String → LlmReview
unfolding lowered
judged spoken reason_text =
    let verdict = lowered spoken in
    if str_eq verdict "safe"
    then record { ran = true; verdict = safe; reason_redacted = reason_text; error_code = none }
    else if str_eq verdict "unsafe"
    then record {
      ran = true;
      verdict = unsafe;
      reason_redacted = reason_text;
      error_code = some llm_safety_blocked;
    }
    else record {
      ran = true;
      verdict = unsafe;
      reason_redacted = "ambiguous verdict";
      error_code = some llm_safety_blocked;
    }

reviewed : Option Value → LlmReview
unfolding judged text_field slice
reviewed none = record {
  ran = true;
  verdict = unavailable;
  reason_redacted = "reviewer error";
  error_code = some llm_safety_unavailable;
}
reviewed (some result) =
    judged (text_field "verdict" result) (slice 280 (text_or_empty (text_field "reason" result)))

-- The client, or else the one that the environment configures; `none` where there is none.
unfoldable pub final_safety_review : Option Reviewer → Option Reviewer → Value → LlmReview
unfolding reviewed
final_safety_review (some review) from_env context = reviewed (review context)
final_safety_review none (some review) context = reviewed (review context)
final_safety_review none none context = record {
  ran = false;
  verdict = unavailable;
  reason_redacted = "reviewer unavailable";
  error_code = some llm_safety_unavailable;
}
