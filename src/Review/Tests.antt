-- ===== src/Review/Tests.antt =====
-- Reviews by concrete reviewers, and the theorems at them.
use monad_hackathon.Js.{Fields, Value, arr, cons, end, field, nil, null, obj, str}
use monad_hackathon.Prelude.{
  List, Option, String, [], false, none, refl, some, to_lower, true, ◌↔◌, ◌∷◌, ◌≡◌,
}
use monad_hackathon.Review.{ReviewVerdict, Reviewer, final_safety_review, safe}
use monad_hackathon.Review.Azure.{AzureResponse, create_azure_client_from_env}
use monad_hackathon.Review.Cautious.{IsAsked, azure_review-IsAsked}
use monad_hackathon.Review.Context.{build_llm_context, strip_secrets}
use monad_hackathon.Review.Context.Clean.{IsClean, build_llm_context-IsClean}
use monad_hackathon.Review.Laws.{SaysSafe, answer, final_safety_review-safe_iff}
use monad_hackathon.ToolSemantics.Registry.{get_balance}

abbrev calm : Reviewer
calm context = some (obj (field "verdict" (str "SAFE") (field "reason" (str "ok") end)))

abbrev broken : Reviewer
broken context = none

-- The verdict is read up to case; an error and a missing reviewer veto.
review_runs :
    ((final_safety_review (some calm) none null).verdict ≡ safe)
    × ((final_safety_review (some broken) (some calm) null).verdict ≡ ReviewVerdict.unavailable)
    × ((final_safety_review none none null).ran ≡ false)
unfolding final_safety_review to_lower
review_runs = (refl, refl, refl)

final_safety_review-safe_iff_example :
    ((final_safety_review (some calm) none null).verdict ≡ safe)
    ↔ SaysSafe (answer (some calm) none null)
final_safety_review-safe_iff_example = final_safety_review-safe_iff (some calm) none null

abbrev wallet_args : Fields
wallet_args = field "to" (str "0xaa") (field "opts" (obj (field "Private-Key" (str "0x1") end)) end)

-- The key deep in the arguments is hidden.
strip_run :
    strip_secrets 0 (obj wallet_args)
    ≡ obj (
        field "to"
          (str "0xaa")
          (field "opts" (obj (field "Private-Key" (str "[redacted]") end)) end))
unfolding strip_secrets to_lower
strip_run = refl

build_llm_context-IsClean_example :
    IsClean (build_llm_context "get_balance" get_balance wallet_args none [] end none)
build_llm_context-IsClean_example =
    build_llm_context-IsClean "get_balance" get_balance wallet_args none [] end none

-- A service that answers with a verdict.
abbrev service : String → String → Value → Option AzureResponse
service url api_key request = some (record {
  ok = true;
  body = some (
      obj (
        field "choices"
          (arr (cons (obj (field "message" (obj (field "content" (str "safe") end)) end)) nil))
          end));
})

-- Every content parses to an object with the content for its verdict.
abbrev as_verdict : String → Option Value
as_verdict s = some (obj (field "verdict" (str s) end))

abbrev azure_env : List (String × String)
azure_env = ("AZURE_OPENAI_ENDPOINT", "https://a.example//") ∷ ("AZURE_OPENAI_API_KEY", "k") ∷ []

abbrev unchanged : String → String
unchanged s = s

azure_run :
    (final_safety_review none
      (create_azure_client_from_env service as_verdict unchanged azure_env)
      null).verdict
    ≡ safe
unfolding final_safety_review create_azure_client_from_env to_lower
azure_run = refl

azure_review-IsAsked_example : IsAsked service as_verdict unchanged azure_env null
azure_review-IsAsked_example =
    azure_review-IsAsked service as_verdict unchanged azure_env null azure_run

-- Without a key there is no reviewer.
keyless_run :
    create_azure_client_from_env service as_verdict unchanged
      (("AZURE_OPENAI_ENDPOINT", "https://a.example") ∷ [])
    ≡ none
unfolding create_azure_client_from_env
keyless_run = refl
