-- ===== src/Review/Cautious.antt =====
-- When the reviewer that the environment configures lets a call pass.
use monad_hackathon.Audit.{parsed}
use monad_hackathon.Js.{
  Value, arr, bool, get, null, num, obj, other_num, str, to_text, truthy, undefined,
}
use monad_hackathon.Prelude.{
  Bool, Bool-cases, List, Option, String, false, inl, inr, lookup, none, refl, some, str_eq, true,
  ◌≡◌,
}
use monad_hackathon.Review.{final_safety_review, safe, text_field}
use monad_hackathon.Review.Azure.{
  AzureResponse, after_body, after_content, after_fetch, body_of, client_with, content_of,
  create_azure_client_from_env, prop_of, require_env, set_text, url_of, verdict_of, without_slashes,
}
use monad_hackathon.Review.Laws.{SaysSafe, answer, final_safety_review-safe_iff}

-- The service has answered with a success, and its answer has a content that parses to a "safe".
pub record IsApproved (json_parse : String → Option Value) (o : Option AzureResponse) : Type 0 where
  pub response : AzureResponse
  pub body : Value
  pub parsed : Value
  pub answered : o ≡ some response
  pub succeeded : response.ok ≡ true
  pub readable : response.body ≡ some body
  pub filled : truthy (content_of body) ≡ true
  pub parses : json_parse (to_text (content_of body)) ≡ some parsed
  pub says_safe : SaysSafe (some parsed)

verdict_of-SaysSafe :
    (o : Option Value)
    → SaysSafe (verdict_of o)
    → (parsed : Value) × (o ≡ some parsed) × SaysSafe (some parsed)
unfolding verdict_of prop_of text_field get
verdict_of-SaysSafe none h = absurd h
verdict_of-SaysSafe (some undefined) h = absurd h
verdict_of-SaysSafe (some null) h = absurd h
verdict_of-SaysSafe (some (obj fs)) h = (obj fs, refl, h)
verdict_of-SaysSafe (some (bool b)) (s, e, f) = cc e
verdict_of-SaysSafe (some (num n)) (s, e, f) = cc e
verdict_of-SaysSafe (some (other_num n)) (s, e, f) = cc e
verdict_of-SaysSafe (some (str t)) (s, e, f) = cc e
verdict_of-SaysSafe (some (arr vs)) (s, e, f) = cc e

module _ (json_parse : String → Option Value) where
  after_content-SaysSafe :
      (succeeded : Bool) (content : Value)
      → SaysSafe (after_content json_parse succeeded content)
      → (succeeded ≡ true)
        × (truthy content ≡ true)
        × (parsed : Value) × (json_parse (to_text content) ≡ some parsed)
        × SaysSafe (some parsed)
  unfolding after_content
  after_content-SaysSafe false content h = absurd h
  after_content-SaysSafe true content h = elim (Bool-cases (truthy content)) [
    | inl full ↦
        let (parsed, e, f) = verdict_of-SaysSafe (json_parse (to_text content)) (rw full at h) in
        (refl, full, parsed, e, f)
    | inr empty ↦ absurd (rw empty at h)
  ]

  after_body-IsApproved :
      (response : AzureResponse) (o : Option Value)
      → response.body ≡ o
      → SaysSafe (after_body json_parse response.ok o)
      → IsApproved json_parse (some response)
  unfolding after_body
  after_body-IsApproved response none e h = absurd h
  after_body-IsApproved response (some body) e h =
      let (succeeded, full, parsed, f, says) =
        after_content-SaysSafe response.ok (content_of body) h in
      record {
        response = response;
        body = body;
        parsed = parsed;
        answered = refl;
        succeeded = succeeded;
        readable = e;
        filled = full;
        parses = f;
        says_safe = says;
      }

  after_fetch-IsApproved :
      (o : Option AzureResponse) → SaysSafe (after_fetch json_parse o) → IsApproved json_parse o
  unfolding after_fetch
  after_fetch-IsApproved none h = absurd h
  after_fetch-IsApproved (some response) h = after_body-IsApproved response response.body refl h

-- The request of a review, at the address and with the key that the environment has.
pub record IsAsked (fetch : String → String → Value → Option AzureResponse)
    (json_parse : String → Option Value) (encode : String → String) (env : List (String × String))
    (context : Value) : Type 0 where
  pub endpoint : String
  pub api_key : String
  pub endpoint_set : lookup "AZURE_OPENAI_ENDPOINT" env ≡ some endpoint
  pub key_set : lookup "AZURE_OPENAI_API_KEY" env ≡ some api_key
  pub approved :
      IsApproved json_parse
        (fetch (url_of encode env (without_slashes endpoint)) api_key (body_of context))

set_text-some : (o : Option String) (v : String) → set_text o ≡ some v → o ≡ some v
unfolding set_text
set_text-some none v h = cc h
set_text-some (some s) v h = elim (Bool-cases (str_eq s "")) [
  | inl empty ↦ cc (rw empty at h)
  | inr full ↦ rw full at h
]

require_env-lookup :
    (env : List (String × String)) (key v : String)
    → require_env env key ≡ some v
    → lookup key env ≡ some v
unfolding require_env
require_env-lookup env key v h = set_text-some (lookup key env) v h

module _ (fetch : String → String → Value → Option AzureResponse)
    (json_parse : String → Option Value) (encode : String → String) (env : List (String × String))
    (context : Value) where
  client_with-IsAsked :
      (endpoint api_key : Option String)
      → require_env env "AZURE_OPENAI_ENDPOINT" ≡ endpoint
      → require_env env "AZURE_OPENAI_API_KEY" ≡ api_key
      → SaysSafe (answer none (client_with fetch json_parse encode env endpoint api_key) context)
      → IsAsked fetch json_parse encode env context
  unfolding client_with
  client_with-IsAsked none none e f h = absurd h
  client_with-IsAsked none (some k) e f h = absurd h
  client_with-IsAsked (some p) none e f h = absurd h
  client_with-IsAsked (some p) (some k) e f h = record {
    endpoint = p;
    api_key = k;
    endpoint_set = require_env-lookup env "AZURE_OPENAI_ENDPOINT" p e;
    key_set = require_env-lookup env "AZURE_OPENAI_API_KEY" k f;
    approved = after_fetch-IsApproved json_parse _ h;
  }

  -- With the reviewer that the environment configures, a review is safe only where the environment has
  -- an endpoint and a key, and the service answered the request for the context with a success, a content that parses,
  -- and the verdict "safe" in it: a failed request, an empty or unreadable answer, or a missing
  -- configuration never lets a call pass.
  pub azure_review-IsAsked :
      (final_safety_review none
          (create_azure_client_from_env fetch json_parse encode env)
          context).verdict
        ≡ safe
      → IsAsked fetch json_parse encode env context
  unfolding create_azure_client_from_env
  azure_review-IsAsked h = client_with-IsAsked _ _ refl refl (
      (final_safety_review-safe_iff none (create_azure_client_from_env fetch json_parse encode env)
          context).0
        h)
