-- ===== src/Review/Azure.antt =====
-- packages/coding-agent/src/llm/azureClient.js. Parameters: `fetch`, which answers a URL, a key and a
-- body, with `none` where it throws or is aborted; `json_parse`, which is `JSON.parse`; `encode`, which
-- is `encodeURIComponent`.
use Prim.Native.String.{◌++◌ as ◌+++◌}
use Prim.Native.Char.{code}
use monad_hackathon.Js.{
  Value, arr, cons, end, field, get, nil, num, obj, present, str, to_text, truthy, undefined,
}
use monad_hackathon.Js.Json.{stringify}
use monad_hackathon.Prelude.{
  Bool, List, Option, String, if◌then◌else◌, lookup, none, not, some, str_eq, ◌&&◌, ◌==◌,
}
use monad_hackathon.Review.{Reviewer}
use monad_hackathon.Review.Laws.{answer}

abbrev system_prompt : String
system_prompt =
    "You are the final safety reviewer for a Monad Testnet wallet MCP security proxy. All deterministic checks (tool registry, on-chain policy, risk) have ALREADY PASSED for this action. Your job is defense-in-depth: decide if it is still UNSAFE to forward this exact action to the wallet. You can only block; you cannot approve anything the deterministic layer already blocked. Respond with STRICT JSON only: {\"verdict\":\"safe\"|\"unsafe\",\"reason\":\"<short reason>\"}. If anything looks anomalous, inconsistent, or higher-risk than the stated context, answer \"unsafe\"."

-- A text that is set and not empty.
unfoldable pub set_text : Option String → Option String
set_text none = none
set_text (some v) = if str_eq v "" then none else some v

-- `requireEnv`, `none` where it throws.
unfoldable pub require_env : List (String × String) → String → Option String
unfolding set_text
require_env env key = set_text (lookup key env)

-- `s.replace(/\/+$/, '')`
unfoldable pub without_slashes : String → String
without_slashes String.[] = ""
without_slashes (String.◌∷◌ c s) =
    let rest = without_slashes s in if code c == 47 && str_eq rest "" then "" else String.◌∷◌ c rest

-- `env[key] || d`
env_or : List (String × String) → String → String → String
env_or env key d = elim (lookup key env) [ none ↦ d | some v ↦ if str_eq v "" then d else v ]

-- `data && data.choices && data.choices[0] && …`
first_item : Value → Value
first_item (arr (cons v vs)) = v
first_item v = undefined

unfoldable pub prop_of : String → Value → Value
unfolding get
prop_of name (obj fs) = get name fs
prop_of name v = undefined

unfoldable pub content_of : Value → Value
unfolding prop_of first_item
content_of body = prop_of "content" (prop_of "message" (first_item (prop_of "choices" body)))

unfoldable pub body_of : Value → Value
unfolding stringify
body_of context = obj (
    field "messages"
      (arr (
        cons (obj (field "role" (str "system") (field "content" (str system_prompt) end))) (
          cons (obj (field "role" (str "user") (field "content" (str (stringify context)) end)))
            nil)))
      (field "temperature" (num 0) (
        field "max_tokens" (num 200)
          (field "response_format" (obj (field "type" (str "json_object") end)) end))))

reason_text : Value → Value
reason_text (str s) = str s
reason_text v = str ""

-- `parsed.verdict` throws on null.
unfoldable pub verdict_of : Option Value → Option Value
unfolding prop_of reason_text present
verdict_of none = none
verdict_of (some answer) =
    if present answer
    then some (
        obj (
          field "verdict" (prop_of "verdict" answer)
            (field "reason" (reason_text (prop_of "reason" answer)) end)))
    else none

-- `res.ok`, and what `res.json()` gives.
pub record AzureResponse : Type 0 where
  pub ok : Bool
  pub body : Option Value

-- What `review` does with the content of the answer, and with the answer.
unfoldable pub after_content : (String → Option Value) → Bool → Value → Option Value
unfolding verdict_of truthy to_text
after_content json_parse succeeded content =
    if not succeeded
    then none
    else if not (truthy content)
    then none
    else verdict_of (json_parse (to_text content))

unfoldable pub after_body : (String → Option Value) → Bool → Option Value → Option Value
unfolding content_of after_content
after_body json_parse succeeded none = none
after_body json_parse succeeded (some body) = after_content json_parse succeeded (content_of body)

unfoldable pub after_fetch : (String → Option Value) → Option AzureResponse → Option Value
unfolding after_body
after_fetch json_parse none = none
after_fetch json_parse (some response) = after_body json_parse response.ok response.body

unfoldable pub url_of : (String → String) → List (String × String) → String → String
unfolding env_or
url_of encode env endpoint =
    endpoint
    +++ ("/openai/deployments/"
        +++ (encode (env_or env "AZURE_OPENAI_DEPLOYMENT" "gpt-4o")
            +++ ("/chat/completions?api-version="
                +++ encode (env_or env "AZURE_OPENAI_API_VERSION" "2024-12-01-preview"))))

module _ (fetch : String → String → Value → Option AzureResponse)
    (json_parse : String → Option Value) (encode : String → String) where
  -- With the endpoint and the key.
  unfoldable pub client_with :
      List (String × String) → Option String → Option String → Option Reviewer
  unfolding url_of without_slashes after_fetch body_of
  client_with env (some endpoint) (some api_key) = some (λ context.
      after_fetch json_parse
        (fetch (url_of encode env (without_slashes endpoint)) api_key (body_of context)))
  client_with env endpoint api_key = none

  -- `createAzureClientFromEnv`: the reviewer, `none` where the configuration is missing.
  unfoldable pub create_azure_client_from_env : List (String × String) → Option Reviewer
  unfolding require_env client_with
  create_azure_client_from_env env =
      client_with env (require_env env "AZURE_OPENAI_ENDPOINT")
        (require_env env "AZURE_OPENAI_API_KEY")
