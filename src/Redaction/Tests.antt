-- ===== src/Redaction/Tests.antt =====
-- The theorems about redaction at a value with secrets in it.
use monad_hackathon.Js.{Fields, Value, arr, cons, end, field, nil, num, obj, str}
use monad_hackathon.Prelude.{refl, ◌≡◌}
use monad_hackathon.Redaction.{redact_audit_metadata, redact_value}
use monad_hackathon.Redaction.Hidden.{Hides, redact_value-Hides}

abbrev leaky : Value
leaky = obj (
    field "rpc_url" (str "wss://x")
      (field "to" (arr (cons (str "https://rpc") (cons (num 3) nil))) end))

-- The key and the URL are both hidden.
redact_run :
    redact_value 0 leaky
    ≡ obj (
        field "rpc_url"
          (str "[redacted]")
          (field "to" (arr (cons (str "[redacted]") (cons (num 3) nil))) end))
unfolding redact_value
redact_run = refl

redact_value-Hides_example : Hides (redact_value 0 leaky)
redact_value-Hides_example = redact_value-Hides 0 leaky

abbrev metadata : Fields
metadata = field "policy_id" (str "0x1") (field "note" (str "x") end)

-- A key that no list has is dropped.
metadata_run : redact_audit_metadata "risk_scored" metadata ≡ field "policy_id" (str "0x1") end
unfolding redact_audit_metadata
metadata_run = refl
