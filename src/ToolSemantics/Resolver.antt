-- ===== src/ToolSemantics/Resolver.antt =====
-- packages/coding-agent/src/tool-semantics: blockedToolRules.js and resolver.js.
pub mod Accepted
mod Tests
use Prim.Native.String.{◌++◌ as ◌+++◌}
use Prim.Native.Char.{code}
use monad_hackathon.Codes.{
  Code, dangerous_tool_blocked, private_key_management_blocked, schema_drift, unmapped_tool,
  unsupported_tool,
}
use monad_hackathon.Js.{Slot, Value, absent, get, inherited, keys, obj, own, truthy}
use monad_hackathon.Prelude.{
  Bool, List, Option, String, [], false, filter, if◌then◌else◌, includes, map, none, not, some,
  str_eq, true, ◌&&◌, ◌||◌, ◌∷◌,
}
use monad_hackathon.ToolSemantics.Patterns.{
  any_pattern, dangerous_tool_patterns, key_material_patterns,
}
use monad_hackathon.ToolSemantics.Registry.{
  ToolSemantics, Unsupported, get_tool_semantics, get_unsupported_capability, refs,
}

-- A tools/list descriptor, or a fixture that is a bare name. An absent text is `none`; the schema is
-- the JSON value.
pub record ToolDescriptor : Type 0 where
  pub name : Option String
  pub tool_name : Option String
  pub description : Option String
  pub input_schema : Option Value
  pub input_schema_hash : Option String
  pub camel_input_schema_hash : Option String

pub data Fixture : Type 0 where
  bare_name : String → Fixture
  descriptor : ToolDescriptor → Fixture

-- `a || b` on texts: the empty text is falsy.
unfoldable pub text_or : Option String → Option String → Option String
text_or none b = b
text_or (some a) b = if str_eq a "" then b else some a

-- PRIVATE_KEY_TOOL_NAMES
abbrev pub private_key_tool_names : List String
private_key_tool_names =
    "import_private_key" ∷ "create_encrypted_keystore" ∷ "unlock_keystore"
    ∷ "import_encrypted_private_key" ∷ "remove_private_key" ∷ []

unfoldable pub text_or_blank : Option String → String
text_or_blank none = ""
text_or_blank (some s) = s

-- `d.name || d.tool_name || ''`; a bare name has neither property.
unfoldable pub name_or_empty : Fixture → String
unfolding text_or_blank text_or
name_or_empty (bare_name s) = ""
name_or_empty (descriptor d) = text_or_blank (text_or d.name d.tool_name)

own_keys : Value → List String
unfolding keys
own_keys (obj fs) = keys fs
own_keys _ = []

properties_of : Value → List String
unfolding get own_keys
properties_of (obj fs) = own_keys (get "properties" fs)
properties_of _ = []

-- The names of the properties of a truthy `inputSchema`.
property_names : Fixture → List String
unfolding properties_of truthy
property_names (bare_name s) = []
property_names (descriptor d) = elim d.input_schema [
  | none ↦ []
  | some v ↦ if truthy v then properties_of v else []
]

words_after : List String → String
words_after [] = ""
words_after (w ∷ ws) = " " +++ (w +++ words_after ws)

-- `[name, ...fields].join(' ')`
unfoldable pub descriptor_text : Fixture → String
unfolding name_or_empty property_names words_after
descriptor_text f = name_or_empty f +++ words_after (property_names f)

unfoldable pub is_key_material : Fixture → Bool
unfolding name_or_empty descriptor_text any_pattern key_material_patterns
is_key_material f =
    includes private_key_tool_names (name_or_empty f)
    || any_pattern (descriptor_text f) key_material_patterns

unfoldable pub is_dangerous : Fixture → Bool
unfolding descriptor_text any_pattern dangerous_tool_patterns
is_dangerous f = any_pattern (descriptor_text f) dangerous_tool_patterns

unfoldable pub classify_blocked_tool : Fixture → Option Code
classify_blocked_tool f =
    if is_key_material f
    then some private_key_management_blocked
    else if is_dangerous f
    then some dangerous_tool_blocked
    else none

-- The statuses of a resolution that shows no tool.
pub data Status : Type 0 where
  hidden blocked disabled unsupported : Status

pub record Denial : Type 0 where
  pub status : Status
  pub tool_name : Option String
  pub safe_reason_code : Code
  pub blocker_ids : Option (List String)
  pub evidence_refs : Option (List String)

pub record Visible : Type 0 where
  pub tool_name : Option String
  pub semantics : ToolSemantics
  pub matched_input_schema_hash : Option String

pub data Resolution : Type 0 where
  visible : Visible → Resolution
  denied : Denial → Resolution

abbrev pub deny :
    Option String → Status → Code → Option (List String) → Option (List String) → Resolution
deny name status code ids refs = denied (record {
  status = status;
  tool_name = name;
  safe_reason_code = code;
  blocker_ids = ids;
  evidence_refs = refs;
})

unfoldable pub tool_name_of : Fixture → Option String
unfolding text_or
tool_name_of (bare_name s) = some s
tool_name_of (descriptor d) = text_or d.name d.tool_name

unfoldable pub input_schema_hash_of : Fixture → Option String
unfolding text_or
input_schema_hash_of (bare_name s) = none
input_schema_hash_of (descriptor d) = text_or d.input_schema_hash d.camel_input_schema_hash

-- `table[undefined]` is `table["undefined"]`.
abbrev pub key_of : Option String → String
key_of none = "undefined"
key_of (some s) = s

-- `hash && hash === expected`
unfoldable pub hash_matches : Option String → String → Bool
hash_matches none expected = false
hash_matches (some h) expected = not (str_eq h "") && str_eq h expected

-- What follows once the name is neither unsupported nor key material.
resolve_registered : Option String → Option Code → Option String → Slot ToolSemantics → Resolution
unfolding hash_matches
resolve_registered name reason hash (own s) =
    if hash_matches hash s.input_schema_hash
    then visible (record { tool_name = name; semantics = s; matched_input_schema_hash = hash })
    else deny name disabled schema_drift none (some s.evidence_refs)
resolve_registered name reason hash inherited = deny name disabled schema_drift none none
resolve_registered name (some code) hash absent = deny name blocked code none none
resolve_registered name none hash absent = deny name hidden unmapped_tool none none

is_private_key_code : Option Code → Bool
is_private_key_code (some private_key_management_blocked) = true
is_private_key_code _ = false

resolve_supported : Fixture → Option String → Option Code → Resolution
unfolding resolve_registered is_private_key_code input_schema_hash_of
resolve_supported f name reason =
    if is_private_key_code reason
    then deny name blocked private_key_management_blocked none none
    else resolve_registered name reason (input_schema_hash_of f) (get_tool_semantics (key_of name))

resolve_capability : Fixture → Option String → Slot Unsupported → Resolution
unfolding resolve_supported
resolve_capability f name (own u) =
    deny name unsupported unsupported_tool (some u.blocker_ids) (some u.evidence_refs)
resolve_capability f name inherited = deny name unsupported unsupported_tool none none
resolve_capability f name absent = resolve_supported f name (classify_blocked_tool f)

unfoldable pub resolve_tool_descriptor : Fixture → Resolution
unfolding resolve_capability tool_name_of
resolve_tool_descriptor f =
    resolve_capability f (tool_name_of f) (get_unsupported_capability (key_of (tool_name_of f)))

unfoldable pub named : String → Option String → Fixture
named tool_name hash = descriptor (record {
  name = some tool_name;
  tool_name = none;
  description = none;
  input_schema = none;
  input_schema_hash = hash;
  camel_input_schema_hash = none;
})

unfoldable pub resolve_call_by_name : String → Option String → Resolution
unfolding named resolve_tool_descriptor
resolve_call_by_name tool_name hash = resolve_tool_descriptor (named tool_name hash)

abbrev pub is_visible : Resolution → Bool
is_visible (visible v) = true
is_visible (denied d) = false

unfoldable pub filter_visible_tools : List Fixture → List Resolution
filter_visible_tools fixtures = filter is_visible (map resolve_tool_descriptor fixtures)
