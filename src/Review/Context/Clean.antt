-- ===== src/Review/Context/Clean.antt =====
-- What the reviewer of the final safety review gets to see.
use monad_hackathon.Js.{
  Fields, Items, Value, arr, bool, cons, end, field, get, nil, null, num, obj, other_num, str,
  truthy, undefined,
}
use monad_hackathon.Policy.{PolicyCaps, PolicyFlags, PolicySnapshot}
use monad_hackathon.Prelude.{
  Bool, List, Option, String, [], false, if◌then◌else◌, ltb, none, refl, some, suc, sym, true, ℕ,
  ◌∙◌, ◌∷◌, ◌≡◌,
}
use monad_hackathon.Review.Context.{
  action_evidence, action_names, build_llm_context, caps_value, digest_value, flags_value,
  names_secret, picked, policy_summary, semantics_summary, simulation_of, strip_fields, strip_items,
  strip_secrets, texts,
}
use monad_hackathon.ToolSemantics.Registry.{ToolSemantics}

-- Under a key that names a secret stands only the mark, at every depth.
unfoldable mutual
  pub IsClean : Value → Type 0
  IsClean (arr xs) = AreClean xs
  IsClean (obj fs) = FieldsClean fs
  IsClean _ = Unit

  pub AreClean : Items → Type 0
  AreClean nil = Unit
  AreClean (cons v vs) = IsClean v × AreClean vs

  pub FieldsClean : Fields → Type 0
  FieldsClean end = Unit
  FieldsClean (field k v fs) =
      ((names_secret k ≡ true → v ≡ str "[redacted]") × IsClean v) × FieldsClean fs

text-IsClean : (s : String) → IsClean (str s)
unfolding IsClean
text-IsClean s = tt

if_IsClean : (b : Bool) (s : String) (v : Value) → IsClean v → IsClean (if b then str s else v)
if_IsClean true s v h = text-IsClean s
if_IsClean false s v h = h

marked : (b : Bool) (v : Value) → b ≡ true → (if b then str "[redacted]" else v) ≡ str "[redacted]"
marked true v e = refl
marked false v e = cc e

mutual
  unfolding strip_secrets IsClean

  strip_secrets-IsClean : (depth : ℕ) (v : Value) → IsClean (strip_secrets depth v)
  strip_secrets-IsClean depth (arr xs) =
      if_IsClean (ltb 8 depth) "[redacted-depth]" (arr (strip_items (suc depth) xs))
        (strip_items-AreClean (suc depth) xs)
  strip_secrets-IsClean depth (obj fs) =
      if_IsClean (ltb 8 depth) "[redacted-depth]" (obj (strip_fields (suc depth) fs))
        (strip_fields-FieldsClean (suc depth) fs)
  strip_secrets-IsClean depth (str s) = if_IsClean (ltb 8 depth) "[redacted-depth]" (str s) tt
  strip_secrets-IsClean depth undefined = if_IsClean (ltb 8 depth) "[redacted-depth]" undefined tt
  strip_secrets-IsClean depth null = if_IsClean (ltb 8 depth) "[redacted-depth]" null tt
  strip_secrets-IsClean depth (bool b) = if_IsClean (ltb 8 depth) "[redacted-depth]" (bool b) tt
  strip_secrets-IsClean depth (num n) = if_IsClean (ltb 8 depth) "[redacted-depth]" (num n) tt
  strip_secrets-IsClean depth (other_num n) =
      if_IsClean (ltb 8 depth) "[redacted-depth]" (other_num n) tt

  strip_items-AreClean : (depth : ℕ) (vs : Items) → AreClean (strip_items depth vs)
  strip_items-AreClean depth nil = tt
  strip_items-AreClean depth (cons v vs) =
      (strip_secrets-IsClean depth v, strip_items-AreClean depth vs)

  strip_fields-FieldsClean : (depth : ℕ) (fs : Fields) → FieldsClean (strip_fields depth fs)
  strip_fields-FieldsClean depth end = tt
  strip_fields-FieldsClean depth (field k v fs) = (
    (
      marked (names_secret k) (strip_secrets depth v),
      if_IsClean (names_secret k) "[redacted]" (strip_secrets depth v)
          (strip_secrets-IsClean depth v),
    ),
    strip_fields-FieldsClean depth fs,
  )

texts-AreClean : (ss : List String) → AreClean (texts ss)
unfolding texts IsClean
texts-AreClean [] = tt
texts-AreClean (s ∷ ss) = (tt, texts-AreClean ss)

-- A field whose key names no secret.
public :
    (k : String) (v : Value) (fs : Fields)
    → names_secret k ≡ false
    → IsClean v
    → FieldsClean fs
    → FieldsClean (field k v fs)
unfolding IsClean
public k v fs e h t = ((λ s. cc (sym e ∙ s), h), t)

whole : (fs : Fields) → FieldsClean fs → IsClean (obj fs)
unfolding IsClean
whole fs h = h

list-IsClean : (ss : List String) → IsClean (arr (texts ss))
unfolding IsClean
list-IsClean ss = texts-AreClean ss

no_fields : FieldsClean end
unfolding IsClean
no_fields = tt

bool-IsClean : (b : Bool) → IsClean (bool b)
unfolding IsClean
bool-IsClean b = tt

semantics_summary-IsClean : (s : ToolSemantics) → IsClean (semantics_summary s)
unfolding semantics_summary names_secret
semantics_summary-IsClean s = whole _ (
    public _ _ _ refl (text-IsClean _) (
      public _ _ _ refl (text-IsClean _) (
        public _ _ _ refl (text-IsClean _) (
          public _ _ _ refl (bool-IsClean _)
            (public _ _ _ refl (list-IsClean _) (public _ _ _ refl (list-IsClean _) no_fields))))))

flags_value-IsClean : (f : PolicyFlags) → IsClean (flags_value f)
unfolding flags_value names_secret
flags_value-IsClean f = whole _ (
    public _ _ _ refl (bool-IsClean _) (
      public _ _ _ refl (bool-IsClean _)
        (public _ _ _ refl (bool-IsClean _) (public _ _ _ refl (bool-IsClean _) no_fields))))

caps_value-IsClean : (c : PolicyCaps) → IsClean (caps_value c)
unfolding caps_value names_secret
caps_value-IsClean c = whole _ (
    public _ _ _ refl (text-IsClean _) (
      public _ _ _ refl (text-IsClean _)
        (public _ _ _ refl (text-IsClean _) (public _ _ _ refl (text-IsClean _) no_fields))))

null-IsClean : IsClean null
unfolding IsClean
null-IsClean = tt

num-IsClean : (n : ℕ) → IsClean (num n)
unfolding IsClean
num-IsClean n = tt

policy_summary-IsClean : (p : Option PolicySnapshot) → IsClean (policy_summary p)
unfolding policy_summary names_secret
policy_summary-IsClean none = null-IsClean
policy_summary-IsClean (some p) = whole _ (
    public _ _ _ refl (text-IsClean _) (
      public _ _ _ refl (text-IsClean _) (
        public _ _ _ refl (num-IsClean _) (
          public _ _ _ refl (text-IsClean _) (
            public _ _ _ refl (flags_value-IsClean p.flags)
              (public _ _ _ refl (caps_value-IsClean p.caps) no_fields))))))

or_null-IsClean : (b : Bool) (v : Value) → IsClean v → IsClean (if b then v else null)
or_null-IsClean true v h = h
or_null-IsClean false v h = null-IsClean

simulation_of-IsClean : (evidence : Fields) → IsClean (simulation_of evidence)
unfolding simulation_of
simulation_of-IsClean evidence =
    or_null-IsClean (truthy (get "simulation" evidence))
      (strip_secrets 0 (get "simulation" evidence))
      (strip_secrets-IsClean 0 (get "simulation" evidence))

digest_value-IsClean : (digest : Option String) → IsClean (digest_value digest)
unfolding digest_value
digest_value-IsClean none = null-IsClean
digest_value-IsClean (some d) = text-IsClean d

action_evidence-IsClean : (evidence : Fields) → IsClean (action_evidence evidence)
unfolding action_evidence
action_evidence-IsClean evidence = strip_secrets-IsClean 0 (obj (picked action_names evidence))

-- The reviewer's context has, at every depth, only the mark under a key that names a secret.
pub build_llm_context-IsClean :
    (tool_name : String) (s : ToolSemantics) (args : Fields) (digest : Option String)
    (covered_fields : List String) (evidence : Fields) (p : Option PolicySnapshot)
    → IsClean (build_llm_context tool_name s args digest covered_fields evidence p)
unfolding build_llm_context names_secret
build_llm_context-IsClean tool_name s args digest covered_fields evidence p = whole _ (
    public _ _ _ refl (text-IsClean _) (
      public _ _ _ refl (semantics_summary-IsClean s) (
        public _ _ _ refl (strip_secrets-IsClean 0 (obj args)) (
          public _ _ _ refl (digest_value-IsClean digest) (
            public _ _ _ refl (list-IsClean _) (
              public _ _ _ refl (simulation_of-IsClean evidence) (
                public _ _ _ refl (action_evidence-IsClean evidence)
                  (public _ _ _ refl (policy_summary-IsClean p) no_fields))))))))
