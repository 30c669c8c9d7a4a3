-- ===== src/Ai/OpenaiCompatible.antt =====
-- ai/providers/openai_compatible.py, groq.py and local_gemma.py. The HTTP client with its retries
-- and its reading of the body, and the time that a call takes, are a parameter.
use banking_ai_platform.Prelude.{
  ℕ, suc, ◌/◌, ◌+◌, max, String, ◌<>◌, show, size, prefix, is_empty, rstrip_slash, Bool, true,
  false, Option, none, some, List, [], ◌∷◌, if◌then◌else◌, Value, null, bool, int, float, str,
  array, dict, object, Items, nil, item, Fields, end, field, Dict, ◌is◌, ◌==◌, ◌≡◌, arith,
}
use banking_ai_platform.Core.Errors.{Exn, other, raise_app, llm_provider_error, Result, ok, err}
use banking_ai_platform.Core.Config.{Settings}
use banking_ai_platform.Db.Session.{Action}
use banking_ai_platform.Ai.Types.{
  role_text, ChatMessage, CompletionRequest, CompletionResult, estimated_prompt_tokens,
}
use banking_ai_platform.Ai.Provider.{LlmProvider}

-- What becomes of `_do`, `raise_for_status` and `response.json()`: the decoded body, or an
-- `HTTPStatusError`, a timeout or transport error, or any other exception by its type's name.
pub data Reply : Type 0 where
  body : Value → Reply
  http_status : ℕ → Reply
  unreachable : String → Reply
  broken : String → Reply

-- A call: address, attempts, bearer key and payload. `int_of_text` is `int()` of a text or float.
pub record Http (V : Type 0) : Type 0 where
  pub post : String → ℕ → Option String → Dict → V → (Reply × ℕ) × V
  pub int_of_text : String → Result ℕ

-- What `__init__` keeps.
pub record Endpoint : Type 0 where
  pub name : String
  pub base_url : String
  pub model : String
  pub api_key : Option String
  pub max_retries : ℕ
  pub requires_network : Bool

unfoldable pub groq_endpoint : Settings → Endpoint
unfolding rstrip_slash
groq_endpoint s = record {
  name = "groq";
  base_url = rstrip_slash s.groq_base_url;
  model = s.groq_model;
  api_key = if is_empty s.groq_api_key then none else some s.groq_api_key;
  max_retries = s.llm_max_retries;
  requires_network = true;
}

unfoldable pub local_gemma_endpoint : Settings → Endpoint
unfolding rstrip_slash
local_gemma_endpoint s = record {
  name = "local_gemma";
  base_url = rstrip_slash s.local_gemma_base_url;
  model = s.local_gemma_model;
  api_key = none;
  max_retries = s.llm_max_retries;
  requires_network = false;
}

abbrev pub has_key : Option String → Bool
has_key none = true
has_key (some key) = if is_empty key then false else true

-- `is_available`
unfoldable pub is_available : Endpoint → Bool
is_available e = if e.requires_network then has_key e.api_key else true

-- The bearer key of `_headers`.
abbrev pub bearer : Option String → Option String
bearer none = none
bearer (some key) = if is_empty key then none else some key

abbrev pub messages : List ChatMessage → Items
messages [] = nil
messages (m ∷ ms) =
    item (dict (field "role" (str (role_text m.role)) (field "content" (str m.content) end)))
      (messages ms)

-- `_payload`
unfoldable pub payload : Endpoint → CompletionRequest → Dict
unfolding role_text
payload e q =
    let optional = ("response_format", dict (field "type" (str "json_object") end)) ∷ [] in
    ("model", str e.model)
    ∷ ("messages", array (messages q.messages))
    ∷ ("max_tokens", int q.max_tokens)
    ∷ ("temperature", float q.temperature)
    ∷ (if q.json_mode then optional else [])

-- `fields[key]` and `items[0]`; none where Python raises KeyError, IndexError or TypeError.
abbrev pub get_field : String → Fields → Option Value
get_field key end = none
get_field key (field name value rest) =
    let later = get_field key rest in if name is key then some value else later

abbrev pub at_key : String → Option Value → Option Value
at_key key (some (dict fields)) = get_field key fields
at_key key _ = none

abbrev pub at_0 : Option Value → Option Value
at_0 (some (array (item value rest))) = some value
at_0 (some (str s)) = if is_empty s then none else some (str (prefix 1 s))
at_0 _ = none

abbrev pub or_empty : Option Value → Value
or_empty none = dict end
or_empty (some usage) = usage

-- `data["choices"][0]["message"]["content"]`
abbrev pub content_of : Value → Option Value
content_of answer = at_key "content" (at_key "message" (at_0 (at_key "choices" (some answer))))

abbrev pub type_error : Exn
type_error = other "TypeError" ""

abbrev pub count_items : Items → ℕ
count_items nil = 0
count_items (item value rest) = suc (count_items rest)

abbrev pub count_fields : Fields → ℕ
count_fields end = 0
count_fields (field name value rest) = suc (count_fields rest)

-- `len(content or "")`
abbrev pub length_of : Value → Result ℕ
length_of null = ok 0
length_of (bool false) = ok 0
length_of (bool true) = err type_error
length_of (int n) = if n == 0 then ok 0 else err type_error
length_of (float printed) = if printed is "0.0" then ok 0 else err type_error
length_of (str s) = ok (size s)
length_of (array items) = ok (count_items items)
length_of (dict fields) = ok (count_fields fields)
length_of (object printed) = err type_error

-- The `text` of `CompletionResult` where `content or ""` has a length: Pydantic takes a `str`.
abbrev pub text_of : Value → Result String
text_of (str s) = ok s
text_of (array (item value rest)) = err (other "ValidationError" "")
text_of (dict (field name value rest)) = err (other "ValidationError" "")
text_of _ = ok ""

module _ {V : Type 0} (http : Http V) where
  -- `int(value)`
  abbrev pub to_int : Value → Result ℕ
  to_int (int n) = ok n
  to_int (bool b) = ok (if b then 1 else 0)
  to_int (float printed) = http.int_of_text printed
  to_int (str s) = http.int_of_text s
  to_int _ = err type_error

  -- `int(usage.get(key, default))`
  abbrev pub tokens : Value → String → ℕ → Result ℕ
  tokens (dict usage) key default = elim (get_field key usage) [
    | none ↦ ok default
    | some value ↦ to_int value
  ]
  tokens _ key default = err (other "AttributeError" "")

infixl 5 ◌>>=◌
abbrev pub ◌>>=◌ : {A B : Type 0} → Result A → (A → Result B) → Result B
ok a >>= f = f a
err e >>= f = err e

abbrev pub provider_error : String → Dict → Exn
provider_error = raise_app llm_provider_error

module _ {V : Type 0} (http : Http V) (e : Endpoint) (q : CompletionRequest) where
  -- The end of `complete`, where nothing is caught.
  abbrev pub result_of : ℕ → Value → Value → Result CompletionResult
  result_of elapsed content usage = do
    prompt ← tokens http usage "prompt_tokens" (estimated_prompt_tokens q)
    length ← length_of content
    completion ← tokens http usage "completion_tokens" (max 1 (length / 4))
    text ← text_of content
    ok (record {
      text = text;
      provider = e.name;
      model = e.model;
      used_fallback = false;
      fallback_reason = none;
      prompt_tokens = prompt;
      completion_tokens = completion;
      latency_ms = elapsed;
    })

  abbrev pub bad_shape : Result CompletionResult
  bad_shape = err (
      provider_error (e.name <> " returned an unexpected response shape.")
        (("provider", str e.name) ∷ []))

  -- `data.get("usage", {})` behind the content, whose reading needs `data` to be a dictionary.
  abbrev pub read_body : ℕ → Value → Result CompletionResult
  read_body elapsed answer = elim (content_of answer) [
    | none ↦ bad_shape
    | some content ↦ result_of elapsed content (or_empty (at_key "usage" (some answer)))
  ]

  abbrev pub read_reply : ℕ → Reply → Result CompletionResult
  read_reply elapsed (body answer) = read_body elapsed answer
  read_reply elapsed (http_status status) = err (
      provider_error (e.name <> " returned HTTP " <> show status <> ".")
        (("provider", str e.name) ∷ ("status", int status) ∷ []))
  read_reply elapsed (unreachable type) = err (
      provider_error (e.name <> " is unreachable: " <> type <> ".")
        (("provider", str e.name) ∷ ("connectivity", bool true) ∷ []))
  read_reply elapsed (broken type) =
      err
        (provider_error (e.name <> " call failed: " <> type <> ".") (("provider", str e.name) ∷ []))

module _ {V : Type 0} (http : Http V) (e : Endpoint) where
  -- `complete`
  unfoldable pub complete : CompletionRequest → Action V CompletionResult
  unfolding payload show
  complete q v =
      let ((reply, elapsed), v') =
        http.post (e.base_url <> "/chat/completions") (e.max_retries + 1) (bearer e.api_key)
          (payload e q) v in
      (read_reply http e q elapsed reply, v')

  unfoldable pub openai_provider : LlmProvider V
  unfolding complete is_available
  openai_provider = record {
    name = e.name;
    model = e.model;
    requires_network = e.requires_network;
    is_available = λ v. (ok (is_available e), v);
    complete = complete;
  }

-- Groq reports itself available whatever the settings: an empty key is stored as none, and that
-- counts as a key.
pub groq-available : (s : Settings) → is_available (groq_endpoint s) ≡ true
unfolding is_available groq_endpoint
groq-available s = ground arith
