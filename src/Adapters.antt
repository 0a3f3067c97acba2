-- ===== src/Adapters.antt =====
-- What the adapters of app/providers/ share: an SDK client that replies or raises, and how the
-- adapter is set up from its key.
pub mod Openai
pub mod Gemini
pub mod Mock
pub mod Laws
pub mod Kinds
pub mod Tokens
use model_route.Base.{String, ℕ, Bool, true, false, not, Option, none, some, str_eq, if◌then◌else◌}
use model_route.Errors.{Exception}
use model_route.Json.{Json}
use model_route.Providers.{GenerationRequest}

-- The classes that the `except` clauses name. Of which of them an exception is an instance is for
-- the SDK to say: its classes inherit from each other.
pub data SdkClass : Type 0 where
  api_timeout builtin_timeout rate_limited authentication_failed permission_denied bad_request
        unprocessable internal_server api_connection api_status :
      SdkClass

pub record SdkException : Type 0 where
  pub is_instance : SdkClass → Bool
  pub status_code : ℕ
  pub body : Option Json
  pub exception : Exception

-- The attributes of a response that are read; `none` is a missing attribute, or `None`.
pub record Usage : Type 0 where
  pub input_tokens : Option ℕ
  pub output_tokens : Option ℕ

pub record SdkResponse : Type 0 where
  pub output_text : Option String
  pub usage : Option Usage

pub data SdkReply : Type 0 where
  responded : SdkResponse → SdkReply
  sdk_raised : SdkException → SdkReply

-- A client, asked by the number of the call; the limit of `asyncio.timeout` is part of it.
abbrev pub Client : Type 0 → Type 0
Client F = ℕ → GenerationRequest F → SdkReply

-- `getattr(response, "output_text", "") or ""`
unfoldable pub text_or_empty : Option String → String
text_or_empty none = ""
text_or_empty (some s) = s

-- `or 0`
unfoldable pub or_zero : Option ℕ → ℕ
or_zero none = 0
or_zero (some n) = n

-- `getattr(usage, …, 0) or 0`, where `usage` may be `None`.
unfoldable pub input_tokens_of : Option Usage → ℕ
unfolding or_zero
input_tokens_of none = 0
input_tokens_of (some usage) = or_zero usage.input_tokens

unfoldable pub output_tokens_of : Option Usage → ℕ
unfolding or_zero
output_tokens_of none = 0
output_tokens_of (some usage) = or_zero usage.output_tokens

-- `bool(api_key)`
unfoldable pub has_key : Option String → Bool
has_key none = false
has_key (some key) = not (str_eq key "")

-- `bool(api_key) if available is None else available`
unfoldable pub is_available : Option String → Option Bool → Bool
is_available api_key none = has_key api_key
is_available api_key (some available) = available

-- A client for a key, where the key is not empty.
unfoldable pub client_of_key :
    {F : Type 0} → (String → Client F) → Option String → Option (Client F)
client_of_key new_client none = none
client_of_key new_client (some key) = if str_eq key "" then none else some (new_client key)

-- `self._client`: the one passed in, or one made with the key.
unfoldable pub client_or_new :
    {F : Type 0} → (String → Client F) → Option String → Option (Client F) → Option (Client F)
unfolding client_of_key
client_or_new new_client api_key (some client) = some client
client_or_new new_client api_key none = client_of_key new_client api_key
