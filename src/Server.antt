-- ===== src/Server.antt =====
-- internal/server: the check of the key (middleware.go) and the messages of the chat (handler_chat.go). A
-- header that the request lacks is empty.
pub mod Research
pub mod History
pub mod Routes
pub mod Chat
mod Samples
use go_research.Prelude.{
  ◌≡◌, ◌≢◌, refl, ◌↔◌, ◌⊎◌, Bool, true, false, inl, inr, List, [], ◌∷◌, ◌++◌, Str, codes, str_eq,
  str_eq_iff, Bool-cases, arith, if◌then◌else◌, str_eq_refl,
}
use go_research.Llm.{Message, message, system, user, assistant}

-- `requireAPIKey`: whether the request goes on to the handler, and is not answered 401.
unfoldable pub require_api_key : Str → (api_key_header authorization : Str) → Bool
require_api_key expected api_key_header authorization =
    if str_eq expected []
    then true
    else let got = if str_eq api_key_header [] then authorization else api_key_header in
      str_eq got expected

pub record HistoryMsg : Type 0 where
  pub role : Str
  pub content : Str

pub record ChatRequest : Type 0 where
  pub message : Str
  pub history : List HistoryMsg

-- The loop of `buildMessages`: other roles are left out.
pub history_messages : List HistoryMsg → List Message
history_messages [] = []
history_messages (h ∷ hs) =
    let rest = history_messages hs in
    if str_eq h.role (codes "user")
    then message user h.content ∷ rest
    else if str_eq h.role (codes "assistant")
    then message assistant h.content ∷ rest
    else rest

-- `buildMessages`, given the system prompt.
unfoldable pub build_messages : Str → ChatRequest → List Message
unfolding history_messages
build_messages system_prompt req =
    message system system_prompt ∷ history_messages req.history ++ message user req.message ∷ []

-- A request goes on exactly when no key is configured, or X-API-Key is the key, or there is no
-- X-API-Key and Authorization is the key.
pub require_api_key-eq-true_iff :
    (expected api_key_header authorization : Str)
    → (require_api_key expected api_key_header authorization ≡ true) ↔ (
        (expected ≡ [])
        ⊎ ((api_key_header ≡ expected) ⊎ ((api_key_header ≡ []) × (authorization ≡ expected))))
unfolding require_api_key
require_api_key-eq-true_iff expected api_key_header authorization = (
  λ h. ground (
    arith,
    str_eq_iff expected [],
    str_eq_iff api_key_header [],
    str_eq_iff authorization expected,
    str_eq_iff api_key_header expected,
  ),
  λ h. ground (
    arith,
    str_eq_iff expected [],
    str_eq_iff api_key_header [],
    str_eq_iff authorization expected,
    str_eq_iff api_key_header expected,
  ),
)
