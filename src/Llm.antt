-- ===== src/Llm.antt =====
-- internal/llm/client.go: the client behind the agents. The model service itself is a parameter: a
-- call reads the messages and the state of the world, and gives a reply or an error.
use go_research.Prelude.{◌⊎◌, List, [], Str, Bool, false, str_eq, if◌then◌else◌}

pub data Role : Type 0 where
  system user assistant : Role

pub record Message : Type 0 where
  pub role : Role
  pub content : Str

abbrev pub message : Role → Str → Message
message role content = record { role = role; content = content }

-- `Client.Generate`: the content of the reply, or an error, and the world after the call.
abbrev pub Generate : Type 0 → Type 0 → Type 0
Generate W E = List Message → W → (E ⊎ Str) × W

-- `New`: whether a client is made, given whether the constructor of the model succeeds.
unfoldable pub new_client : (api_key : Str) → (constructed : Bool) → Bool
new_client api_key constructed = if str_eq api_key [] then false else constructed
