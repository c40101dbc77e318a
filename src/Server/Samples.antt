-- ===== src/Server/Samples.antt =====
-- A key, and a chat, under internal/server.
use go_research.Prelude.{◌≡◌, refl, Str, true, [], ◌∷◌, codes, str_eq}
use go_research.Llm.{message, system, user, assistant}
use go_research.Server.{require_api_key, build_messages}

by_authorization : require_api_key (codes "k") [] (codes "k") ≡ true
unfolding require_api_key str_eq
by_authorization = refl

chat :
    build_messages (codes "s") (record {
      message = codes "now";
      history =
          record { role = codes "user"; content = codes "a" }
          ∷ record { role = codes "tool"; content = codes "b" }
          ∷ record { role = codes "assistant"; content = codes "c" }
          ∷ [];
    })
    ≡ message system (codes "s")
      ∷ message user (codes "a")
      ∷ message assistant (codes "c")
      ∷ message user (codes "now")
      ∷ []
unfolding build_messages str_eq
chat = refl

abbrev no_header : Str
no_header = []
