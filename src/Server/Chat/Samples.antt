-- ===== src/Server/Chat/Samples.antt =====
-- A chat of two tokens whose last write fails.
use go_research.Prelude.{
  ℕ, Bool, ltb, ◌≡◌, refl, ◌⊎◌, inr, Option, some, none, List, [], ◌∷◌, Str, codes, str_eq,
}
use go_research.Text.{decimal}
use go_research.Llm.{Message}
use go_research.Writer.{Received, eof, chunk}
use go_research.Server.{ChatRequest}
use go_research.Server.Research.{streamed}
use go_research.Server.Chat.{Payloads, event, handle_chat}
use go_research.Server.Chat.Sent.{script, deltas, ending, written, handle_chat-written}

abbrev payloads : Payloads (Unit {0})
payloads = record {
  start = codes "m";
  delta = λ d. d;
  failure = λ e. codes "broken";
  chars = λ n. decimal n;
}

abbrev writes : ℕ → Bool
writes n = ltb n 4

abbrev request : ChatRequest
request = record { message = codes "hi"; history = [] }

abbrev decode : Str → Option ChatRequest
decode body = some request

abbrev stream : Received (Unit {0})
stream = chunk (some (codes "Go")) (chunk none (chunk (some (codes "od")) eof))

abbrev open_stream : List Message → Unit {0} ⊎ Received (Unit {0})
open_stream msgs = inr stream

no_done :
    handle_chat payloads writes decode [] open_stream []
    ≡ streamed (
        event payloads writes 1 (codes "start") (codes "m")
        ∷ event payloads writes 2 (codes "token") (codes "Go")
        ∷ event payloads writes 3 (codes "token") (codes "od")
        ∷ [])
unfolding handle_chat str_eq
no_done = refl

handle_chat-written_example :
    handle_chat payloads writes decode [] open_stream []
    ≡ streamed (
        written writes 1 (
          event payloads writes 1 (codes "start") payloads.start
          ∷ script payloads writes 1 0 (deltas stream) (ending stream)))
handle_chat-written_example =
    handle_chat-written payloads writes decode [] open_stream [] request stream refl (λ h. cc) refl
