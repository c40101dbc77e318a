-- ===== src/Server/Chat/Sent.antt =====
-- The stream of events of `handleChat` (internal/server/handler_chat.go).
use go_research.Prelude.{
  ℕ, suc, ◌+◌, Bool, ◌≡◌, ◌≢◌, sym, ap, ap₂, ◌∙◌, ◌⊎◌, inr, Option, none, some, List, [], ◌∷◌, ◌++◌,
  Str, codes, length, not_blank, if◌then◌else◌, arith,
}
use go_research.Llm.{Message}
use go_research.Writer.{Received, eof, recv_failed, chunk}
use go_research.Server.{ChatRequest, build_messages}
use go_research.Server.Research.{Frame, streamed}
use go_research.Server.Chat.{Payloads, event, emit, send_tokens, handle_chat}

-- The texts of the stream that are not empty, in order.
abbrev pub deltas : {E : Type 0} → Received E → List Str
deltas eof = []
deltas (recv_failed e) = []
deltas (chunk none rest) = deltas rest
deltas (chunk (some []) rest) = deltas rest
deltas (chunk (some (c ∷ d)) rest) = (c ∷ d) ∷ deltas rest

-- How the stream ends: an error, or none for io.EOF.
abbrev pub ending : {E : Type 0} → Received E → Option E
ending eof = none
ending (recv_failed e) = some e
ending (chunk text rest) = ending rest

abbrev pub bytes : List Str → ℕ
bytes [] = 0
bytes (d ∷ ds) = length d + bytes ds

-- What is written before the first write that fails, from number `n` on.
abbrev pub written : (ℕ → Bool) → ℕ → List Frame → List Frame
written writes n [] = []
written writes n (f ∷ fs) =
    let rest = written writes (suc n) fs in if writes n then f ∷ rest else []

module _ {E : Type 0} (payloads : Payloads E) (writes : ℕ → Bool) where
  abbrev pub token : ℕ → Str → Frame
  token n d = event payloads writes n (codes "token") (payloads.delta d)

  -- The event at the end, of a stream with `total` bytes.
  abbrev pub closing : ℕ → (total : ℕ) → Option E → Frame
  closing n total none = event payloads writes n (codes "done") (payloads.chars total)
  closing n total (some e) = event payloads writes n (codes "error") (payloads.failure e)

  abbrev pub tokens : ℕ → List Str → List Frame
  tokens n [] = []
  tokens n (d ∷ ds) = token (suc n) d ∷ tokens (suc n) ds

  -- The tokens, numbered after `n`, and the end.
  abbrev pub script : (n total : ℕ) → List Str → Option E → List Frame
  script n total ds end = tokens n ds ++ closing (suc (n + length ds)) (total + bytes ds) end ∷ []

  script_nil :
      (n total : ℕ) (end : Option E) → script n total [] end ≡ closing (suc n) total end ∷ []
  script_nil n total end =
      let number : suc (n + 0) ≡ suc n = omega arith in
      let count : total + 0 ≡ total = omega arith in ap₂ (λ i t. closing i t end ∷ []) number count

  script_cons :
      (n total : ℕ) (d : Str) (ds : List Str) (end : Option E)
      → script n total (d ∷ ds) end ≡ token (suc n) d ∷ script (suc n) (total + length d) ds end
  script_cons n total d ds end =
      let number : suc (n + suc (length ds)) ≡ suc (suc n + length ds) = omega arith in
      let count : total + (length d + bytes ds) ≡ (total + length d) + bytes ds = omega arith in
      ap₂ (λ i t. token (suc n) d ∷ tokens (suc n) ds ++ closing i t end ∷ []) number count

  send_tokens-written :
      (n total : ℕ) (r : Received E)
      → send_tokens payloads writes n total r
        ≡ written writes (suc n) (script n total (deltas r) (ending r))
  unfolding send_tokens
  send_tokens-written n total eof = ap (written writes (suc n)) (sym (script_nil n total none))
  send_tokens-written n total (recv_failed e) =
      ap (written writes (suc n)) (sym (script_nil n total (some e)))
  send_tokens-written n total (chunk none rest) = send_tokens-written n total rest
  send_tokens-written n total (chunk (some []) rest) = send_tokens-written n total rest
  send_tokens-written n total (chunk (some (c ∷ d)) rest) =
      ap (emit payloads writes (suc n) (codes "token") (payloads.delta (c ∷ d)))
        (send_tokens-written (suc n) (total + length (c ∷ d)) rest)
      ∙ ap (written writes (suc n)) (sym (script_cons n total (c ∷ d) (deltas rest) (ending rest)))

  -- For a request with a message, when the model opens a stream: the client gets, up to the first write
  -- that fails, the events numbered from 1: start, one token for each chunk that is not empty, in order,
  -- and then done with the bytes of all tokens, or an error if the stream breaks.
  pub handle_chat-written :
      (decode : Str → Option ChatRequest) (system_prompt : Str)
      (open_stream : List Message → E ⊎ Received E) (body : Str) (req : ChatRequest)
      (stream : Received E)
      → decode body ≡ some req
      → req.message ≢ []
      → open_stream (build_messages system_prompt req) ≡ inr stream
      → handle_chat payloads writes decode system_prompt open_stream body
        ≡ streamed (
            written writes 1 (
              event payloads writes 1 (codes "start") payloads.start
              ∷ script 1 0 (deltas stream) (ending stream)))
  unfolding handle_chat
  handle_chat-written decode system_prompt open_stream body req stream d asked opened =
      rw (handle_chat, d, not_blank req.message asked, opened)
        (ap (λ fs. streamed (emit payloads writes 1 (codes "start") payloads.start fs))
          (send_tokens-written 1 0 stream))
