-- ===== src/Server/Chat.antt =====
-- `handleChat` of internal/server/handler_chat.go. json.Unmarshal of the body, `jsonMust` of the payloads,
-- the model, and which writes to the client fail are parameters. Logging is left out.
pub mod Sent
mod Samples
use go_research.Prelude.{
  ℕ, suc, ◌+◌, Bool, true, false, ◌⊎◌, inl, inr, Option, none, some, List, [], ◌∷◌, ◌++◌, Str,
  codes, str_eq, length, if◌then◌else◌,
}
use go_research.Text.{decimal}
use go_research.Llm.{Message}
use go_research.Writer.{Received, eof, recv_failed, chunk}
use go_research.Server.{ChatRequest, build_messages}
use go_research.Server.Research.{Frame, Reply, refused, streamed}

-- The payloads of the events.
pub record Payloads (E : Type 0) : Type 0 where
  pub start : Str
  pub delta : Str → Str
  pub failure : E → Str
  pub chars : ℕ → Str

module _ {E : Type 0} (payloads : Payloads E) (writes : ℕ → Bool) where
  abbrev pub event : ℕ → (event_type data_text : Str) → Frame
  event n event_type data_text = record { id = decimal n; type = event_type; payload = data_text }

  -- `emit` of event number `n`, and what follows if its write succeeds.
  abbrev pub emit : ℕ → (event_type data_text : Str) → List Frame → List Frame
  emit n event_type data_text rest = if writes n then event n event_type data_text ∷ rest else []

  -- The loop, after `n` events with `total` bytes, and the event at its end.
  unfoldable pub send_tokens : (n total : ℕ) → Received E → List Frame
  send_tokens n total eof = emit (suc n) (codes "done") (payloads.chars total) []
  send_tokens n total (recv_failed e) = emit (suc n) (codes "error") (payloads.failure e) []
  send_tokens n total (chunk none rest) = send_tokens n total rest
  send_tokens n total (chunk (some []) rest) = send_tokens n total rest
  send_tokens n total (chunk (some (c ∷ delta)) rest) =
      let after = send_tokens (suc n) (total + length (c ∷ delta)) rest in
      emit (suc n) (codes "token") (payloads.delta (c ∷ delta)) after

  -- `handleChat`
  unfoldable pub handle_chat :
      (decode : Str → Option ChatRequest) (system_prompt : Str)
      → (open_stream : List Message → E ⊎ Received E) → Str
      → Reply
  unfolding send_tokens
  handle_chat decode system_prompt open_stream body = elim (decode body) [
    | none ↦ refused 400 (codes "invalid json body")
    | some req ↦
        if str_eq req.message []
        then refused 400 (codes "message is required")
        else elim (open_stream (build_messages system_prompt req)) [
          | inl e ↦ refused 500 (codes "llm unavailable")
          | inr stream ↦ streamed (emit 1 (codes "start") payloads.start (send_tokens 1 0 stream))
        ]
  ]
