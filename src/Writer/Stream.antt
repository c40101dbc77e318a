-- ===== src/Writer/Stream.antt =====
-- The text that `Stream` of internal/agent/writer/writer.go returns, and what its handler sees.
use go_research.Prelude.{
  ◌≡◌, refl, sym, ap, ◌∙◌, ◌⊎◌, inl, inr, Option, none, some, List, [], ◌∷◌, ◌++◌, Str, append-nil,
  append_assoc, Option-cases, Sum-cases,
}
use go_research.Llm.{Message, message, system, user}
use go_research.Researcher.Attempts.{Findings}
use go_research.Writer.{
  Received, eof, recv_failed, chunk, handler_failed, receive, stream, build_prompt,
}

-- The handler's state is what it has been given so far, and it may stop at any time.
abbrev pub Log : Type 0
Log = List Str

abbrev pub joined : Log → Str
joined [] = []
joined (t ∷ ts) = t ++ joined ts

joined-append : (xs : Log) (t : Str) → joined (xs ++ t ∷ []) ≡ joined xs ++ t
joined-append [] t = append-nil t
joined-append (x ∷ xs) t =
    ap (λ (s : Str). x ++ s) (joined-append xs t) ∙ sym (append_assoc x (joined xs) t)

-- The chunks of a stream, without nil.
abbrev pub chunks : {E : Type 0} → Received E → Str
chunks eof = []
chunks (recv_failed e) = []
chunks (chunk none rest) = chunks rest
chunks (chunk (some t) rest) = t ++ chunks rest

some_error : {A : Type 0} (a : A) → ¬ (some a ≡ none)
some_error a h = cc

-- The handler logs the token, and answers by the tokens so far.
abbrev pub logging : {H : Type 0} → (Log → Str → Option H) → Str → Log → Option H × Log
logging answer t log = (answer log t, log ++ t ∷ [])

module _ {E H : Type 0} (answer : Log → Str → Option H) where
  receive-joined :
      (received : Received E) (full : Str) (log : Log)
      → joined log ≡ full
      → joined (receive (logging answer) received full log).2
        ≡ (receive (logging answer) received full log).1
  unfolding receive
  receive-joined eof full log h = h
  receive-joined (recv_failed e) full log h = h
  receive-joined (chunk none rest) full log h = receive-joined rest full log h
  receive-joined (chunk (some []) rest) full log h = receive-joined rest full log h
  receive-joined (chunk (some (c ∷ d)) rest) full log h =
      let more : joined (log ++ (c ∷ d) ∷ []) ≡ full ++ c ∷ d =
        joined-append log (c ∷ d) ∙ ap (λ (s : Str). s ++ c ∷ d) h in
      elim (Option-cases (answer log (c ∷ d))) [
        | inl go ↦ rw (receive, go) (receive-joined rest (full ++ c ∷ d) (log ++ (c ∷ d) ∷ []) more)
        | inr (e, stop) ↦ rw (receive, stop) more
      ]

  -- Whatever the model streams and the handler answers, on every error path too, the text that
  -- `Stream` returns is what the handler has been given, in order.
  pub stream-joined :
      (open_stream : List Message → E ⊎ Received E) (system_prompt question : Str)
      (findings : List Findings)
      → let r = stream (logging answer) open_stream system_prompt question findings [] in
        joined r.2 ≡ r.1
  unfolding stream
  stream-joined open_stream system_prompt question [] = refl
  stream-joined open_stream system_prompt question (f ∷ fs) =
      elim (Sum-cases (
        open_stream
          (message system system_prompt ∷ message user (build_prompt question (f ∷ fs)) ∷ []))) [
            | inl (e, bad) ↦ rw (stream, bad) refl
            | inr (received, good) ↦ rw (stream, good) (receive-joined received [] [] refl)
          ]

  receive-whole :
      (received : Received E) (full : Str) (log : Log)
      → (receive (logging answer) received full log).0 ≡ none
      → (receive (logging answer) received full log).1 ≡ full ++ chunks received
  unfolding receive
  receive-whole eof full log h = sym (append-nil full)
  receive-whole (recv_failed e) full log h = absurd cc
  receive-whole (chunk none rest) full log h = receive-whole rest full log h
  receive-whole (chunk (some []) rest) full log h = receive-whole rest full log h
  receive-whole (chunk (some (c ∷ d)) rest) full log h = elim (Option-cases (answer log (c ∷ d))) [
    | inl go ↦
        rw (receive, go)
          (receive-whole rest (full ++ c ∷ d) (log ++ (c ∷ d) ∷ []) (rw (receive, go) at h)
            ∙ append_assoc full (c ∷ d) (chunks rest))
    | inr (e, stop) ↦ absurd (some_error (handler_failed e) (rw (receive, stop) at h))
  ]

  -- When `Stream` returns no error, its text is all that the model streamed.
  pub stream-whole :
      (open_stream : List Message → E ⊎ Received E) (system_prompt question : Str)
      (findings : List Findings) (received : Received E)
      → open_stream
          (message system system_prompt ∷ message user (build_prompt question findings) ∷ [])
        ≡ inr received
      → (stream (logging answer) open_stream system_prompt question findings []).0 ≡ none
      → (stream (logging answer) open_stream system_prompt question findings []).1 ≡ chunks received
  unfolding stream
  stream-whole open_stream system_prompt question [] received good h = absurd cc
  stream-whole open_stream system_prompt question (f ∷ fs) received good h =
      rw (stream, good) (receive-whole received [] [] (rw (stream, good) at h))
