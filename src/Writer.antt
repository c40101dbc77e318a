-- ===== src/Writer.antt =====
-- internal/agent/writer/writer.go. The stream of the model's reply is a parameter: its chunks, and
-- how it ends. The text of the fixed prompt is one too.
pub mod Stream
mod Samples
use go_research.Prelude.{
  ℕ, zero, suc, ◌+◌, Bool, true, false, ◌⊎◌, inl, inr, Option, none, some, List, [], ◌∷◌, ◌++◌, Str,
  codes, Map, lookup, insert, if◌then◌else◌,
}
use go_research.Text.{decimal}
use go_research.Llm.{Message, message, system, user}
use go_research.Researcher.Attempts.{Findings, Citation}

pub record CiteRow : Type 0 where
  pub title : Str
  pub url : Str

-- The locals `seen` and `cites` of `buildPrompt`, and `len(cites)`.
pub record Table : Type 0 where
  pub seen : Map ℕ
  pub cites : List CiteRow
  pub count : ℕ

-- The body of the inner loop.
unfoldable pub offer_cite : Citation → Table → Table
offer_cite c t = elim (lookup c.url t.seen) [
  | some _ ↦ t
  | none ↦ record {
    seen = insert c.url (t.count + 1) t.seen;
    cites = t.cites ++ record { title = c.title; url = c.url } ∷ [];
    count = t.count + 1;
  }
]

pub offer_cites : List Citation → Table → Table
unfolding offer_cite
offer_cites [] t = t
offer_cites (c ∷ cs) t = offer_cites cs (offer_cite c t)

unfoldable pub collect_cites : List Findings → Table → Table
unfolding offer_cites
collect_cites [] t = t
collect_cites (f ∷ fs) t = collect_cites fs (offer_cites f.citations t)

abbrev pub no_cites : Table
no_cites = record { seen = []; cites = []; count = 0 }

pub finding_parts : List Findings → Str
finding_parts [] = []
finding_parts (f ∷ fs) =
    codes "### Sub-question: "
    ++ f.question
    ++ codes "\n"
    ++ f.markdown
    ++ codes "\n\n"
    ++ finding_parts fs

-- The numbered references, with an em dash in UTF-8.
pub cite_lines : ℕ → List CiteRow → Str
unfolding decimal
cite_lines i [] = []
cite_lines i (c ∷ cs) =
    codes "["
    ++ decimal i
    ++ codes "] "
    ++ c.title
    ++ (b' ' ∷ 0xe2 ∷ 0x80 ∷ 0x94 ∷ b' ' ∷ [])
    ++ c.url
    ++ codes "\n"
    ++ cite_lines (i + 1) cs

-- `buildPrompt`
unfoldable pub build_prompt : Str → List Findings → Str
unfolding collect_cites finding_parts cite_lines
build_prompt question findings =
    codes "Original user question:\n"
    ++ question
    ++ codes "\n\nResearcher findings:\n\n"
    ++ finding_parts findings
    ++ codes "Consolidated references (renumber in your output):\n"
    ++ cite_lines 1 (collect_cites findings no_cites).cites
    ++ codes "\nWrite the final Markdown report now."

-- What Recv gives: a chunk, which may be nil, in order, and then io.EOF or another error.
pub data Received (E : Type 0) : Type 0 where
  eof : Received E
  recv_failed : E → Received E
  chunk : Option Str → Received E → Received E

pub data StreamError (E H : Type 0) : Type 0 where
  no_findings : StreamError E H
  init_failed : E → StreamError E H
  broken : E → StreamError E H
  handler_failed : H → StreamError E H

module _ {E H S : Type 0} (on_token : Str → S → Option H × S) where
  -- The loop of `Stream`, with the text so far and the state of the handler: the error, if there is
  -- one, the full text and the handler's state at the end.
  unfoldable pub receive : Received E → Str → S → Option (StreamError E H) × Str × S
  receive eof full s = (none, full, s)
  receive (recv_failed e) full s = (some (broken e), full, s)
  receive (chunk none rest) full s = receive rest full s
  receive (chunk (some []) rest) full s = receive rest full s
  receive (chunk (some (c ∷ delta)) rest) full s =
      let (err, s') = on_token (c ∷ delta) s in
      elim err [
        | none ↦ receive rest (full ++ c ∷ delta) s'
        | some h ↦ (some (handler_failed h), full ++ c ∷ delta, s')
      ]

  -- `Stream`
  unfoldable pub stream :
      (List Message → E ⊎ Received E)
      → Str
      → Str
      → List Findings
      → S
      → Option (StreamError E H) × Str × S
  unfolding build_prompt receive
  stream open_stream system_prompt question [] s = (some no_findings, [], s)
  stream open_stream system_prompt question (f ∷ fs) s =
      let prompt = build_prompt question (f ∷ fs) in
      elim (open_stream (message system system_prompt ∷ message user prompt ∷ [])) [
        | inl e ↦ (some (init_failed e), [], s)
        | inr received ↦ receive received [] s
      ]
