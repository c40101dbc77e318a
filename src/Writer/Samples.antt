-- ===== src/Writer/Samples.antt =====
-- A stream of three chunks.
use go_research.Prelude.{
  ◌≡◌, refl, ◌⊎◌, inr, Option, none, some, List, [], ◌∷◌, Str, codes, lookup, insert, str_eq,
}
use go_research.Text.{decimal}
use go_research.Llm.{Message}
use go_research.Researcher.Attempts.{Findings}
use go_research.Writer.{Received, eof, chunk, stream, build_prompt}
use go_research.Writer.Stream.{Log, joined, chunks, logging, stream-joined, stream-whole}

abbrev streamed : Received (Unit {0})
streamed = chunk (some (codes "# A")) (chunk none (chunk (some (codes " report")) eof))

abbrev open_stream : List Message → Unit {0} ⊎ Received (Unit {0})
open_stream msgs = inr streamed

abbrev goes_on : Log → Str → Option (Unit {0})
goes_on log t = none

abbrev stops : Log → Str → Option (Unit {0})
stops log t = some tt

abbrev findings : Findings
findings = record {
  task_id = codes "t1";
  question = codes "q";
  markdown = codes "m";
  citations = record { index = 1; title = codes "t"; url = codes "u"; snippet = [] } ∷ [];
}

program : Unit {0}
unfolding stream build_prompt decimal lookup insert str_eq
program = tt

whole :
    (stream (logging goes_on) open_stream [] (codes "q") (findings ∷ []) []).1 ≡ codes "# A report"
unfolding program
whole = refl

first_only : (stream (logging stops) open_stream [] (codes "q") (findings ∷ []) []).1 ≡ codes "# A"
unfolding program
first_only = refl

ends : (stream (logging goes_on) open_stream [] (codes "q") (findings ∷ []) []).0 ≡ none
unfolding program
ends = refl

stream-joined_example :
    joined (stream (logging stops) open_stream [] (codes "q") (findings ∷ []) []).2
    ≡ (stream (logging stops) open_stream [] (codes "q") (findings ∷ []) []).1
stream-joined_example = stream-joined stops open_stream [] (codes "q") (findings ∷ [])

stream-whole_example :
    (stream (logging goes_on) open_stream [] (codes "q") (findings ∷ []) []).1 ≡ chunks streamed
stream-whole_example =
    stream-whole goes_on open_stream [] (codes "q") (findings ∷ []) streamed refl ends
