-- ===== src/Researcher/Collect.antt =====
-- The search rounds of `collectSearchResults` (internal/agent/researcher/react.go). The search tool,
-- json.Marshal of its arguments, json.Unmarshal of its results and of the follow-up queries, and the
-- text of the follow-up prompt are parameters. A hook only records, so its calls are a log.
pub mod Budget
use go_research.Prelude.{
  ℕ, zero, suc, ◌+◌, ◌-◌, Bool, true, false, ◌⊎◌, inl, inr, Option, none, some, List, [], ◌∷◌, ◌++◌,
  Str, codes, str_eq, length, take, leb, ◌==◌, if◌then◌else◌,
}
use go_research.Prelude.Int.{ℤ, pos, negsuc, ltbℤ}
use go_research.Text.{trim_space, one_line}
use go_research.Text.Extract.{extract_object}
use go_research.Llm.{Message, message, system, user, Generate}
use go_research.Researcher.Options.{Options, normalized}
use go_research.Researcher.Dedup.{SearchItem, Collected, dedup_append}

-- SearchRoundPayload, less the task's ID, which is the same in all.
pub record SearchRound : Type 0 where
  pub round : ℕ
  pub query : Str
  pub result_count : ℕ

-- The locals of the function, what the hook has been told, and the world.
pub record Gathered (W : Type 0) : Type 0 where
  pub collected : Collected
  pub log : List SearchRound
  pub world : W

pub data CollectError (E D : Type 0) : Type 0 where
  search_failed : E → CollectError E D
  undecodable : D → CollectError E D
  follow_up_failed : E → CollectError E D
  no_results : (question : Str) → CollectError E D

-- A limit that has been normalised to a positive number.
abbrev pub to_nat : ℤ → ℕ
to_nat (pos n) = n
to_nat (negsuc _) = zero

-- `len(xs)` of Go
abbrev pub item_count : List SearchItem → ℕ
item_count [] = zero
item_count (_ ∷ xs) = suc (item_count xs)

-- The lines of the follow-up prompt for the items from index `i` on.
pub snippet_lines : ℕ → List SearchItem → Str
unfolding one_line
snippet_lines i [] = []
snippet_lines i (it ∷ items) =
    let rest = snippet_lines (i + 1) items in
    if leb 8 i
    then codes "... (truncated)\n"
    else codes "- " ++ it.title ++ codes ": " ++ one_line it.snippet 120 ++ codes "\n" ++ rest

-- The queries that are not blank, trimmed.
pub clean_queries : List Str → List Str
unfolding trim_space
clean_queries [] = []
clean_queries (q ∷ qs) =
    let rest = clean_queries qs in
    let trimmed = trim_space q in if str_eq trimmed [] then rest else trimmed ∷ rest

-- `parseFollowUps`
unfoldable pub parse_follow_ups : {D : Type 0} → (Str → D ⊎ List Str) → Str → List Str
unfolding clean_queries
parse_follow_ups decode raw =
    let json = extract_object (trim_space raw) in
    if str_eq json [] then [] else elim (decode json) [ inl _ ↦ [] | inr qs ↦ clean_queries qs ]

-- `if len(followUps) > opts.MaxFollowUpQueries`
unfoldable pub first_queries : ℤ → List Str → List Str
first_queries most qs = if ltbℤ most (pos (length qs)) then take (to_nat most) qs else qs

-- What the researcher calls.
pub record Tools (W E D : Type 0) : Type 0 where
  pub call : Str → W → (E ⊎ Str) × W
  pub encode_args : (query : Str) (max_items : ℕ) → Str
  pub decode_items : Str → D ⊎ List SearchItem
  pub generate : Generate W E
  pub decode_queries : Str → D ⊎ List Str
  pub follow_up_system : Str

module _ {W E D : Type 0} (t : Tools W E D) where
  unfoldable pub search_once : Str → W → (CollectError E D ⊎ List SearchItem) × W
  search_once query w =
      let (raw, w') = t.call (t.encode_args query 5) w in
      (
        elim raw [
          | inl e ↦ inl (search_failed e)
          | inr text ↦ elim (t.decode_items text) [
            | inl d ↦ inl (undecodable d)
            | inr items ↦ inr items
          ]
        ],
        w',
      )

  -- `planFollowUpQueries`
  unfoldable pub plan_follow_up_queries :
      Str → List SearchItem → W → (CollectError E D ⊎ List Str) × W
  unfolding snippet_lines parse_follow_ups
  plan_follow_up_queries question items w =
      let prompt =
        codes "Sub-question:\n"
        ++ question
        ++ codes "\n\nCollected snippets:\n"
        ++ snippet_lines 0 items in
      let (out, w') = t.generate (message system t.follow_up_system ∷ message user prompt ∷ []) w in
      (
        elim out [
          | inl e ↦ inl (follow_up_failed e)
          | inr content ↦ inr (parse_follow_ups t.decode_queries content)
        ],
        w',
      )

  abbrev pub found : ℕ → Str → List SearchItem → W → Gathered W → Gathered W
  found round q items w g = record {
    collected = dedup_append g.collected items;
    log = g.log ++ record { round = round; query = q; result_count = item_count items } ∷ [];
    world = w;
  }

  -- The searches of one round, up to the first that fails.
  pub wave : ℕ → List Str → Gathered W → Option (CollectError E D) × Gathered W
  unfolding search_once
  wave round [] g = (none, g)
  wave round (q ∷ qs) g =
      let (result, w) = search_once q g.world in
      elim result [
        | inl e ↦ (some e, record { collected = g.collected; log = g.log; world = w })
        | inr items ↦ wave round qs (found round q items w g)
      ]

  -- The loop, with `left` rounds to go, the one at hand included.
  pub rounds : ℤ → Str → ℕ → ℕ → List Str → Gathered W → Option (CollectError E D) × Gathered W
  unfolding wave plan_follow_up_queries first_queries
  rounds most question zero round queries g = (none, g)
  rounds most question (suc left) round queries g =
      let (failed, g') = wave round queries g in
      elim failed [
        | some e ↦ (some e, g')
        | none ↦
            if left == 0
            then (none, g')
            else let (planned, w) = plan_follow_up_queries question g'.collected.ordered g'.world in
              let g'' : Gathered W = record { collected = g'.collected; log = g'.log; world = w } in
              elim planned [
                | inl e ↦ (some e, g'')
                | inr [] ↦ (none, g'')
                | inr (q ∷ qs) ↦
                    rounds most question left (round + 1) (first_queries most (q ∷ qs)) g''
              ]
      ]

  abbrev pub start : W → Gathered W
  start w = record { collected = record { seen = []; ordered = [] }; log = []; world = w }

  -- `collectSearchResults`
  unfoldable pub collect_search_results :
      Options → Str → W → (CollectError E D ⊎ List SearchItem) × Gathered W
  unfolding rounds
  collect_search_results opts question w =
      let o = normalized opts in
      let (failed, g) =
        rounds o.max_follow_up_queries question (to_nat o.max_search_rounds) 1 (question ∷ [])
          (start w) in
      (
        elim failed [
          | some e ↦ inl e
          | none ↦
              if item_count g.collected.ordered == 0
              then inl (no_results question)
              else inr g.collected.ordered
        ],
        g,
      )
