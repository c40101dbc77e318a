-- ===== src/Researcher/Samples.antt =====
-- One sub-question, with a search tool and a model that are concrete functions.
use go_research.Prelude.{
  ℕ, ◌+◌, true, ◌≡◌, refl, inr, [], ◌∷◌, Str, codes, length, str_eq, lookup, insert,
}
use go_research.Prelude.Int.{pos}
use go_research.Llm.{Generate}
use go_research.Text.Extract.{extract_object}
use go_research.Text.{one_line, decimal}
use go_research.Researcher.Options.{Options, normalized}
use go_research.Researcher.Dedup.{SearchItem, Collected, dedup_append}
use go_research.Researcher.Collect.{Tools, collect_search_results}
use go_research.Researcher.Collect.Budget.{Kept, search_budget, collect_search_results-Kept}
use go_research.Researcher.Attempts.{Critics, research_new}

abbrev item : Str → SearchItem
item url = record { title = codes "t"; url = url; snippet = codes "s" }

-- The world counts the calls of the model; every reply holds an object.
abbrev generate : Generate ℕ (Unit {0})
generate msgs n = (inr (codes "answer {}"), n + 1)

-- Every search finds the same two pages, one of them twice; one more query is always wanted.
abbrev tools : Tools ℕ (Unit {0}) (Unit {0})
tools = record {
  call = λ q n. (inr (codes "[]"), n);
  encode_args = λ q n. q;
  decode_items = λ s. inr (item (codes "a") ∷ item [] ∷ item (codes "b") ∷ item (codes "a") ∷ []);
  generate = generate;
  decode_queries = λ s. inr (codes " more " ∷ codes " " ∷ []);
  follow_up_system = [];
}

-- The score is 3.
abbrev critics : Critics (Unit {0}) (Unit {0})
critics = record {
  system_prompt = [];
  decode_review = λ s. inr (record { score = pos 3; feedback = codes "thin" });
  critic_system = [];
  critic_prompt = λ q m n. m;
}

abbrev options : Options
options = record {
  max_search_rounds = pos 0;
  max_follow_up_queries = pos 2;
  critic_enabled = true;
  critic_min_score = pos 6;
  max_critic_retries = pos 1;
}

program : Unit {0}
unfolding research_new collect_search_results extract_object one_line decimal lookup insert str_eq
    normalized dedup_append
program = tt

-- Two rounds, two attempts, and the pages once each.
two_rounds : length (research_new tools critics options (codes "t1") (codes "q") [] 0).1 ≡ 2
unfolding program
two_rounds = refl

two_reviews :
    length (research_new tools critics options (codes "t1") (codes "q") [] 0).2.reviews ≡ 2
unfolding program
two_reviews = refl

two_pages :
    (collect_search_results tools options (codes "q") 0).0
    ≡ inr (item (codes "a") ∷ item (codes "b") ∷ [])
unfolding program
two_pages = refl

collect_search_results-Kept_example :
    Kept tools (search_budget options) (collect_search_results tools options (codes "q") 0).1
collect_search_results-Kept_example = collect_search_results-Kept tools options (codes "q") 0

abbrev nothing : Collected
nothing = record { seen = []; ordered = [] }
