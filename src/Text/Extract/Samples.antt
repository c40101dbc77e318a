-- ===== src/Text/Extract/Samples.antt =====
-- Replies of a model, and what internal/agent/jsonutil/extract.go finds in them.
use go_research.Prelude.{◌≡◌, refl, ◌⊎◌, [], ◌∷◌, ◌++◌, Str, codes, arith, In}
use go_research.Text.Extract.{extract_object, without_fences, block_at}
use go_research.Text.{trim_space}
use go_research.Text.Extract.Outermost.{IsOutermost, block_at-Balances}
use go_research.Text.Extract.Found.{IsFirst, stripped, extract_object-IsFirst}

abbrev reply : Str
reply = codes "Here: {\"a\":{}} done"

fenced : extract_object (codes " ```json\n{\"a\":1}\n``` ") ≡ codes "{\"a\":1}"
unfolding extract_object
fenced = refl

-- A closing brace inside a JSON string ends the block too early.
brace_in_string : extract_object (codes "{\"a\":\"}\"}") ≡ codes "{\"a\":\"}"
unfolding extract_object
brace_in_string = refl

extract_object-IsFirst_example :
    (extract_object reply ≡ [])
    ⊎ IsOutermost (extract_object reply) × IsFirst (stripped reply) (extract_object reply)
extract_object-IsFirst_example = extract_object-IsFirst reply

stripped-reply : stripped reply ≡ codes "Here: " ++ codes "{\"a\":{}}" ++ codes " done"
unfolding trim_space without_fences
stripped-reply = refl

abbrev inner_body : Str
inner_body = codes "\"a\":{}}"

inner_object : IsOutermost (b'{' ∷ inner_body)
unfolding block_at
inner_object = record {
  body = inner_body;
  split = refl;
  balanced = (block_at-Balances 0 inner_body inner_body refl).0;
}

no_brace : ¬ In b'{' (codes "Here: ")
no_brace m = ground arith
