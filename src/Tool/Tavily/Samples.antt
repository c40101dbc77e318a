-- ===== src/Tool/Tavily/Samples.antt =====
-- A search with one result.
use go_research.Prelude.{
  Bool, true, ◌≡◌, ◌↔◌, refl, ◌⊎◌, inl, inr, List, [], ◌∷◌, ◌++◌, Str, codes, str_eq,
}
use go_research.Prelude.Int.{pos}
use go_research.Researcher.Dedup.{SearchItem, urls}
use go_research.Tool.{SearchArgs}
use go_research.Tool.Tavily.{Tavily, TavilyReq, TavilyResp, Request, Response, http_status, call}
use go_research.Tool.Tavily.Answered.{Answered, call-eq-inr_iff}

abbrev tavily : Tavily
tavily = record { api_key = codes "k"; search_depth = []; endpoint = [] }

abbrev decode_args : Str → Unit {0} ⊎ SearchArgs
decode_args s = inr (record { query = s; max_items = pos 0 })

abbrev encode_req : TavilyReq → Str
encode_req r = r.query ++ r.search_depth

abbrev accepts : Str → Bool
accepts url = true

-- The server repeats the body.
abbrev send : Request → Unit {0} ⊎ Response (Unit {0})
send r = inr (record { status_code = 200; raw = inr r.body })

abbrev limited : Request → Unit {0} ⊎ Response (Unit {0})
limited r = inr (record { status_code = 429; raw = inr (codes "slow down") })

abbrev decode_resp : Str → Unit {0} ⊎ TavilyResp
decode_resp raw =
    inr
      (record { results = record { title = codes "t"; url = raw; content = [] } ∷ []; error = [] })

abbrev join : List Str → Str
join [] = []
join (s ∷ ss) = s ++ join ss

abbrev encode_out : List SearchItem → Str
encode_out items = join (urls items)

answered :
    call tavily decode_args encode_req accepts send decode_resp encode_out (codes "go ")
    ≡ inr (codes "go basic")
unfolding call str_eq
answered = refl

too_many :
    call tavily decode_args encode_req accepts limited decode_resp encode_out (codes "go")
    ≡ inl (http_status 429 (codes "slow down"))
unfolding call str_eq
too_many = refl

call-eq-inr_iff_example :
    (call tavily decode_args encode_req accepts send decode_resp encode_out (codes "go ")
      ≡ inr (codes "go basic"))
    ↔ Answered tavily decode_args encode_req accepts send decode_resp encode_out
        (codes "go ")
        (codes "go basic")
call-eq-inr_iff_example =
    call-eq-inr_iff tavily decode_args encode_req accepts send decode_resp encode_out (codes "go ")
      (codes "go basic")
