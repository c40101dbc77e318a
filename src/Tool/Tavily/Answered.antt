-- ===== src/Tool/Tavily/Answered.antt =====
-- When `Call` of internal/tool/search/tavily.go answers.
use go_research.Prelude.{
  not_blank, ==_iff, ◌↔◌, ℕ, ◌∙◌, ◌/◌, ◌==◌, Bool, true, ◌≡◌, ◌≢◌, sym, ap, ◌⊎◌, inl, inr, List, [],
  map, Str, str_eq, str_eq_iff, Bool-cases, Sum-cases, arith,
}
use go_research.Researcher.Dedup.{SearchItem}
use go_research.Tool.{SearchArgs}
use go_research.Tool.Tavily.{
  Tavily, TavilyReq, TavilyResp, Request, Response, TavilyError, item_of, request_of, read_body,
  call,
}
use go_research.Tool.Tavily.Asked.{
  Lists, map-Lists, Lists-map, Asks, request_of-Asks, Asks-request_of,
}

module _ {E D : Type 0} (t : Tavily) (decode_args : Str → D ⊎ SearchArgs)
    (encode_req : TavilyReq → Str) (accepts : Str → Bool) (send : Request → E ⊎ Response E)
    (decode_resp : Str → D ⊎ TavilyResp) (encode_out : List SearchItem → Str) where
  -- A body that is read, and what is made of it.
  pub record Parsed (status_code : ℕ) (raw out : Str) : Type 0 where
    pub good : status_code / 100 ≡ 2
    pub response : TavilyResp
    pub decoded : decode_resp raw ≡ inr response
    pub no_error : response.error ≡ []
    pub items : List SearchItem
    pub listed : Lists response.results items
    pub encoded : out ≡ encode_out items

  -- The request that was answered, and the answer.
  pub record Answered (args_json out : Str) : Type 0 where
    pub keyed : t.api_key ≢ []
    pub args : SearchArgs
    pub decoded : decode_args args_json ≡ inr args
    pub asked : args.query ≢ []
    pub request : Request
    pub asks : Asks t encode_req args request
    pub accepted : accepts request.url ≡ true
    pub resp : Response E
    pub sent : send request ≡ inr resp
    pub raw : Str
    pub read : resp.raw ≡ inr raw
    pub parsed : Parsed resp.status_code raw out

  abbrev body : ℕ → Str → TavilyError E D ⊎ Str
  body = read_body t decode_args encode_req accepts send decode_resp encode_out

  abbrev answer : Str → TavilyError E D ⊎ Str
  answer = call t decode_args encode_req accepts send decode_resp encode_out

  read_body-Parsed :
      (status_code : ℕ) (raw out : Str)
      → body status_code raw ≡ inr out
      → Parsed status_code raw out
  unfolding read_body
  read_body-Parsed status_code raw out h = elim (Bool-cases (status_code / 100 == 2)) [
    | inr bad ↦ absurd (let e = rw (read_body, bad) at h in cc)
    | inl good ↦ elim (Sum-cases (decode_resp raw)) [
      | inl (d, broken) ↦ absurd (let e = rw (read_body, good, broken) at h in cc)
      | inr (response, decoded) ↦ elim (Bool-cases (str_eq response.error [])) [
        | inr told ↦ absurd (let e = rw (read_body, good, decoded, told) at h in cc)
        | inl quiet ↦ record {
          good = ground arith;
          response = response;
          decoded = decoded;
          no_error = (str_eq_iff response.error []).0 quiet;
          items = map item_of response.results;
          listed = map-Lists response.results;
          encoded = let e = rw (read_body, good, decoded, quiet) at h in cc;
        }
      ]
    ]
  ]

  Parsed-read_body :
      (status_code : ℕ) (raw out : Str)
      → Parsed status_code raw out
      → body status_code raw ≡ inr out
  unfolding read_body
  Parsed-read_body status_code raw out p =
      let good : (status_code / 100 == 2) ≡ true = (==_iff (status_code / 100) 2).1 p.good in
      let quiet = (str_eq_iff p.response.error []).1 p.no_error in
      rw (read_body, good, p.decoded, quiet)
        (ap (λ items. inr (encode_out items)) (sym (Lists-map p.response.results p.items p.listed))
          ∙ ap inr (sym p.encoded))

  call-Answered : (args_json out : Str) → answer args_json ≡ inr out → Answered args_json out
  unfolding call
  call-Answered args_json out h = elim (Bool-cases (str_eq t.api_key [])) [
    | inl no_key ↦ absurd (let e = rw (call, no_key) at h in cc)
    | inr keyed ↦ elim (Sum-cases (decode_args args_json)) [
      | inl (d, broken) ↦ absurd (let e = rw (call, keyed, broken) at h in cc)
      | inr (args, decoded) ↦ elim (Bool-cases (str_eq args.query [])) [
        | inl blank ↦ absurd (let e = rw (call, keyed, decoded, blank) at h in cc)
        | inr asked ↦ elim (Bool-cases (accepts (request_of t encode_req args).url)) [
          | inr bad ↦ absurd (let e = rw (call, keyed, decoded, asked, bad) at h in cc)
          | inl accepted ↦ elim (Sum-cases (send (request_of t encode_req args))) [
            | inl (x, lost) ↦
                absurd (let e = rw (call, keyed, decoded, asked, accepted, lost) at h in cc)
            | inr (resp, sent) ↦ elim (Sum-cases resp.raw) [
              | inl (x, cut) ↦
                  absurd (let e = rw (call, keyed, decoded, asked, accepted, sent, cut) at h in cc)
              | inr (raw, read) ↦ record {
                keyed = λ k. ground (arith, str_eq_iff t.api_key []);
                args = args;
                decoded = decoded;
                asked = λ k. ground (arith, str_eq_iff args.query []);
                request = request_of t encode_req args;
                asks = request_of-Asks t encode_req args;
                accepted = accepted;
                resp = resp;
                sent = sent;
                raw = raw;
                read = read;
                parsed =
                    read_body-Parsed resp.status_code raw out
                      (rw (call, keyed, decoded, asked, accepted, sent, read) at h);
              }
            ]
          ]
        ]
      ]
    ]
  ]

  -- The tool answers with a text exactly when it has a key, the arguments decode to a query that is
  -- not empty, the URL is accepted, the request with the key as its bearer token, the query, the
  -- depth (or basic) and the number of results (or five) gets a response whose body can be read,
  -- its status is one of 2xx, the body decodes to results without an error, and the text is that of
  -- one item for each result, with its title, URL and content, in order.
  pub call-eq-inr_iff :
      (args_json out : Str) → (answer args_json ≡ inr out) ↔ Answered args_json out
  unfolding call
  call-eq-inr_iff args_json out = (
    call-Answered args_json out,
    λ a.
        let same = Asks-request_of t encode_req a.args a.request a.asks in
        rw
          (
            call,
            not_blank t.api_key a.keyed,
            a.decoded,
            not_blank a.args.query a.asked,
            rw same at a.accepted,
            rw same at a.sent,
            a.read,
          )
          (Parsed-read_body a.resp.status_code a.raw out a.parsed),
  )
