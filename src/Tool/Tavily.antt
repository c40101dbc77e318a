-- ===== src/Tool/Tavily.antt =====
-- `Call` of internal/tool/search/tavily.go. The HTTP client, which URLs http.NewRequest accepts, and
-- json.Marshal and json.Unmarshal are parameters. The time limit of the client is left out.
pub mod Asked
pub mod Answered
mod Samples
use go_research.Prelude.{
  ℕ, ◌/◌, ◌==◌, not, Bool, true, false, ◌⊎◌, inl, inr, Option, none, some, List, [], ◌∷◌, ◌++◌, map,
  Str, codes, str_eq, leb, length, take, if◌then◌else◌,
}
use go_research.Prelude.Int.{ℤ, pos, lebℤ}
use go_research.Researcher.Dedup.{SearchItem}
use go_research.Tool.{SearchArgs}

pub record Tavily : Type 0 where
  pub api_key : Str
  pub search_depth : Str
  pub endpoint : Str

-- `NewTavily`
unfoldable pub new_tavily : (api_key search_depth : Str) → Tavily
new_tavily api_key search_depth = record {
  api_key = api_key;
  search_depth = if str_eq search_depth [] then codes "basic" else search_depth;
  endpoint = [];
}

pub record TavilyReq : Type 0 where
  pub query : Str
  pub search_depth : Str
  pub max_results : ℤ

pub record TavilyItem : Type 0 where
  pub title : Str
  pub url : Str
  pub content : Str

pub record TavilyResp : Type 0 where
  pub results : List TavilyItem
  pub error : Str

-- The request, less its content type.
pub record Request : Type 0 where
  pub url : Str
  pub authorization : Str
  pub body : Str

-- The response; its body may fail to be read.
pub record Response (E : Type 0) : Type 0 where
  pub status_code : ℕ
  pub raw : E ⊎ Str

pub data TavilyError (E D : Type 0) : Type 0 where
  no_api_key empty_query bad_url : TavilyError E D
  bad_args : D → TavilyError E D
  request_failed unreadable : E → TavilyError E D
  http_status : (status_code : ℕ) (body : Str) → TavilyError E D
  undecodable : D → (body : Str) → TavilyError E D
  told : Str → TavilyError E D

-- `snippet`
abbrev pub snippet : Str → ℕ → Str
snippet b n = if leb (length b) n then b else take n b ++ codes "..."

abbrev pub or_default : Str → Str → Str
or_default s fallback = if str_eq s [] then fallback else s

abbrev pub item_of : TavilyItem → SearchItem
item_of r = record { title = r.title; url = r.url; snippet = r.content }

module _ (t : Tavily) (encode_req : TavilyReq → Str) where
  -- The body of the request.
  abbrev pub req_of : SearchArgs → TavilyReq
  req_of a = record {
    query = a.query;
    search_depth = or_default t.search_depth (codes "basic");
    max_results = if lebℤ a.max_items (pos 0) then pos 5 else a.max_items;
  }

  abbrev pub request_of : SearchArgs → Request
  request_of a = record {
    url = or_default t.endpoint (codes "https://api.tavily.com/search");
    authorization = codes "Bearer " ++ t.api_key;
    body = encode_req (req_of a);
  }

module _ {E D : Type 0} (t : Tavily) (decode_args : Str → D ⊎ SearchArgs)
    (encode_req : TavilyReq → Str) (accepts : Str → Bool) (send : Request → E ⊎ Response E)
    (decode_resp : Str → D ⊎ TavilyResp) (encode_out : List SearchItem → Str) where
  -- What follows when the body of a response has been read.
  unfoldable pub read_body : (status_code : ℕ) → Str → TavilyError E D ⊎ Str
  read_body status_code raw =
      if not (status_code / 100 == 2)
      then inl (http_status status_code (snippet raw 200))
      else elim (decode_resp raw) [
        | inl d ↦ inl (undecodable d (snippet raw 200))
        | inr tr ↦
            if not (str_eq tr.error [])
            then inl (told tr.error)
            else inr (encode_out (map item_of tr.results))
      ]

  -- `Call`
  unfoldable pub call : Str → TavilyError E D ⊎ Str
  unfolding read_body
  call args_json = if str_eq t.api_key [] then inl no_api_key else elim (decode_args args_json) [
    | inl d ↦ inl (bad_args d)
    | inr a ↦
        if str_eq a.query []
        then inl empty_query
        else if not (accepts (request_of t encode_req a).url)
        then inl bad_url
        else elim (send (request_of t encode_req a)) [
          | inl e ↦ inl (request_failed e)
          | inr resp ↦ elim resp.raw [
            | inl e ↦ inl (unreadable e)
            | inr raw ↦ read_body resp.status_code raw
          ]
        ]
  ]
