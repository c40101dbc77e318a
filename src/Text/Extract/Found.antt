-- ===== src/Text/Extract/Found.antt =====
-- `ExtractObject` (internal/agent/jsonutil/extract.go) returns the first balanced block.
use go_research.Prelude.{
  ℕ, ◌≡◌, refl, sym, ap, ◌∙◌, ◌≢◌, ◌⊎◌, inl, inr, none, some, [], ◌∷◌, ◌++◌, Str, arith, ◌==◌, In,
  Option-cases, Bool-cases,
}
use go_research.Text.{trim_space}
use go_research.Text.Extract.{block_at, first_block, prepend, without_fences, extract_object}
use go_research.Text.Extract.Outermost.{IsOutermost, block_at-Balances, block_at_complete}

-- `block` stands in the string, and no brace opens before it.
pub record IsFirst (s block : Str) : Type 0 where
  pub pre : Str
  pub post : Str
  pub split : s ≡ pre ++ block ++ post
  pub clear : ¬ In b'{' pre

start_block : (cs : Str) → block_at 0 (b'{' ∷ cs) ≡ prepend b'{' (block_at 1 cs)
unfolding block_at
start_block cs = refl

first_block-open :
    (cs : Str)
    → first_block (b'{' ∷ cs) ≡ elim (block_at 0 (b'{' ∷ cs)) [ none ↦ [] | some block ↦ block ]
unfolding first_block
first_block-open cs = refl

first_block-skip : (c : ℕ) (cs : Str) → ¬ (c ≡ b'{') → first_block (c ∷ cs) ≡ first_block cs
unfolding first_block
first_block-skip c cs h = ground arith

first_block-nil : first_block [] ≡ []
unfolding first_block
first_block-nil = refl

-- From an opening brace: the balanced block, or nothing.
first_block-cases :
    (cs : Str)
    → (first_block (b'{' ∷ cs) ≡ [])
      ⊎ ((r : Str) × (block_at 1 cs ≡ some r) × (first_block (b'{' ∷ cs) ≡ b'{' ∷ r))
unfolding first_block
first_block-cases cs = elim (Option-cases (block_at 1 cs)) [
  | inl nothing ↦ inl (ground (arith, start_block cs))
  | inr (r, found) ↦ inr (r, found, ground (arith, start_block cs))
]

pub first_block-IsOutermost :
    (s block : Str) → first_block s ≡ block → block ≢ [] → IsOutermost block × IsFirst s block
first_block-IsOutermost [] block h ne = absurd (ne (sym h ∙ first_block-nil))
first_block-IsOutermost (c ∷ cs) block h ne = elim (Bool-cases (c == b'{')) [
  | inl opening ↦
      let brace : c ≡ b'{' = ground arith in
      elim (first_block-cases cs) [
        | inl empty ↦ absurd (ne (sym h ∙ rw brace empty))
        | inr (r, found, is) ↦
            let (b, (post, e)) = block_at-Balances 0 cs r found in
            let at : block ≡ b'{' ∷ r = sym h ∙ rw brace is in
            (
              record { body = r; split = at; balanced = b },
              record {
                pre = [];
                post = post;
                split = rw (at, brace) (ap (λ t. b'{' ∷ t) e);
                clear = λ m. m;
              },
            )
      ]
  | inr other ↦
      let skip : ¬ (c ≡ b'{') = ground arith in
      let (outer, first) =
        first_block-IsOutermost cs block (sym (first_block-skip c cs skip) ∙ h) ne in
      (
        outer,
        record {
          pre = c ∷ first.pre;
          post = first.post;
          split = ap (λ t. c ∷ t) first.split;
          clear = λ m. elim m [ inl e ↦ skip (sym e) | inr i ↦ first.clear i ];
        },
      )
]

pub first_block_complete :
    (pre block post : Str)
    → IsOutermost block
    → ¬ In b'{' pre
    → first_block (pre ++ block ++ post) ≡ block
unfolding first_block
first_block_complete [] block post o clear =
    rw o.split
      (ground (arith, start_block (o.body ++ post), block_at_complete 0 o.body post o.balanced))
first_block_complete (c ∷ pre) block post o clear =
    first_block-skip c (pre ++ block ++ post) (λ e. clear (inl (sym e)))
    ∙ first_block_complete pre block post o (λ m. clear (inr m))

Str-empty : (s : Str) → (s ≡ []) ⊎ (s ≢ [])
Str-empty [] = inl refl
Str-empty (c ∷ s) = inr (λ e. cc)

-- What is left of a response once its spaces and its Markdown fences are off.
abbrev pub stripped : Str → Str
stripped s = without_fences (trim_space s)

-- What `ExtractObject` returns is empty, or it is the first block of the stripped response: it starts
-- with the first opening brace and ends with the brace that matches it.
pub extract_object-IsFirst :
    (s : Str)
    → (extract_object s ≡ [])
      ⊎ IsOutermost (extract_object s) × IsFirst (stripped s) (extract_object s)
unfolding extract_object
extract_object-IsFirst s = elim (Str-empty (extract_object s)) [
  | inl empty ↦ inl empty
  | inr ne ↦ inr (first_block-IsOutermost (stripped s) (extract_object s) refl ne)
]

-- `ExtractObject` finds a balanced block behind prose without an opening brace, whatever follows it.
pub extract_object_complete :
    (s pre block post : Str)
    → stripped s ≡ pre ++ block ++ post
    → IsOutermost block
    → ¬ In b'{' pre
    → extract_object s ≡ block
unfolding extract_object
extract_object_complete s pre block post e o clear =
    rw e (first_block_complete pre block post o clear)
