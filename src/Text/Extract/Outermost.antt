-- ===== src/Text/Extract/Outermost.antt =====
-- What internal/agent/jsonutil/extract.go finds: the first block of balanced braces.
use go_research.Prelude.{
  List-cases, ℕ, zero, suc, ◌+◌, ◌<◌, ◌≡◌, refl, sym, ap, ◌≢◌, ◌⊎◌, inl, inr, true, false, ◌&&◌,
  Option, none, some, [], ◌∷◌, ◌++◌, Str, arith, ◌==◌, if◌then◌else◌, Bool-cases, ◌∙◌, ◌-◌, subst,
}
use go_research.Text.Extract.{block_at, next_depth, prepend}

abbrev pub opening : ℕ → ℕ
opening c = if c == b'{' then 1 else 0

abbrev pub closing : ℕ → ℕ
closing c = if c == b'}' then 1 else 0

abbrev pub opens : Str → ℕ
opens [] = 0
opens (c ∷ s) = opening c + opens s

abbrev pub closes : Str → ℕ
closes [] = 0
closes (c ∷ s) = closing c + closes s

-- From depth `d`, the block closes the last open brace with its last byte, and none before.
pub record Balances (d : ℕ) (block : Str) : Type 0 where
  pub even : opens block + d ≡ closes block
  pub inside : (p q : Str) → block ≡ p ++ q → q ≢ [] → closes p < opens p + d

-- A block that starts with an opening brace and ends with the brace that matches it.
pub record IsOutermost (block : Str) : Type 0 where
  pub body : Str
  pub split : block ≡ b'{' ∷ body
  pub balanced : Balances 1 body

split-cons :
    (c : ℕ) (t p q : Str) → c ∷ t ≡ p ++ q → (p ≡ []) ⊎ ((p' : Str) × (p ≡ c ∷ p') × (t ≡ p' ++ q))
split-cons c t [] q e = inl refl
split-cons c t (x ∷ p) q e = inr (p, ground arith, ground arith)

append-nil_inv : (p q : Str) → [] ≡ p ++ q → q ≡ []
append-nil_inv [] q e = sym e
append-nil_inv (c ∷ p) q e = cc

Balances-last : (c : ℕ) → c ≡ b'}' → Balances 1 (c ∷ [])
Balances-last c h = record {
  even = ground arith;
  inside = λ p q e ne. elim (split-cons c [] p q e) [
    | inl empty ↦ rw empty (omega arith)
    | inr (p', first, rest) ↦ absurd (ne (append-nil_inv p' q rest))
  ];
}

Balances-cons :
    (c d d' : ℕ) (block : Str)
    → opening c + suc d ≡ suc d' + closing c
    → Balances (suc d') block
    → Balances (suc d) (c ∷ block)
Balances-cons c d d' block step b = record {
  even = omega (arith, b.even);
  inside = λ p q e ne. elim (split-cons c block p q e) [
    | inl empty ↦ rw empty (omega arith)
    | inr (p', first, rest) ↦ rw first (omega (arith, b.inside p' q rest ne))
  ];
}

-- Away from the last brace, the depth stays positive.
next_depth-suc :
    (d c : ℕ)
    → c == b'}' && suc d == 1 ≡ false
    → (d' : ℕ) × (next_depth (suc d) c ≡ suc d') × (opening c + suc d ≡ suc d' + closing c)
next_depth-suc zero c h = (opening c, ground arith, ground arith)
next_depth-suc (suc d) c h = (suc d + opening c - closing c, ground arith, ground arith)

block_at-nil : (d : ℕ) → block_at d [] ≡ none
unfolding block_at
block_at-nil d = refl

module _ (d c : ℕ) (cs : Str) where
  block_at-last : c == b'}' && suc d == 1 ≡ true → block_at (suc d) (c ∷ cs) ≡ some (c ∷ [])
  unfolding block_at
  block_at-last h = rw (h, block_at)

  block_at-more :
      (d' : ℕ)
      → c == b'}' && suc d == 1 ≡ false
      → next_depth (suc d) c ≡ suc d'
      → block_at (suc d) (c ∷ cs) ≡ prepend c (block_at (suc d') cs)
  unfolding block_at
  block_at-more d' h e = rw (h, block_at) (ap (λ n. prepend c (block_at n cs)) e)

pub prepend-some :
    (c : ℕ) (o : Option Str) (block : Str)
    → prepend c o ≡ some block
    → (r : Str) × (o ≡ some r) × (block ≡ c ∷ r)
prepend-some c none block h = cc
prepend-some c (some r) block h = (r, refl, ground arith)

pub block_at-Balances :
    (d : ℕ) (s block : Str)
    → block_at (suc d) s ≡ some block
    → Balances (suc d) block × ((post : Str) × (s ≡ block ++ post))
block_at-Balances d [] block h = cc (block_at-nil (suc d))
block_at-Balances d (c ∷ cs) block h = elim (Bool-cases (c == b'}' && suc d == 1)) [
  | inl last ↦
      let is : c ∷ [] ≡ block = cc (block_at-last d c cs last) in
      let zero_depth : 0 ≡ d = ground arith in
      subst (λ z. Balances (suc d) z × ((post : Str) × (c ∷ cs ≡ z ++ post))) is
        (
          subst (λ z. Balances (suc z) (c ∷ [])) zero_depth (Balances-last c (ground arith)),
          (cs, refl),
        )
  | inr more ↦
      let (d', deep, step) = next_depth-suc d c more in
      let (r, found, is) =
        prepend-some c (block_at (suc d') cs) block (sym (block_at-more d c cs d' more deep) ∙ h) in
      let (b, (post, e)) = block_at-Balances d' cs r found in
      rw is (Balances-cons c d d' r step b, (post, ap (λ t. c ∷ t) e))
]

-- A balanced block is found, whatever follows it.
pub block_at_complete :
    (d : ℕ) (block post : Str)
    → Balances (suc d) block
    → block_at (suc d) (block ++ post) ≡ some block
block_at_complete d [] post b = absurd (omega (arith, b.even))
block_at_complete d (c ∷ r) post b = elim (Bool-cases (c == b'}' && suc d == 1)) [
  | inl last ↦ elim (List-cases r) [
    | inl empty ↦ rw empty (block_at-last d c post last)
    | inr (x, xs, more) ↦
        let bound = b.inside (c ∷ []) r refl (λ e. cc more) in absurd (ground arith)
  ]
  | inr more ↦
      let (d', deep, step) = next_depth-suc d c more in
      let inner : Balances (suc d') r = record {
        even = omega (arith, b.even);
        inside = λ p q e ne. omega (arith, b.inside (c ∷ p) q (ap (λ t. c ∷ t) e) ne);
      } in
      block_at-more d c (r ++ post) d' more deep ∙ rw (block_at_complete d' r post inner) refl
]
