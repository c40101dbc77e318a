-- ===== src/Tool.antt =====
-- internal/tool/tool.go: the registry. The lock makes its operations atomic, so they are functions on the
-- map. The tools themselves are values with a name.
pub mod Cached
pub mod Mock
pub mod Tavily
mod Samples
use go_research.Prelude.{
  ℕ, ◌≡◌, ◌≢◌, refl, ap, sym, ◌∙◌, Bool, true, false, inl, inr, Option, none, some, List, [], ◌∷◌,
  Str, str_eq, str_eq_iff, Map, lookup, insert, lookup-insert, Bool-cases, Option-cases, arith,
  if◌then◌else◌,
}
use go_research.Prelude.Int.{ℤ}

pub record Tool (T : Type 0) : Type 0 where
  pub name : Str
  pub body : T

pub data RegisterError : Type 0 where
  nil_tool empty_name : RegisterError
  duplicate : (name : Str) → RegisterError

pub record SearchArgs : Type 0 where
  pub query : Str
  pub max_items : ℤ

module _ {T : Type 0} where
  -- `Register`; none is a nil tool.
  unfoldable pub register : Option (Tool T) → Map (Tool T) → Option RegisterError × Map (Tool T)
  register none tools = (some nil_tool, tools)
  register (some t) tools =
      if str_eq t.name [] then (some empty_name, tools) else elim (lookup t.name tools) [
        | some other ↦ (some (duplicate t.name), tools)
        | none ↦ (none, insert t.name t tools)
      ]

  -- `Get`
  unfoldable pub get : Map (Tool T) → Str → Option (Tool T)
  get tools name = lookup name tools

  -- What is in the registry after some calls of Register, whatever they return.
  pub register_all : List (Option (Tool T)) → Map (Tool T) → Map (Tool T)
  unfolding register
  register_all [] tools = tools
  register_all (t ∷ ts) tools = register_all ts (register t tools).1

  -- The first of the tools that has the name.
  abbrev pub first_named : Str → List (Option (Tool T)) → Option (Tool T)
  first_named name [] = none
  first_named name (none ∷ ts) = first_named name ts
  first_named name (some t ∷ ts) = if str_eq t.name name then some t else first_named name ts

  abbrev or_first : Option (Tool T) → Option (Tool T) → Option (Tool T)
  or_first none u = u
  or_first (some t) u = some t

  register-first :
      (t : Option (Tool T)) (tools : Map (Tool T)) (name : Str) (u : Option (Tool T))
      → name ≢ []
      → or_first (lookup name (register t tools).1) u
        ≡ or_first (lookup name tools) (or_first (first_named name (t ∷ [])) u)
  unfolding register
  register-first none tools name u h = ground arith
  register-first (some t) tools name u h =
      ground
        (arith, str_eq_iff t.name [], str_eq_iff t.name name, lookup-insert t.name name t tools)

  first_named-cons :
      (t : Option (Tool T)) (ts : List (Option (Tool T))) (name : Str)
      → or_first (first_named name (t ∷ [])) (first_named name ts) ≡ first_named name (t ∷ ts)
  first_named-cons none ts name = refl
  first_named-cons (some t) ts name = ground arith

  register_all-first :
      (ts : List (Option (Tool T))) (tools : Map (Tool T)) (name : Str)
      → name ≢ []
      → lookup name (register_all ts tools) ≡ or_first (lookup name tools) (first_named name ts)
  unfolding register_all
  register_all-first [] tools name h = ground arith
  register_all-first (t ∷ ts) tools name h =
      register_all-first ts (register t tools).1 name h
      ∙ register-first t tools name (first_named name ts) h
      ∙ ap (λ u. or_first (lookup name tools) u) (first_named-cons t ts name)

  -- Whatever is registered, and in whatever order it fails: under a name the registry gives the first
  -- tool that was registered with it, and none if there was none.
  pub get-register_all :
      (ts : List (Option (Tool T))) (name : Str)
      → name ≢ []
      → get (register_all ts []) name ≡ first_named name ts
  unfolding get lookup
  get-register_all ts name h = register_all-first ts [] name h
