-- ===== src/Text/Extract.antt =====
-- internal/agent/jsonutil/extract.go, and the copy of it in internal/agent/planner/planner.go.
pub mod Outermost
pub mod Found
mod Samples
use go_research.Prelude.{
  ℕ, suc, ◌+◌, ◌-◌, Bool, ◌&&◌, Option, none, some, List, [], ◌∷◌, Str, codes, ◌==◌, if◌then◌else◌,
}
use go_research.Text.{has_prefix, trim_prefix, trim_suffix, trim_space}

-- The depth after a byte. The loop starts at an opening brace, so the depth is at least 1 at a
-- closing one.
abbrev pub next_depth : ℕ → ℕ → ℕ
next_depth depth c = if c == b'{' then depth + 1 else if c == b'}' then depth - 1 else depth

abbrev pub prepend : ℕ → Option Str → Option Str
prepend c none = none
prepend c (some s) = some (c ∷ s)

-- The loop over the bytes from `start`: the slice up to the brace that brings the depth to 0.
unfoldable pub block_at : ℕ → Str → Option Str
block_at depth [] = none
block_at depth (c ∷ cs) =
    let rest = block_at (next_depth depth c) cs in
    if c == b'}' && depth == 1 then some (c ∷ []) else prepend c rest

-- From strings.IndexByte(s, '{') on.
unfoldable pub first_block : Str → Str
unfolding block_at
first_block [] = []
first_block (c ∷ cs) =
    let rest = first_block cs in
    if c == b'{' then elim (block_at 0 (c ∷ cs)) [ none ↦ [] | some block ↦ block ] else rest

abbrev pub fence : Str
fence = codes "```"

abbrev pub fence_json : Str
fence_json = codes "```json"

unfoldable pub without_fences : Str → Str
unfolding has_prefix trim_prefix trim_suffix trim_space
without_fences s =
    if has_prefix s fence
    then trim_space (trim_suffix (trim_prefix (trim_prefix s fence_json) fence) fence)
    else s

-- `ExtractObject`
unfoldable pub extract_object : Str → Str
unfolding without_fences first_block trim_space
extract_object s = first_block (without_fences (trim_space s))

-- `extractJSON`
unfoldable pub extract_json : Str → Str
unfolding without_fences first_block trim_space
extract_json s = first_block (without_fences (trim_space s))
