-- ===== src/Store/Open.antt =====
-- `Open` and `migrate` of internal/store/postgres/postgres.go. The pool of connections, the context and the
-- file system of the migrations are parameters. An error is told by its kind.
pub mod Ready
mod Samples
use go_research.Prelude.{
  ℕ, zero, suc, ◌+◌, Bool, true, false, not, ◌&&◌, ◌||◌, ◌==◌, ltb, ◌⊎◌, inl, inr, Option, none,
  some, List, [], ◌∷◌, ◌++◌, Str, codes, str_eq, length, drop, if◌then◌else◌, reverse,
}
use go_research.Text.{has_suffix}
use go_research.Store.Ordered.{order_by}

-- `pgConnectAttempts`
abbrev pub connect_attempts : ℕ
connect_attempts = 20

pub data OpenError : Type 0 where
  connect_failed ping_failed context_done migrations_unreadable : OpenError
  unreadable not_applied : (name : Str) → OpenError

-- The loop of pings from an attempt on: `pings` says which succeed, and `is_done` after which the context
-- is done. Its fuel is the number of attempts that are left, and without fuel it is left as the source
-- leaves it.
unfoldable pub ping_loop : (pings is_done : ℕ → Bool) → (fuel attempt : ℕ) → Option OpenError
ping_loop pings is_done zero attempt = none
ping_loop pings is_done (suc fuel) attempt =
    let rest = ping_loop pings is_done fuel (attempt + 1) in
    if pings attempt
    then none
    else if attempt == connect_attempts
    then some ping_failed
    else if is_done attempt
    then some context_done
    else rest

-- A directory entry.
pub record Entry : Type 0 where
  pub name : Str
  pub is_dir : Bool

-- The names of the migrations in the directory.
pub names_of : List Entry → List Str
names_of [] = []
names_of (e ∷ es) =
    let rest = names_of es in
    if not e.is_dir && has_suffix e.name (codes ".sql") then e.name ∷ rest else rest

-- The order of sort.Strings, by bytes.
pub sorts_before : Str → Str → Bool
sorts_before [] t = true
sorts_before (b ∷ s) [] = false
sorts_before (b ∷ s) (c ∷ t) = let rest = sorts_before s t in if b == c then rest else ltb b c

module _ (read_file : Str → Option Str) (runs : ℕ → Bool) where
  -- The loop of `migrate`, given the statements that have been run: the error, if there is one, and the
  -- statements that have been run then. `runs n` is whether statement number `n` succeeds.
  unfoldable pub apply_all : List Str → List Str → Option OpenError × List Str
  apply_all [] applied = (none, applied)
  apply_all (name ∷ names) applied = elim (read_file name) [
    | none ↦ (some (unreadable name), applied)
    | some body ↦
        let rest = apply_all names (applied ++ body ∷ []) in
        if runs (length applied) then rest else (some (not_applied name), applied)
  ]

  -- `migrate`; none for a directory that cannot be read.
  unfoldable pub migrate : Option (List Entry) → Option OpenError × List Str
  unfolding names_of sorts_before order_by apply_all
  migrate none = (some migrations_unreadable, [])
  migrate (some entries) = apply_all (order_by sorts_before (names_of entries)) []

  -- What `Open` leaves: its error, if there is one, whether the pool has been closed, and the
  -- statements that have been run.
  pub record Opened : Type 0 where
    pub err : Option OpenError
    pub is_closed : Bool
    pub applied : List Str

  -- `Open`
  unfoldable pub open_store :
      (connects : Bool) (pings is_done : ℕ → Bool) → Option (List Entry) → Opened
  unfolding ping_loop migrate
  open_store connects pings is_done entries =
      if not connects
      then record { err = some connect_failed; is_closed = false; applied = [] }
      else elim (ping_loop pings is_done connect_attempts 1) [
        | some e ↦ record { err = some e; is_closed = true; applied = [] }
        | none ↦
            let (failed, applied) = migrate entries in
            elim failed [
              | some e ↦ record { err = some e; is_closed = true; applied = applied }
              | none ↦ record { err = none; is_closed = false; applied = applied }
            ]
      ]
