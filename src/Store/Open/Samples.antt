-- ===== src/Store/Open/Samples.antt =====
-- A database that answers the third ping, and a directory with one migration.
use go_research.Prelude.{
  ℕ, Bool, true, false, ltb, ◌≡◌, ◌⊎◌, refl, Option, none, some, List, [], ◌∷◌, Str, codes,
}
use go_research.Text.{has_suffix}
use go_research.Store.Ordered.{order_by}
use go_research.Store.Open.{Entry, open_store, context_done}
use go_research.Store.Open.Ready.{Ready, Refused, open_store-settled}

abbrev pings : ℕ → Bool
pings n = ltb 2 n

abbrev patient : ℕ → Bool
patient n = false

abbrev read_file : Str → Option Str
read_file name = some (codes "CREATE TABLE")

abbrev runs : ℕ → Bool
runs n = true

abbrev entries : List Entry
entries =
    record { name = codes "001.sql"; is_dir = false }
    ∷ record { name = codes "README"; is_dir = false }
    ∷ []

one_applied :
    open_store read_file runs true pings patient (some entries)
    ≡ record { err = none; is_closed = false; applied = codes "CREATE TABLE" ∷ [] }
unfolding open_store has_suffix order_by
one_applied = refl

-- The context is done after the second ping.
given_up :
    open_store read_file runs true pings (λ n. ltb 1 n) (some entries)
    ≡ record { err = some context_done; is_closed = true; applied = [] }
unfolding open_store
given_up = refl

open_store-settled_example :
    Ready read_file runs true pings patient
      (some entries)
      (open_store read_file runs true pings patient (some entries))
    ⊎ Refused read_file runs true pings patient
        (some entries)
        (open_store read_file runs true pings patient (some entries))
open_store-settled_example = open_store-settled read_file runs true pings patient (some entries)
