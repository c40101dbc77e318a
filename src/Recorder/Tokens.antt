-- ===== src/Recorder/Tokens.antt =====
-- What the events of a run say of its report and its end, for internal/server/research_recorder.go.
use go_research.Prelude.{
  Bool, true, false, ◌||◌, ◌≡◌, refl, sym, ap, List, [], ◌∷◌, ◌++◌, Str, append-nil,
}
use go_research.Orchestrator.{
  Event, plan_event, node_started, search_round, critic_review, node_finished, node_failed,
  writer_token, done, error,
}

-- The tokens of the writer, in order.
abbrev pub report_of : List Event → Str
report_of [] = []
report_of (writer_token delta ∷ evs) = delta ++ report_of evs
report_of (_ ∷ evs) = report_of evs

abbrev pub has_done : List Event → Bool
has_done [] = false
has_done (done elapsed chars ∷ evs) = true
has_done (_ ∷ evs) = has_done evs

pub report_of-split :
    (ev : Event) (evs : List Event) → report_of (ev ∷ evs) ≡ report_of (ev ∷ []) ++ report_of evs
report_of-split (plan_event q sts) evs = refl
report_of-split (node_started i q a) evs = refl
report_of-split (search_round i r q n) evs = refl
report_of-split (critic_review i a sc p f) evs = refl
report_of-split (node_finished i q f c e) evs = refl
report_of-split (node_failed i e) evs = refl
report_of-split (writer_token d) evs = ap (λ (x : Str). x ++ report_of evs) (sym (append-nil d))
report_of-split (done e c) evs = refl
report_of-split (error a m) evs = refl

pub has_done-split :
    (ev : Event) (evs : List Event) → has_done (ev ∷ evs) ≡ (has_done (ev ∷ []) || has_done evs)
has_done-split (plan_event q sts) evs = refl
has_done-split (node_started i q a) evs = refl
has_done-split (search_round i r q n) evs = refl
has_done-split (critic_review i a sc p f) evs = refl
has_done-split (node_finished i q f c e) evs = refl
has_done-split (node_failed i e) evs = refl
has_done-split (writer_token d) evs = refl
has_done-split (done e c) evs = refl
has_done-split (error a m) evs = refl

pub or_assoc : (a b c : Bool) → ((a || b) || c) ≡ (a || (b || c))
or_assoc true b c = refl
or_assoc false b c = refl
