-- ===== src/Researcher/Dedup.antt =====
-- `dedupAppend` (internal/agent/researcher/react.go): the results of all searches, each URL once.
use go_research.Prelude.{
  ◌≡◌, refl, sym, ap, ◌∙◌, ◌≢◌, ◌⊎◌, ◌↔◌, inl, inr, none, some, List, [], ◌∷◌, ◌++◌, Str, Map,
  arith, lookup, insert, lookup-insert, str_eq, str_eq_iff, In, if◌then◌else◌, append-nil,
  append_assoc, Bool-cases, In-append_left, In-concat_cases, In-concat_last,
}
use go_research.Dag.Graph.Add.{Distinct, Distinct-concat}

-- tool.SearchItem
pub record SearchItem : Type 0 where
  pub title : Str
  pub url : Str
  pub snippet : Str

-- `map[string]struct{}`
abbrev pub Seen : Type 0
Seen = Map (Unit {0})

pub record Collected : Type 0 where
  pub seen : Seen
  pub ordered : List SearchItem

-- The body of the loop.
unfoldable pub offer_item : SearchItem → Collected → Collected
offer_item it c = if str_eq it.url [] then c else elim (lookup it.url c.seen) [
  | some _ ↦ c
  | none ↦ record { seen = insert it.url tt c.seen; ordered = c.ordered ++ it ∷ [] }
]

unfoldable pub dedup_append : Collected → List SearchItem → Collected
unfolding offer_item
dedup_append c [] = c
dedup_append c (it ∷ items) = dedup_append (offer_item it c) items

abbrev pub urls : List SearchItem → List Str
urls [] = []
urls (it ∷ items) = it.url ∷ urls items

urls-append : (xs ys : List SearchItem) → urls (xs ++ ys) ≡ urls xs ++ urls ys
urls-append [] ys = refl
urls-append (x ∷ xs) ys = ap (λ t. x.url ∷ t) (urls-append xs ys)

-- The set holds the URLs of the list, which are distinct and not empty.
pub record IsDeduped (c : Collected) : Type 0 where
  pub distinct : Distinct (urls c.ordered)
  pub named : ¬ In [] (urls c.ordered)
  pub held : (u : Str) → (lookup u c.seen ≡ some tt) ↔ In u (urls c.ordered)

pub none_collected : IsDeduped (record { seen = []; ordered = [] })
unfolding lookup
none_collected = record { distinct = tt; named = λ m. m; held = λ u. (λ e. cc, λ m. absurd m) }

module _ (it : SearchItem) (c : Collected) where
  abbrev appended : Collected
  appended = record { seen = insert it.url tt c.seen; ordered = c.ordered ++ it ∷ [] }

  offer_item_cases :
      (offer_item it c ≡ c) × ((it.url ≡ []) ⊎ (lookup it.url c.seen ≡ some tt))
      ⊎ (offer_item it c ≡ appended) × (it.url ≢ []) × (lookup it.url c.seen ≡ none)
  unfolding offer_item
  offer_item_cases = ground (arith, str_eq_iff it.url [])

  appended-IsDeduped : IsDeduped c → it.url ≢ [] → lookup it.url c.seen ≡ none → IsDeduped appended
  appended-IsDeduped d ne fresh =
      let split = urls-append c.ordered (it ∷ []) in
      record {
        distinct = rw split (
            Distinct-concat (urls c.ordered) it.url d.distinct
              (λ m. let old = (d.held it.url).1 m in cc));
        named = λ m. elim (In-concat_cases [] (urls c.ordered) it.url (rw split at m)) [
          | inl old ↦ d.named old
          | inr e ↦ ne (sym e)
        ];
        held = λ u. rw split (
          λ e. elim (Bool-cases (str_eq it.url u)) [
            | inl same ↦
                In-concat_last u (urls c.ordered) it.url (sym ((str_eq_iff it.url u).0 same))
            | inr other ↦
                In-append_left u (urls c.ordered) (it.url ∷ [])
                  ((d.held u).0 (ground (arith, lookup-insert it.url u tt c.seen)))
          ],
          λ m. elim (In-concat_cases u (urls c.ordered) it.url m) [
            | inl old ↦ ground (arith, lookup-insert it.url u tt c.seen, (d.held u).1 old)
            | inr e ↦ ground (arith, lookup-insert it.url u tt c.seen, str_eq_iff it.url u)
          ],
        );
      }

  pub offer_item-IsDeduped : IsDeduped c → IsDeduped (offer_item it c)
  offer_item-IsDeduped d = elim offer_item_cases [
    | inl same ↦ rw same.0 d
    | inr new ↦ rw new.0 (appended-IsDeduped d new.1 new.2)
  ]

-- What is in the list stays where it was.
pub dedup_append-prefix :
    (c : Collected) (items : List SearchItem)
    → (more : List SearchItem) × ((dedup_append c items).ordered ≡ c.ordered ++ more)
unfolding dedup_append
dedup_append-prefix c [] = ([], sym (append-nil c.ordered))
dedup_append-prefix c (it ∷ items) =
    let (more, e) = dedup_append-prefix (offer_item it c) items in
    elim (offer_item_cases it c) [
      | inl same ↦ (more, e ∙ ap (λ (d : Collected). d.ordered ++ more) same.0)
      | inr new ↦ (
        it ∷ more,
        e ∙ ap (λ (d : Collected). d.ordered ++ more) new.0 ∙ append_assoc c.ordered (it ∷ []) more,
      )
    ]

-- After a batch of results the list still has each URL once and no empty one.
pub dedup_append-IsDeduped :
    (c : Collected) (items : List SearchItem) → IsDeduped c → IsDeduped (dedup_append c items)
unfolding dedup_append
dedup_append-IsDeduped c [] d = d
dedup_append-IsDeduped c (it ∷ items) d =
    dedup_append-IsDeduped (offer_item it c) items (offer_item-IsDeduped it c d)

module _ (u : Str) (ne : u ≢ []) where
  offer_item-keeps :
      (it : SearchItem) (c : Collected)
      → lookup u c.seen ≡ some tt
      → lookup u (offer_item it c).seen ≡ some tt
  unfolding offer_item
  offer_item-keeps it c e = ground (arith, lookup-insert it.url u tt c.seen)

  dedup_append-keeps :
      (items : List SearchItem) (c : Collected)
      → lookup u c.seen ≡ some tt
      → lookup u (dedup_append c items).seen ≡ some tt
  unfolding dedup_append
  dedup_append-keeps [] c e = e
  dedup_append-keeps (it ∷ items) c e =
      dedup_append-keeps items (offer_item it c) (offer_item-keeps it c e)

  offer_item-holds :
      (it : SearchItem) (c : Collected) → u ≡ it.url → lookup u (offer_item it c).seen ≡ some tt
  unfolding offer_item
  offer_item-holds it c e =
      ground (arith, lookup-insert it.url u tt c.seen, str_eq_iff it.url [], str_eq_iff it.url u)

  -- Every URL of a batch is held afterwards.
  pub dedup_append-holds :
      (items : List SearchItem) (c : Collected)
      → In u (urls items)
      → lookup u (dedup_append c items).seen ≡ some tt
  unfolding dedup_append
  dedup_append-holds [] c m = absurd m
  dedup_append-holds (it ∷ items) c (inl e) =
      dedup_append-keeps items (offer_item it c) (offer_item-holds it c e)
  dedup_append-holds (it ∷ items) c (inr m) = dedup_append-holds items (offer_item it c) m
