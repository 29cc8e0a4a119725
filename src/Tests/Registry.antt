-- ===== src/Tests/Registry.antt =====
-- A registry with a submission, a publication and a rejection.
use pingsix.Prelude.{◌≡◌, ◌⊎◌, refl, some, none, arith, ℕ_discrete, nat_eq}
use pingsix.Prelude.Dict
use pingsix.Prelude.Ordered
use pingsix.Graph.Publication.{
  PublicationRecord, PublicationRegistry, published, superseded, empty, view, mark_pending,
  mark_published, mark_rejected, supersede_pending_except, enter, trim,
}
use pingsix.Graph.Publication.Bounds.{IsBounded}
use pingsix.Graph.Publication.Outcomes
use pingsix.Graph.Publication.Outcomes.{apply, effect}
use pingsix.Graph.Publication.Views

program : Unit {0}
unfolding view mark_pending mark_published mark_rejected supersede_pending_except enter trim empty
    Dict.lookup Ordered.insert ℕ_discrete
program = tt

abbrev two : PublicationRegistry
two = mark_published 5 (supersede_pending_except 5 (mark_pending 5 (mark_pending 4 empty)))

two_views :
    (view 4 two ≡ some (record { state = superseded; published_revision = some 5; error = none }))
    × (view 5 two ≡ some (record { state = published; published_revision = some 5; error = none }))
unfolding program
two_views = (refl, refl)

mark_published-IsBounded_example :
    IsBounded (mark_published 6 two).records × IsBounded (mark_pending 6 two).records
mark_published-IsBounded_example = Views.mark_published-IsBounded 6 two (omega arith)

published_final_example :
    (Dict.lookup 5 (apply (Outcomes.reject 5 "late") two).records ≡ none)
    ⊎ ((y : PublicationRecord) × (Dict.lookup 5 (apply (Outcomes.reject 5 "late") two).records
          ≡ some y)
        × (y.state ≡ published))
unfolding program
published_final_example =
    Views.published_final (Outcomes.reject 5 "late") 5 two
      {x = record { state = published; error = none }} (omega arith) refl refl
