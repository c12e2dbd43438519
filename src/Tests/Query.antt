-- ===== src/Tests/Query.antt =====
-- internal/query/query.go: a funnel of two steps.
use glimt.Base.{◌≡◌, true, List, [], ◌∷◌, map, codes}
use glimt.Store.Sql.{ok, sound}
use glimt.Query.Funnel.{Step, StepResult, evaluate_funnel}
use glimt.Query.Funnel.Counts.{
  tally, count_of, funnel_rows, sessions_with, Falls, evaluate_funnel-counts, evaluate_funnel-Falls,
}
use glimt.Tests.Sample.{db, now}

abbrev first : Step
first = record { name = codes "/a"; is_url = true }

abbrev second : Step
second = record { name = codes "/b"; is_url = true }

evaluate_funnel-counts_example :
    (rs : List StepResult) × (evaluate_funnel 1 (first ∷ second ∷ []) 1728000000000 now (sound db)
      ≡ (ok rs, sound db))
    × (map count_of rs
        ≡ tally (sessions_with (funnel_rows 1 1728000000000 now db)) (first ∷ second ∷ []))
evaluate_funnel-counts_example = evaluate_funnel-counts 1 1728000000000 now first (second ∷ []) db

evaluate_funnel-Falls_example :
    (rs : List StepResult) × (evaluate_funnel 1 (first ∷ second ∷ []) 1728000000000 now (sound db)
      ≡ (ok rs, sound db))
    × Falls (sessions_with (funnel_rows 1 1728000000000 now db) []) (map count_of rs)
evaluate_funnel-Falls_example = evaluate_funnel-Falls 1 1728000000000 now first (second ∷ []) db
