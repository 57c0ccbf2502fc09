-- ===== src/Reconciler/Tests.antt =====
-- k8s.rs: the theorems at concrete inputs.
use flatbed.Base.{
  one_of, ◌≡◌, refl, true, false, none, some, [], ◌∷◌, Text, codes, ok, ℕ, if◌then◌else◌, arith,
}
use flatbed.Reconciler.{
  Object, Answers, cleans_up, patches, listed, reconcile_with_finalizer, delete_object,
  remove_finalizer, Round, running, returned, run_kube_reconciler,
}
use flatbed.Reconciler.Finalizers.{IsSafe, reconcile_with_finalizer-IsSafe}
use flatbed.Reconciler.Leadership.{final, run_kube_reconciler-final}

abbrev ours : Text
ours = codes "flatbed/cleanup"

abbrev doomed : Object
doomed = record { deleting = true; finalizers = some (codes "other" ∷ ours ∷ []) }

abbrev answers : Answers ℕ
answers = record { reconcile = ok 60; cleanup = ok tt; patch = λ fs. ok tt }

deleted :
    (reconcile_with_finalizer 0 answers (some ours) doomed).calls
    ≡ cleans_up true ∷ patches (codes "other" ∷ []) true ∷ []
unfolding reconcile_with_finalizer delete_object remove_finalizer
deleted = refl

reconcile_with_finalizer-IsSafe_example :
    IsSafe ours doomed false
      (one_of ours (listed doomed.finalizers))
      (reconcile_with_finalizer 0 answers (some ours) doomed).calls
reconcile_with_finalizer-IsSafe_example = reconcile_with_finalizer-IsSafe 0 answers ours doomed

abbrev lost : Round
lost = record { stream = ok tt; ended = none }

-- The channel closes with this pod leading: the last rounds start a controller and lose it at once.
run_kube_reconciler-final_example :
    run_kube_reconciler
      (lost ∷ lost ∷ lost ∷ lost ∷ [])
      (record { now = false; later = true ∷ false ∷ true ∷ [] })
    ≡ (if final false (true ∷ false ∷ true ∷ []) then running else returned (ok tt))
run_kube_reconciler-final_example =
    run_kube_reconciler-final (lost ∷ lost ∷ lost ∷ lost ∷ []) false (true ∷ false ∷ true ∷ [])
      ((refl, refl), ((refl, refl), ((refl, refl), ((refl, refl), tt)))) (omega arith)
