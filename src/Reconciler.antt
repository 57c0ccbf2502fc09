-- ===== src/Reconciler.antt =====
-- crates/flatbed/src/k8s.rs: the finalizer around a reconciler, and the waits for leadership. What the
-- reconciler and the API server answer is given; the calls made of them are a list of events.
pub mod Finalizers
pub mod Leadership
pub mod Watchers
mod Tests
use flatbed.Readiness.{same_bool}
use flatbed.Base.{
  Result, ℕ, suc, zero, Bool, true, false, not, Option, none, some, List, [], ◌∷◌, ◌++◌, ◌==◌,
  list_keys, number_keys, if◌then◌else◌, Text, one_of, ok, err,
}

pub record Object : Type 0 where
  pub deleting : Bool
  pub finalizers : Option (List Text)

-- The action that a reconciler asks for next is of a type of the kube crate. What the calls answer: `patch` to each list of finalizers that it is sent.
pub record Answers (A : Type 0) : Type 0 where
  pub reconcile : Result Text A
  pub cleanup : Result {0, 0} Text Unit
  pub patch : List Text → Result {0, 0} Text Unit

pub data Call : Type 0 where
  reconciles : Call
  cleans_up : (accepted : Bool) → Call
  patches : (finalizers : List Text) → (accepted : Bool) → Call

pub record Reconciled (A : Type 0) : Type 0 where
  pub calls : List Call
  pub action : Result Text A

abbrev pub listed : Option (List Text) → List Text
listed none = []
listed (some fs) = fs

abbrev pub has_finalizer : Object → Text → Bool
has_finalizer obj f = one_of f (listed obj.finalizers)

-- The finalizers that are patched in, and those that are left.
abbrev pub with_finalizer : Text → List Text → List Text
with_finalizer f fs = if one_of f fs then fs else fs ++ f ∷ []

abbrev pub without : Text → List Text → List Text
without f [] = []
without f (g ∷ fs) = let rest = without f fs in if f == g then rest else g ∷ rest

abbrev pub is_ok : {A : Type 0} → Result Text A → Bool
is_ok (ok a) = true
is_ok (err e) = false

abbrev pub then_call : {A : Type 0} → Call → Reconciled A → Reconciled A
then_call c r = record { calls = c ∷ r.calls; action = r.action }

abbrev pub stops : {A : Type 0} → Result Text A → Reconciled A
stops action = record { calls = []; action = action }

abbrev pub call_reconcile : {A : Type 0} → Answers A → Reconciled A
call_reconcile answers = then_call reconciles (stops answers.reconcile)

abbrev pub call_patch : {A : Type 0} → Answers A → List Text → Reconciled A → Reconciled A
call_patch answers fs next =
    then_call (patches fs (is_ok (answers.patch fs)))
      (elim (answers.patch fs) [ ok u ↦ next | err e ↦ stops (err e) ])

-- `add_finalizer`, where it is missing, and the reconciler.
unfoldable pub update_object : {A : Type 0} → Answers A → Object → Text → Reconciled A
update_object answers obj f =
    if has_finalizer obj f
    then call_reconcile answers
    else call_patch answers (with_finalizer f (listed obj.finalizers)) (call_reconcile answers)

module _ {A : Type 0} (await_change : A) (answers : Answers A) where
  unfoldable pub remove_finalizer : Object → Text → Reconciled A
  remove_finalizer obj f =
      call_patch answers (without f (listed obj.finalizers)) (stops (ok await_change))

  unfoldable pub delete_object : Object → Text → Reconciled A
  unfolding remove_finalizer
  delete_object obj f =
      if has_finalizer obj f
      then then_call (cleans_up (is_ok answers.cleanup))
          (elim answers.cleanup [ ok u ↦ remove_finalizer obj f | err e ↦ stops (err e) ])
      else stops (ok await_change)

  pub reconcile_with_finalizer : Option Text → Object → Reconciled A
  unfolding delete_object update_object
  reconcile_with_finalizer none obj = call_reconcile answers
  reconcile_with_finalizer (some f) obj =
      if obj.deleting then delete_object obj f else update_object answers obj f

  -- Around a `KubeNativeReconciler` the steps are the same.
  abbrev pub reconcile_with_finalizer_kube_native : Option Text → Object → Reconciled A
  reconcile_with_finalizer_kube_native f obj = reconcile_with_finalizer f obj

-- A receiver of the leader election's channel: the value it would read, and those that it is still to
-- see before the sender is dropped.
pub record Watch : Type 0 where
  pub now : Bool
  pub later : List Bool

-- The loop of the four waits: whether the value came before the channel closed, and what is left.
unfoldable pub wait_until : (wanted now : Bool) → List Bool → Bool × Watch
wait_until wanted now [] = (same_bool wanted now, record { now = now; later = [] })
wait_until wanted now (v ∷ vs) =
    let rest = wait_until wanted v vs in
    if same_bool wanted now then (true, record { now = now; later = v ∷ vs }) else rest

abbrev pub wait_for_leadership : Watch → Bool × Watch
wait_for_leadership w = wait_until true w.now w.later

abbrev pub wait_for_leadership_loss : Watch → Watch
wait_for_leadership_loss w = (wait_until false w.now w.later).1

abbrev pub wait_for_follower : Watch → Bool × Watch
wait_for_follower w = wait_until false w.now w.later

abbrev pub wait_for_follower_loss : Watch → Watch
wait_for_follower_loss w = (wait_until true w.now w.later).1

-- A round as leader: what the stream's creation answers, and whether the controller ends by itself,
-- after the receiver has come to some state.
pub record Round : Type 0 where
  pub stream : Result {0, 0} Text Unit
  pub ended : Option Watch

pub data Ending : Type 0 where
  returned : Result {0, 0} Text Unit → Ending
  running : Ending

abbrev pub after_round : Option Watch → Watch → Watch
after_round none w = wait_for_leadership_loss w
after_round (some seen) w = seen

pub run_kube_reconciler : List Round → Watch → Ending
unfolding wait_until
run_kube_reconciler [] w = if (wait_for_leadership w).0 then running else returned (ok tt)
run_kube_reconciler (r ∷ rs) w =
    let led = wait_for_leadership w in
    let rest = run_kube_reconciler rs (after_round r.ended led.1) in
    if led.0 then elim r.stream [ ok u ↦ rest | err e ↦ returned (err e) ] else returned (ok tt)
