-- ===== src/Reconciler/Finalizers.antt =====
-- k8s.rs: what the finalizer guarantees.
use flatbed.Base.{
  ◌≡◌, refl, sym, ap, subst, ◌∙◌, Bool, true, false, some, List, [], ◌∷◌, ◌++◌, ◌==◌, list_keys,
  number_keys, if◌then◌else◌, Text, one_of, ok, err, Bool-cases, Result-cases, not, beq_refl, inl,
  inr,
}
use flatbed.Reconciler.{
  Object, Answers, Call, reconciles, cleans_up, patches, Reconciled, listed, has_finalizer, without,
  stops, then_call, call_reconcile, call_patch, remove_finalizer, delete_object, update_object,
  reconcile_with_finalizer,
}

-- The finalizers that are not `f`, in their order.
abbrev unless : Bool → Text → List Text → List Text
unless true g gs = gs
unless false g gs = g ∷ gs

abbrev pub others : Text → List Text → List Text
others f [] = []
others f (g ∷ gs) = unless (f == g) g (others f gs)

-- A list of calls is safe after a cleanup that did or did not succeed, with the finalizer there or not:
-- the reconciler only sees objects that have the finalizer and are not being deleted, only objects being
-- deleted are cleaned up, and a patch leaves every other finalizer as it is; it has the finalizer unless
-- the object is being deleted, and then a cleanup has succeeded.
abbrev pub IsSafe : Text → Object → (cleaned present : Bool) → List Call → Type 0
IsSafe f obj cleaned present [] = Unit
IsSafe f obj cleaned present (reconciles ∷ calls) =
    (obj.deleting ≡ false) × (present ≡ true) × IsSafe f obj cleaned present calls
IsSafe f obj cleaned present (cleans_up accepted ∷ calls) =
    (obj.deleting ≡ true) × IsSafe f obj accepted present calls
IsSafe f obj cleaned present (patches fs accepted ∷ calls) =
    (others f fs ≡ others f (listed obj.finalizers))
    × (one_of f fs ≡ not obj.deleting)
    × (obj.deleting ≡ cleaned)
    × IsSafe f obj cleaned (if accepted then one_of f fs else present) calls

others-without : (f : Text) (fs : List Text) → others f (without f fs) ≡ others f fs
others-without f [] = refl
others-without f (g ∷ fs) = elim (Bool-cases (f == g)) [
  | inl t ↦ rw t (others-without f fs)
  | inr t ↦ rw t (rw t (ap (λ r. g ∷ r) (others-without f fs)))
]

others-append : (f : Text) (fs : List Text) → others f (fs ++ f ∷ []) ≡ others f fs
others-append f [] = rw (beq_refl f)
others-append f (g ∷ fs) = elim (Bool-cases (f == g)) [
  | inl t ↦ rw t (others-append f fs)
  | inr t ↦ rw t (ap (λ r. g ∷ r) (others-append f fs))
]

one_of-append : (f : Text) (fs : List Text) → one_of f (fs ++ f ∷ []) ≡ true
one_of-append f [] = rw (beq_refl f)
one_of-append f (g ∷ fs) = elim (Bool-cases (f == g)) [
  | inl t ↦ rw t
  | inr t ↦ rw t (one_of-append f fs)
]

one_of-without : (f : Text) (fs : List Text) → one_of f (without f fs) ≡ false
one_of-without f [] = refl
one_of-without f (g ∷ fs) = elim (Bool-cases (f == g)) [
  | inl t ↦ rw t (one_of-without f fs)
  | inr t ↦ rw t (rw t (one_of-without f fs))
]

module _ {A : Type 0} (answers : Answers A) (f : Text) (obj : Object) where
  call_patch-IsSafe :
      (cleaned present : Bool) (fs : List Text) (next : Reconciled A)
      → others f fs ≡ others f (listed obj.finalizers)
      → one_of f fs ≡ not obj.deleting
      → obj.deleting ≡ cleaned
      → IsSafe f obj cleaned (one_of f fs) next.calls
      → IsSafe f obj cleaned present (call_patch answers fs next).calls
  call_patch-IsSafe cleaned present fs next w o d h = elim (Result-cases (answers.patch fs)) [
    | inl (u, p) ↦ (w, o, d, rw p h)
    | inr (e, p) ↦ (w, o, d, rw p tt)
  ]

  safe :
      {r s : Reconciled A}
      → r ≡ s
      → IsSafe f obj false (has_finalizer obj f) s.calls
      → IsSafe f obj false (has_finalizer obj f) r.calls
  safe e h = subst (λ t. IsSafe f obj false (has_finalizer obj f) t.calls) (sym e) h

  update_object-IsSafe :
      obj.deleting ≡ false
      → IsSafe f obj false (has_finalizer obj f) (update_object answers obj f).calls
  unfolding update_object
  update_object-IsSafe d = elim (Bool-cases (has_finalizer obj f)) [
    | inl h ↦
        let same : update_object answers obj f ≡ call_reconcile answers = simp (update_object, h) in
        safe same (d, h, tt)
    | inr h ↦
        let fs = listed obj.finalizers in
        let same : update_object answers obj f
            ≡ call_patch answers (fs ++ f ∷ []) (call_reconcile answers) =
          simp (update_object, h) in
        let there = one_of-append f fs in
        safe same (
          call_patch-IsSafe false (has_finalizer obj f) (fs ++ f ∷ []) (call_reconcile answers)
            (others-append f fs) (there ∙ sym (ap not d)) d (d, there, tt))
  ]

  delete_object-IsSafe :
      (await_change : A)
      → obj.deleting ≡ true
      → IsSafe f obj false (has_finalizer obj f) (delete_object await_change answers obj f).calls
  unfolding delete_object remove_finalizer
  delete_object-IsSafe await_change d = elim (Bool-cases (has_finalizer obj f)) [
    | inr h ↦
        let same : delete_object await_change answers obj f ≡ stops (ok await_change) =
          simp (delete_object, h) in
        safe same tt
    | inl h ↦ elim (Result-cases answers.cleanup) [
      | inr (e, c) ↦
          let same : delete_object await_change answers obj f
              ≡ then_call (cleans_up false) (stops (err e)) =
            simp (delete_object, h, c) in
          safe same (d, tt)
      | inl (u, c) ↦
          let left = without f (listed obj.finalizers) in
          let same : delete_object await_change answers obj f
              ≡ then_call (cleans_up true) (call_patch answers left (stops (ok await_change))) =
            simp (delete_object, h, c) in
          let gone = one_of-without f (listed obj.finalizers) in
          safe same (
            d,
            call_patch-IsSafe true (has_finalizer obj f) left (stops (ok await_change))
                (others-without f (listed obj.finalizers)) (gone ∙ sym (ap not d)) d tt,
          )
    ]
  ]

module _ {A : Type 0} (await_change : A) (answers : Answers A) where
  -- Whatever the reconciler and the API server answer, the reconciler only sees an object that has
  -- the finalizer and is not being deleted, only an object that is being deleted is cleaned up, and
  -- a patch keeps all other finalizers of the object in their order, and has the finalizer unless
  -- the object is being deleted, when a cleanup has succeeded before it.
  pub reconcile_with_finalizer-IsSafe :
      (f : Text) (obj : Object)
      → IsSafe f obj false
          (one_of f (listed obj.finalizers))
          (reconcile_with_finalizer await_change answers (some f) obj).calls
  unfolding reconcile_with_finalizer delete_object update_object remove_finalizer
  reconcile_with_finalizer-IsSafe f obj = elim (Bool-cases obj.deleting) [
    | inl d ↦
        let same : reconcile_with_finalizer await_change answers (some f) obj
            ≡ delete_object await_change answers obj f =
          simp (reconcile_with_finalizer, d) in
        safe answers f obj same (delete_object-IsSafe answers f obj await_change d)
    | inr d ↦
        let same : reconcile_with_finalizer await_change answers (some f) obj
            ≡ update_object answers obj f =
          simp (reconcile_with_finalizer, d) in
        safe answers f obj same (update_object-IsSafe answers f obj d)
  ]
