-- ===== src/Tests/Gone.antt =====
-- A group with two ready workers, one of whose deployments is gone.
use datafuse_operator.Prelude.{
  String, Bool, true, false, none, some, [], ◌∷◌, ◌==◌, ◌≡◌, refl, arith, Bool-cases, inl, inr,
  eq_iff, subst,
}
use datafuse_operator.Go.Map.{keys}
use datafuse_operator.Go.Text.{split_n, cut}
use datafuse_operator.Go.Result.{ok}
use datafuse_operator.Api.Types.{ComputeGroup, compute_group_pending}
use datafuse_operator.Operator.Deps.{World}
use datafuse_operator.Operator.Updates.{is_gone, without_gone}
use datafuse_operator.Operator.Gone.{Tells, Keeps, without_gone_lem}
use datafuse_operator.Tests.Deployments.{deps, group, made}

abbrev group_with_status : ComputeGroup
group_with_status = record group {
  status = record group.status {
    ready_compute_workers =
        some (("default/group-worker0", "READY") ∷ ("default/group-worker1", "READY") ∷ []);
    status = "Ready";
  };
}

abbrev there : World deps
there = record { cluster = made ∷ []; events = [] }

abbrev second_gone : String → Bool
second_gone k = k == "default/group-worker1"

first_is_there : is_gone deps (made ∷ []) "default/group-worker0" ≡ ok false
unfolding is_gone split_n cut
first_is_there = refl

second_is_gone : is_gone deps (made ∷ []) "default/group-worker1" ≡ ok true
unfolding is_gone split_n cut
second_is_gone = refl

workers_tell : Tells deps second_gone (made ∷ []) group_with_status.status.ready_compute_workers
unfolding keys
workers_tell k h = elim (Bool-cases ("default/group-worker0" == k)) [
  | inl e ↦
      let same : "default/group-worker0" ≡ k =
        ground (arith, e, eq_iff "default/group-worker0" k) in
      subst (λ j. is_gone deps (made ∷ []) j ≡ ok (second_gone j)) same first_is_there
  | inr e ↦
      let same : "default/group-worker1" ≡ k =
        ground (arith, e, h, eq_iff "default/group-worker1" k) in
      subst (λ j. is_gone deps (made ∷ []) j ≡ ok (second_gone j)) same second_is_gone
]

without_gone_lem_example :
    (copy : ComputeGroup) × (without_gone deps group_with_status there ≡ (ok copy, there))
    × Keeps second_gone none copy.status.ready_compute_leaders
    × Keeps second_gone group_with_status.status.ready_compute_workers
        copy.status.ready_compute_workers
    × (copy.status.status ≡ compute_group_pending)
unfolding keys
without_gone_lem_example =
    without_gone_lem deps (λ ks k. refl) second_gone group_with_status there
      (λ k h. ground (arith, h)) workers_tell
