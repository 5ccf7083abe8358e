-- ===== src/Tests/History.antt =====
-- A worker that is ready, is lost and is ready again, before the two ready leaders of Tests/Pair.
use datafuse_operator.Prelude.{true, false, List, [], ◌∷◌, ◌≡◌, refl, arith, All}
use datafuse_operator.Go.Map.{get}
use datafuse_operator.Register.Nodes.{is_group_worker}
use datafuse_operator.Register.Listing.{APod}
use datafuse_operator.Register.Leaders.{Changed, leaders}
use datafuse_operator.Register.Cluster.{IsServable}
use datafuse_operator.Register.History.{
  registered, IsFollower, process_objects, process_objects-registered,
}
use datafuse_operator.Register.RoundTrip.{node_request-make_fuse_query_pod}
use datafuse_operator.Tests.Fixtures.{texts, apimachinery, no_status, two_replicas, made_worker}
use datafuse_operator.Tests.Cluster.{worker, worker_label, worker-IsServable, values, spec-IsFilled}
use datafuse_operator.Tests.Pair.{
  deps, lists, apis, store, rc, rc-IsServing, added_apart, removed_apart,
}
use datafuse_operator.Tests.Leaders.{line, follows, first}

abbrev lost : APod deps
lost = record worker { status = no_status }

lost-IsServable : IsServable deps lost
lost-IsServable = (
  _,
  node_request-make_fuse_query_pod texts apimachinery two_replicas values "worker" "default"
      "other-group" false _ no_status spec-IsFilled (omega arith) made_worker,
)

lost_follows : is_group_worker texts lost ≡ true
unfolding is_group_worker get
lost_follows = refl

ready-IsFollower : IsFollower deps lists line rc store rc-IsServing worker
ready-IsFollower = record {
  works = follows;
  group_key = "other-group";
  grouped = worker_label;
  servable = worker-IsServable;
  add_apart = added_apart worker worker-IsServable;
  remove_apart = removed_apart worker worker-IsServable;
}

lost-IsFollower : IsFollower deps lists line rc store rc-IsServing lost
lost-IsFollower = record {
  works = lost_follows;
  group_key = "other-group";
  grouped = worker_label;
  servable = lost-IsServable;
  add_apart = added_apart lost lost-IsServable;
  remove_apart = removed_apart lost lost-IsServable;
}

abbrev seen : List (APod deps)
seen = worker ∷ lost ∷ worker ∷ []

process_objects-registered_example :
    All
      (Changed deps lists
        (registered deps seen)
        first
        (process_objects deps lists line rc store rc-IsServing seen ([], first)).1)
      (leaders deps lists rc store rc-IsServing)
process_objects-registered_example =
    process_objects-registered deps lists line rc store rc-IsServing apis seen [] first
      (ready-IsFollower, (lost-IsFollower, (ready-IsFollower, tt)))
