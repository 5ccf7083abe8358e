-- ===== src/Tests/Scope.antt =====
-- A factory for the namespace of tests, over a REST client that notes the requests.
use datafuse_operator.Prelude.{String, true, false, none, some, List, [], ◌∷◌, ◌≡◌, refl}
use datafuse_operator.Go.Int.{pos}
use datafuse_operator.Api.Types.{ComputeGroup}
use datafuse_operator.Utils.Groups.{empty_group}
use datafuse_operator.Client.Requests.{ListOptions, Request, RestClient}
use datafuse_operator.Client.Informers.{
  SharedInformer, operator_type, new_operator_informer, compute_group_informer,
}
use datafuse_operator.Client.Factory.{Call, request, start_informers, asked}
use datafuse_operator.Client.Watching.{Tweak, tweaked, list_groups_of, watch_groups_of}
use datafuse_operator.Client.Scope.{called, asking, list_groups_of-called}

-- The selectors of the options are a text, and a call has no options.
abbrev pub noting : RestClient ComputeGroup Unit String
noting = record {
  State = List (Request ComputeGroup Unit String);
  Objects = List ComputeGroup;
  Watcher = Unit;
  do_object = λ r s. ((empty_group, none), r ∷ s);
  do_list = λ r s. (([], none), r ∷ s);
  do_error = λ r s. (none, r ∷ s);
  do_watch = λ r s. ((tt, none), r ∷ s);
}

abbrev pub range :
    List (String × SharedInformer (Tweak String)) → List (String × SharedInformer (Tweak String))
range m = m

abbrev calls : List (Call (Tweak String) range)
calls =
    request operator_type (λ resync. new_operator_informer (Tweak String) "default" resync none)
    ∷ start_informers
    ∷ []

-- A change of the selectors, and options with a timeout.
abbrev select : Tweak String
select options = record options { rest = "app=datafuse" }

abbrev pub minute : ListOptions String
minute = record { timeout_seconds = some (pos 60); watch = false; rest = "" }

unasked : asked (Tweak String) range calls "*v1alpha1.DatafuseComputeGroup" ≡ false
unfolding asked
unasked = refl

list_groups_of-called_example :
    (list_groups_of noting
        (compute_group_informer
          (Tweak String)
          (called (Tweak String) range (pos 30) "default" (some select) calls)).0
        minute
        []
      ≡ noting.do_list
          (asking noting range "default"
            (tweaked (some select) minute)
            (tweaked (some select) minute))
          [])
    × (watch_groups_of noting
          (compute_group_informer
            (Tweak String)
            (called (Tweak String) range (pos 30) "default" (some select) calls)).0
          minute
          []
        ≡ noting.do_watch
            (asking noting range "default"
              (tweaked (some select) minute)
              (record (tweaked (some select) minute) { watch = true }))
            [])
list_groups_of-called_example =
    list_groups_of-called noting range (pos 30) "default" (some select) calls unasked minute []
