-- ===== src/Examples/Exit.antt =====
-- The theorem on the cleanup, applied.
use rep.Base.{◌≡◌, refl, Bool, false, List, [], ◌∷◌, ◌++◌, some, map, arith}
use rep.Base.Slices.{length}
use rep.Base.Int.{pos}
use rep.Models.{ActualLrpGroup}
use rep.Services.{actual_lrp_groups, list_containers, send_metric}
use rep.Cleanup.{clean_up, stranded_evacuating_actual_lrps}
use rep.Cleanup.Calls.{stranded, with_evacuating, removal, followed_by, signals, clean_up-calls}
use rep.Examples.{env, steady, actual_lrp}

abbrev groups : List ActualLrpGroup
groups = record { instance_lrp = some actual_lrp; evacuating_lrp = some actual_lrp } ∷ []

clean_up-calls_example :
    (later : Bool) × ((clean_up env "cell" steady).1.calls
      ≡ followed_by (actual_lrp_groups "cell" ∷ []) (
          map removal (stranded groups)
          ++ send_metric stranded_evacuating_actual_lrps (pos (length (stranded groups)))
            ∷ signals env (env.answer list_containers later).0))
unfolding stranded with_evacuating
clean_up-calls_example = clean_up-calls env "cell" steady false groups refl (omega arith)
