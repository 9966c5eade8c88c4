-- ===== src/Examples/Placed.antt =====
-- The theorems on containers that Perform asked for, applied to one that runs and to one that waits.
use rep.Base.{Bool, false, ◌≡◌, refl, some, arith, ◌∷◌, []}
use rep.Base.Tests.{if◌then◌else◌}
use rep.Base.Result.{ok}
use rep.Models.{Container, running, reserved}
use rep.Processor.Ordinary.Claiming.{Claims}
use rep.Services.{Call, Reply, Env, ask, get_container, evacuating}
use rep.Operation.{container_operation, execute}
use rep.Processor.Ordinary
use rep.Processor.Evacuation
use rep.AuctionRep.Perform.{lrp_request}
use rep.AuctionRep.Perform.Placed.{IsFor, placed, execute-placed, execute-runs}
use rep.Examples.{library, steady, lrp_container, reply}
use rep.Examples.Auction.{placed_lrp}

abbrev made : Container
made = record (lrp_container running) {
  guid = (lrp_request library placed_lrp "instance" "/stacks/linux").guid;
  tags = some (lrp_request library placed_lrp "instance" "/stacks/linux").tags;
}

-- The services, where the executor has made the container.
abbrev placed_reply : (c : Call) → Bool → Reply c
placed_reply (get_container guid) s = ok made
placed_reply c s = reply c s

abbrev placed_env : Env Bool
placed_env = record { lib = library; answer = λ c s. (placed_reply c s, s) }

made-IsFor : IsFor library placed_lrp "instance" "/stacks/linux" made
made-IsFor = record { guid = refl; tags = refl }

execute-placed_example :
    let guid = (lrp_request library placed_lrp "instance" "/stacks/linux").guid in
    let looked = (ask placed_env evacuating (ask placed_env (get_container guid) steady).1).1 in
    execute placed_env "cell" 60 (container_operation guid) steady ≡ (
      if false
      then Evacuation.process_state placed_env running 60
          (placed placed_lrp "instance" "cell" made)
          looked
      else Ordinary.process_state placed_env running
          (placed placed_lrp "instance" "cell" made)
          looked)
execute-placed_example =
    execute-placed placed_env "cell" placed_lrp "instance" "/stacks/linux" made made-IsFor refl
      (omega arith, omega arith) refl refl 60 steady refl

abbrev waiting : Container
waiting = record made { state = reserved }

-- The services, where the executor has made the container and not run it.
abbrev waiting_reply : (c : Call) → Bool → Reply c
waiting_reply (get_container guid) s = ok waiting
waiting_reply c s = reply c s

abbrev waiting_env : Env Bool
waiting_env = record { lib = library; answer = λ c s. (waiting_reply c s, s) }

waiting-IsFor : IsFor library placed_lrp "instance" "/stacks/linux" waiting
waiting-IsFor = record { guid = refl; tags = refl }

execute-runs_example :
    let l = placed placed_lrp "instance" "cell" waiting in
    let guid = (lrp_request library placed_lrp "instance" "/stacks/linux").guid in
    Claims waiting_env l false
      (evacuating ∷ get_container guid ∷ [])
      (execute waiting_env "cell" 60 (container_operation guid) steady).1.calls
execute-runs_example =
    execute-runs waiting_env "cell" placed_lrp "instance" "/stacks/linux" waiting waiting-IsFor refl
      (omega arith, omega arith) refl refl 60 steady refl refl refl
