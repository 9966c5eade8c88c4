-- ===== src/Handlers/Stop.antt =====
-- When a request to stop an LRP instance is accepted.
use rep.Base.{String, eq_iff, ◌≢◌, ◌≡◌, ◌↔◌, arith}
use rep.Base.Result.{ok}
use rep.Services.{Env, World, stop_container}
use rep.Conversion.Tags.{lrp_container_guid}
use rep.Handlers.{status_accepted, stop_lrp_instance}

-- A request to stop an LRP instance is accepted exactly when both guids are given and the executor
-- stops the container of that instance.
pub stop_lrp_instance_iff :
    {S : Type 0} (env : Env S) (process_guid instance_guid : String) (w : World S)
    → ((stop_lrp_instance env process_guid instance_guid w).0 ≡ status_accepted) ↔ (
        (process_guid ≢ "")
        × (instance_guid ≢ "")
        × ((env.answer (stop_container instance_guid) w.outside).0 ≡ ok tt))
unfolding stop_lrp_instance lrp_container_guid
stop_lrp_instance_iff env p i w =
    (λ h. ground (arith, eq_iff p "", eq_iff i ""), λ h. ground (arith, eq_iff p "", eq_iff i ""))
