-- ===== src/Processor.antt =====
-- generator/internal/lrp_processor.go: the processors of containers, and the choice between the
-- ordinary and the evacuating one.
pub mod Ordinary
pub mod Evacuation
pub mod Tasks
pub mod Concerns
pub mod Scope
pub mod TaskScope
use rep.Base.{String, ℕ}
use rep.Base.Tests.{if◌then◌else◌}
use rep.Models.{Container}
use rep.Services.{Env, M, ask, ◌>>=◌, evacuating}
use Ordinary
use Evacuation

-- lrpProcessor.Process.
unfoldable pub process_lrp :
    {S : Type 0} (env : Env S) (cell_id : String) (evacuation_ttl : ℕ) → Container → M S (Unit {0})
process_lrp env cell_id evacuation_ttl container = do
  is_evacuating ← ask env evacuating
  if is_evacuating
      then Evacuation.process env cell_id evacuation_ttl container
      else Ordinary.process env cell_id container
