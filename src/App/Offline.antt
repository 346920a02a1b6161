-- ===== src/App/Offline.antt =====
-- A run of internal/app/app.go with Core disabled.
use lts_agent.Base.{◌≡◌, refl, false}
use lts_agent.Go.Action.{Action}
use lts_agent.Go.Errors.{ok}
use lts_agent.Config.{Config}
use lts_agent.App.{App, CoreSynchronizer}
use lts_agent.App.Run.{
  synchronize, publish, output, run_with, loaded_config, run, written, complete, refuse,
}

-- With Core disabled no synchronizer is built or used: any other factory gives the same exit
-- code, the same log and the same effects.
pub run-offline :
    {W : Type 0} (app : App W) (other : Config → Action W (CoreSynchronizer W)) (w : W) (c : Config)
    → (app.load_config w).0.0 ≡ ok c
    → c.core.enabled ≡ false
    → run (record app { new_core_synchronizer = other }) w ≡ run app w
unfolding run loaded_config run_with synchronize publish output written complete refuse
run-offline app other w c h k = rw (h, run_with, synchronize, k) refl
