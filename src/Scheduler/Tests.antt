-- ===== src/Scheduler/Tests.antt =====
-- Runs of the scheduler, and the theorems at concrete states.
use bcos_dispatcher.Base.{ℕ, ◌≡◌, refl, none, some, [], ◌∷◌}
use bcos_dispatcher.Common.{invalid_block_number}
use bcos_dispatcher.Scheduler.{
  BlockHeader, SchedulerImpl, replied, execute_block, execute_done, commit_block, new_scheduler,
  back,
}
use bcos_dispatcher.Scheduler.Steps.{Inv, Reach, here, next, executes, executed, commits, Reach-Inv}
use bcos_dispatcher.Scheduler.Failures.{Executes, execute_block-Executes, execute_block_again}

abbrev header : ℕ → BlockHeader
header n = record { number = n; state_root = n ∷ [] }

-- Block 100 is executed, block 101 executes while 100 is committed.
abbrev running : SchedulerImpl
running =
    (commit_block 100
      (execute_block 101
        (execute_done (some (header 100)) (execute_block 100 new_scheduler).1).1).1).1

running-Reach : Reach new_scheduler running
unfolding execute_block new_scheduler
running-Reach =
    next (next (next (next here (executes 100)) (executed (some (header 100)) refl)) (executes 101))
      (commits 100)

refused_103 :
    (execute_block 103 (execute_done (some (header 101)) running).1).0
    ≡ replied (some invalid_block_number) none
unfolding execute_block execute_done commit_block new_scheduler
refused_103 = refl

idle : SchedulerImpl
idle = (execute_done (some (header 101)) running).1

idle-Inv : Inv idle
unfolding idle execute_block execute_done commit_block new_scheduler
idle-Inv = Reach-Inv (next running-Reach (executed (some (header 101)) refl))

execute_block-Executes_example : Executes 101 idle.blocks idle (execute_block 101 idle)
unfolding idle execute_done
execute_block-Executes_example = execute_block-Executes 101 idle idle-Inv refl

-- The execution of block 100 fails.
abbrev failed : SchedulerImpl
failed = (execute_done none (execute_block 100 new_scheduler).1).1

failed-Reach : Reach new_scheduler failed
unfolding execute_block new_scheduler
failed-Reach = next (next here (executes 100)) (executed none refl)

execute_block_again_example : execute_block 100 failed ≡ (replied none none, failed)
unfolding execute_block execute_done new_scheduler back
execute_block_again_example =
    execute_block_again failed (record { number = 100; result = none }) [] (Reach-Inv failed-Reach)
      refl refl refl
