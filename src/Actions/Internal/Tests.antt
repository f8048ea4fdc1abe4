-- ===== src/Actions/Internal/Tests.antt =====
-- Runs of the built-in actions on actions, and the theorem about them at a concrete table.
use solx_core.Prelude.{[], ◌∷◌, some, codes, err, ◌≡◌, refl}
use solx_core.Surface.Error.{exec}
use solx_core.Config.Policy.{command, script}
use solx_core.Actions.Store.Tests.{runs, table, nothing_given}
use solx_core.Actions.Internal.Entity.{guard_executable_action, action_save, action_delete}
use solx_core.Actions.Internal.Entity.Executables.{executables}
use solx_core.Actions.Internal.Entity.Untouched.{saves, deletes, run, run-executables}

refuses_executables :
    (action_save (codes "/tools") (codes "hook") nothing_given (codes "2") 9 table ≡ err exec)
    × (action_save
          (codes "/evil")
          (codes "shell")
          (record nothing_given { action_type = some command })
          (codes "2")
          9
          table
        ≡ err exec)
    × (action_delete (codes "/tools") (codes "hook") table ≡ err exec)
unfolding runs guard_executable_action action_save action_delete
refuses_executables = (refl, refl, refl)

run-executables_example :
    executables (
      run
        (saves
            (codes "/tools")
            (codes "s")
            (record nothing_given { action_type = some script })
            (codes "2")
            9
          ∷ deletes (codes "/tools") (codes "hook")
          ∷ [])
        table)
    ≡ executables table
run-executables_example =
    run-executables
      (saves (codes "/tools") (codes "s") (record nothing_given { action_type = some script })
          (codes "2") 9
        ∷ deletes (codes "/tools") (codes "hook")
        ∷ [])
      table (refl, refl, tt)
