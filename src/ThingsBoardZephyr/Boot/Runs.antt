-- ===== src/ThingsBoardZephyr/Boot/Runs.antt =====
-- When `main` runs the client.
use winegrid_internship.Base.{◌≡◌, refl, ◌||◌, not, if◌then◌else◌, List, ◌++◌, Bool-cases, inl, inr}
use winegrid_internship.ZephyrNet.{NetEvent, NetAnswers, if_up_fails, wait_for_network}
use winegrid_internship.ZephyrNet.Wait.{was_up, sem_taken-was_up}
use winegrid_internship.ThingsBoardZephyr.{Client}
use winegrid_internship.ThingsBoardZephyr.Provisioning.{Settings}
use winegrid_internship.ThingsBoardZephyr.Main.{RunAnswers, thingsboard_run}
use winegrid_internship.ThingsBoardZephyr.Boot.{fails, waiting_for_network, runs, main}

-- `main` returns the error of an interface that does not come up. Otherwise it runs the client if
-- no connection was begun, or if one of the events so far, before or while it waits, says that IP
-- is up, even if IP has gone down again since; else it still waits.
main_lem :
    (n : NetAnswers) (early during : List NetEvent) (s : Settings) (a : RunAnswers) (h : Client)
    → main n early during s a h ≡ (
        if if_up_fails n.net_if_up
        then fails n.net_if_up
        else if not (wait_for_network n) || was_up (early ++ during)
        then runs (thingsboard_run s a h)
        else waiting_for_network)
unfolding main
main_lem n early during s a h =
    rw (sem_taken-was_up early during) (elim (Bool-cases (wait_for_network n)) [
      | inl waits ↦ rw waits refl
      | inr goes_on ↦ rw goes_on refl
    ])
