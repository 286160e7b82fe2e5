-- ===== src/ThingsBoardZephyr/Boot.antt =====
-- `main` of zephyr-thingsboard/src/main.c.
pub mod Runs
use winegrid_internship.Base.{Bool, true, false, ◌||◌, not, if◌then◌else◌, List, ℤ}
use winegrid_internship.ZephyrNet.{
  NetEvent, NetAnswers, if_up_fails, wait_for_network, l4_events, sem_taken,
}
use winegrid_internship.ThingsBoardZephyr.{Client}
use winegrid_internship.ThingsBoardZephyr.Provisioning.{Settings}
use winegrid_internship.ThingsBoardZephyr.Main.{RunAnswers, Progress, thingsboard_run}

-- How far `main` gets: it returns an error, it waits for the network, or it is in `thingsboard_run`.
pub data BootEnd : Type 0 where
  fails : ℤ → BootEnd
  waiting_for_network : BootEnd
  runs : Progress → BootEnd

-- `main`; `early` are the network's events before it waits, and `during` those while it waits.
unfoldable pub main :
    NetAnswers → (early during : List NetEvent) → Settings → RunAnswers → Client → BootEnd
main n early during s a h =
    if if_up_fails n.net_if_up
    then fails n.net_if_up
    else if not (wait_for_network n)
    then runs (thingsboard_run s a h)
    else if sem_taken during (l4_events early 0)
    then runs (thingsboard_run s a h)
    else waiting_for_network
