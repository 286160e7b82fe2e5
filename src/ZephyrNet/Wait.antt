-- ===== src/ZephyrNet/Wait.antt =====
-- The semaphore is taken exactly if IP was up once.
use winegrid_internship.Base.{◌≡◌, refl, ap, Bool, true, false, List, [], ◌∷◌, ◌++◌, ◌∙◌}
use winegrid_internship.ZephyrNet.{
  NetEvent, net_event_l4_connected, net_event_l4_disconnected, net_event_conn_if_fatal_error,
  net_event_other, l4_event_handler, l4_events, sem_taken,
}

-- One of the events says that IP is up.
abbrev pub was_up : List NetEvent → Bool
was_up [] = false
was_up (net_event_l4_connected ∷ es) = true
was_up (_ ∷ es) = was_up es

given : (es : List NetEvent) → l4_events es 1 ≡ 1
unfolding l4_events
given [] = refl
given (net_event_l4_connected ∷ es) = given es
given (net_event_l4_disconnected ∷ es) = given es
given (net_event_conn_if_fatal_error ∷ es) = given es
given (net_event_other ∷ es) = given es

taken : (es : List NetEvent) → sem_taken es 1 ≡ true
unfolding sem_taken
taken [] = refl
taken (e ∷ es) = refl

waits : (es : List NetEvent) → sem_taken es 0 ≡ was_up es
unfolding sem_taken l4_event_handler
waits [] = refl
waits (net_event_l4_connected ∷ es) = taken es
waits (net_event_l4_disconnected ∷ es) = waits es
waits (net_event_conn_if_fatal_error ∷ es) = waits es
waits (net_event_other ∷ es) = waits es

-- `early` are the events before the call, and `during` those while it waits.
pub sem_taken-was_up :
    (early during : List NetEvent) → sem_taken during (l4_events early 0) ≡ was_up (early ++ during)
unfolding l4_events l4_event_handler
sem_taken-was_up [] during = waits during
sem_taken-was_up (net_event_l4_connected ∷ es) during =
    ap (sem_taken during) (given es) ∙ taken during
sem_taken-was_up (net_event_l4_disconnected ∷ es) during = sem_taken-was_up es during
sem_taken-was_up (net_event_conn_if_fatal_error ∷ es) during = sem_taken-was_up es during
sem_taken-was_up (net_event_other ∷ es) during = sem_taken-was_up es during
