-- ===== src/Lwm2m/Client.antt =====
-- The LwM2M client itself, lwm2m/src/lwm2m-client.c: its callbacks, and `main` with the wait for the
-- network, whose `wifi_auto_connect` is the one of ZephyrNet.antt.
pub mod Network
use winegrid_internship.Base.{
  ℕ, Bool, true, false, ◌&&◌, not, if◌then◌else◌, ◌==◌, List, [], ◌∷◌, Option, none, some, ℤ, pos,
  negsuc,
}
use winegrid_internship.ZephyrNet.{
  NetEvent, net_event_l4_connected, net_event_l4_disconnected, NetAnswers, if_up_fails,
  wait_for_network,
}

-- `enum lwm2m_rd_client_event`.
pub data RdClientEvent : Type 0 where
  event_none event_server_disabled event_bootstrap_reg_failure event_bootstrap_reg_complete
        event_bootstrap_transfer_complete event_registration_failure event_registration_complete
        event_reg_timeout event_reg_update_complete event_deregister_failure event_disconnect
        event_queue_mode_rx_off event_engine_suspended event_network_error event_reg_update
        event_deregister :
      RdClientEvent

-- `enum lwm2m_observe_event`.
pub data ObserveEvent : Type 0 where
  observer_added observer_removed notify_ack notify_timeout : ObserveEvent

-- The calls of the LwM2M library that the file makes once it is set up.
pub data EngineCall : Type 0 where
  engine_pause engine_resume rd_client_start rd_client_stop rd_client_update : EngineCall

-- The count of `network_connected_sem`, whether the callbacks of the network were added, and the
-- calls made so far, the last one first.
pub record Client : Type 0 where
  pub network_connected_sem : ℕ
  pub callbacks_added : Bool
  pub calls : List EngineCall

-- When the program starts.
abbrev pub new_client : Client
new_client = record { network_connected_sem = 0; callbacks_added = false; calls = [] }

unfoldable pub call : EngineCall → Client → Client
call c h = record h { calls = c ∷ h.calls }

-- `l4_event_handler`, with `on_net_event_l4_connected` and `on_net_event_l4_disconnected`; the
-- semaphore's limit is 1.
unfoldable pub l4_event_handler : NetEvent → Client → Client
unfolding call
l4_event_handler net_event_l4_connected h =
    call engine_resume (record h { network_connected_sem = 1 })
l4_event_handler net_event_l4_disconnected h = call engine_pause h
l4_event_handler _ h = h

unfoldable pub is_network_error : RdClientEvent → Bool
is_network_error event_network_error = true
is_network_error _ = false

-- `rd_client_event`: the other events are only logged.
unfoldable pub rd_client_event : RdClientEvent → Client → Client
unfolding call is_network_error
rd_client_event e h = if is_network_error e then call rd_client_stop h else h

unfoldable pub is_notify_timeout : ObserveEvent → Bool
is_notify_timeout notify_timeout = true
is_notify_timeout _ = false

-- `observe_cb`: the other events are only logged.
unfoldable pub observe_cb : ObserveEvent → Client → Client
unfolding call is_notify_timeout
observe_cb e h = if is_notify_timeout e then call rd_client_update h else h

-- What calls back.
pub data Event : Type 0 where
  net : NetEvent → Event
  rd : RdClientEvent → Event
  observe : ObserveEvent → Event

unfoldable pub handle : Event → Client → Client
unfolding l4_event_handler rd_client_event observe_cb
handle (net e) h = if h.callbacks_added then l4_event_handler e h else h
handle (rd e) h = rd_client_event e h
handle (observe e) h = observe_cb e h

unfoldable pub handle_all : List Event → Client → Client
unfolding handle
handle_all [] h = h
handle_all (e ∷ es) h = handle_all es (handle e h)

-- `k_sem_take(&network_connected_sem, K_FOREVER)`, while the events come: the events that are
-- still to come when it returns.
unfoldable pub sem_take : List Event → Client → Option (Client × List Event)
unfolding handle
sem_take [] h =
    if h.network_connected_sem == 0 then none else some (record h { network_connected_sem = 0 }, [])
sem_take (e ∷ es) h =
    let rest = sem_take es (handle e h) in
    if h.network_connected_sem == 0
    then rest
    else some (record h { network_connected_sem = 0 }, e ∷ es)

-- CONFIG_NET_CONNECTION_MANAGER, what the network answers, and what `lwm2m_setup` returns.
pub record ClientAnswers : Type 0 where
  pub connection_manager : Bool
  pub network : NetAnswers
  pub setup : ℤ

-- How far `main` gets: it returns an error, it waits for the network, it returns because the
-- resources cannot be set up, or the client was started, with the events that are to come.
pub data ClientEnd : Type 0 where
  fails : ℤ → ClientEnd
  waiting : ClientEnd
  not_set_up : Client → ClientEnd
  serves : Client → List Event → ClientEnd

unfoldable pub is_negative : ℤ → Bool
is_negative (pos n) = false
is_negative (negsuc n) = true

-- `main` after the wait.
unfoldable pub start_client : ClientAnswers → Option (Client × List Event) → ClientEnd
unfolding call is_negative
start_client a none = waiting
start_client a (some (h, rest)) =
    if is_negative a.setup then not_set_up h else serves (call rd_client_start h) rest

-- `main`; `early` are the events before it takes the semaphore, or before it starts the client if
-- it does not wait, and `during` the later ones.
unfoldable pub main : ClientAnswers → (early during : List Event) → ClientEnd
unfolding start_client
main a early during =
    let added = record new_client { callbacks_added = a.connection_manager } in
    if a.connection_manager && if_up_fails a.network.net_if_up
    then fails a.network.net_if_up
    else start_client a (
        if a.connection_manager && wait_for_network a.network
        then sem_take during (handle_all early added)
        else some (handle_all early added, during))
