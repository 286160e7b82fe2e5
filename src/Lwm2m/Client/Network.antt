-- ===== src/Lwm2m/Client/Network.antt =====
-- The calls of the LwM2M library that the client makes: it pauses the engine when the network goes
-- down, and stops the client after a network error.
use winegrid_internship.Base.{
  ◌≡◌, refl, ap, ◌∙◌, Bool, true, false, ◌&&◌, ◌||◌, not, if◌then◌else◌, ◌==◌, List, [], ◌∷◌, ◌++◌,
  Option, none, some, Bool-cases, inl, inr, arith, none-ne-some, subst,
}
use winegrid_internship.ZephyrNet.{
  if_up_fails, wait_for_network, net_event_l4_connected, net_event_l4_disconnected,
  net_event_conn_if_fatal_error, net_event_other,
}
use mathlib.Core.Option.{some-injective}
use winegrid_internship.Lwm2m.Client.{
  EngineCall, engine_pause, engine_resume, rd_client_start, rd_client_stop, Client, call,
  l4_event_handler, is_network_error, rd_client_event, is_notify_timeout, observe_cb, Event, net,
  rd, observe, handle, handle_all, sem_take, ClientAnswers, ClientEnd, fails, waiting, not_set_up,
  serves, start_client, main, new_client, is_negative,
}

-- Of these calls, the last one first, the last one that pauses or resumes the engine pauses it.
abbrev pub pause_is_last : List EngineCall → Bool
pause_is_last [] = false
pause_is_last (engine_pause ∷ cs) = true
pause_is_last (engine_resume ∷ cs) = false
pause_is_last (_ ∷ cs) = pause_is_last cs

-- Of these calls, the last one first, the last one that starts or stops the client starts it.
abbrev pub start_is_last : List EngineCall → Bool
start_is_last [] = false
start_is_last (rd_client_start ∷ cs) = true
start_is_last (rd_client_stop ∷ cs) = false
start_is_last (_ ∷ cs) = start_is_last cs

-- The network is down after these events, if `down` says whether it was down before them.
abbrev pub down_after : Bool → List Event → Bool
down_after down [] = down
down_after down (net net_event_l4_connected ∷ es) = down_after false es
down_after down (net net_event_l4_disconnected ∷ es) = down_after true es
down_after down (_ ∷ es) = down_after down es

-- One of the events is a network error of the client.
abbrev pub error_in : List Event → Bool
error_in [] = false
error_in (rd e ∷ es) = is_network_error e || error_in es
error_in (_ ∷ es) = error_in es

handle-added : (e : Event) (h : Client) → (handle e h).callbacks_added ≡ h.callbacks_added
unfolding handle l4_event_handler rd_client_event observe_cb call
handle-added (net net_event_l4_connected) h = ground arith
handle-added (net net_event_l4_disconnected) h = ground arith
handle-added (net net_event_conn_if_fatal_error) h = ground arith
handle-added (net net_event_other) h = ground arith
handle-added (rd e) h = ground arith
handle-added (observe e) h = ground arith

-- One event, when the callbacks are there.
handle-paused :
    (e : Event) (es : List Event) (h : Client)
    → h.callbacks_added ≡ true
    → down_after (pause_is_last (handle e h).calls) es ≡ down_after (pause_is_last h.calls) (e ∷ es)
unfolding handle l4_event_handler rd_client_event observe_cb call
handle-paused (net net_event_l4_connected) es h a = rw a refl
handle-paused (net net_event_l4_disconnected) es h a = rw a refl
handle-paused (net net_event_conn_if_fatal_error) es h a = rw a refl
handle-paused (net net_event_other) es h a = rw a refl
handle-paused (rd e) es h a = elim (Bool-cases (is_network_error e)) [
  | inl stops ↦ rw stops refl
  | inr other ↦ rw other refl
]
handle-paused (observe e) es h a = elim (Bool-cases (is_notify_timeout e)) [
  | inl updates ↦ rw updates refl
  | inr other ↦ rw other refl
]

handle_all-paused :
    (es : List Event) (h : Client)
    → h.callbacks_added ≡ true
    → pause_is_last (handle_all es h).calls ≡ down_after (pause_is_last h.calls) es
unfolding handle_all
handle_all-paused [] h a = refl
handle_all-paused (e ∷ es) h a =
    handle_all-paused es (handle e h) (handle-added e h ∙ a) ∙ handle-paused e es h a

handle-started :
    (e : Event) (es : List Event) (h : Client)
    → (start_is_last (handle e h).calls && not (error_in es))
      ≡ (start_is_last h.calls && not (error_in (e ∷ es)))
unfolding handle l4_event_handler rd_client_event observe_cb call
handle-started (net net_event_l4_connected) es h = ground arith
handle-started (net net_event_l4_disconnected) es h = ground arith
handle-started (net net_event_conn_if_fatal_error) es h = ground arith
handle-started (net net_event_other) es h = ground arith
handle-started (rd e) es h = elim (Bool-cases (is_network_error e)) [
  | inl stops ↦ rw stops (ground arith)
  | inr other ↦ rw other refl
]
handle-started (observe e) es h = ground arith

handle_all-started :
    (es : List Event) (h : Client)
    → start_is_last (handle_all es h).calls ≡ (start_is_last h.calls && not (error_in es))
unfolding handle_all
handle_all-started [] h = ground arith
handle_all-started (e ∷ es) h = handle_all-started es (handle e h) ∙ handle-started e es h

-- Waiting for the network changes nothing of this.
Takes : List Event → Client → Option (Client × List Event) → Type 0
Takes es h none = Unit
Takes es h (some (t, rest)) =
    (t.callbacks_added ≡ true)
    × (down_after (pause_is_last t.calls) rest ≡ down_after (pause_is_last h.calls) es)

earlier :
    (e : Event) (es : List Event) (h : Client) (r : Option (Client × List Event))
    → h.callbacks_added ≡ true
    → Takes es (handle e h) r
    → Takes (e ∷ es) h r
unfolding Takes
earlier e es h none a s = tt
earlier e es h (some (t, rest)) a s = (s.0, s.1 ∙ handle-paused e es h a)

take-Takes : (es : List Event) (h : Client) → h.callbacks_added ≡ true → Takes es h (sem_take es h)
unfolding sem_take Takes
take-Takes [] h a = elim (Bool-cases (h.network_connected_sem == 0)) [
  | inl empty ↦ rw empty tt
  | inr given ↦ rw given (a, refl)
]
take-Takes (e ∷ es) h a = elim (Bool-cases (h.network_connected_sem == 0)) [
  | inl empty ↦ rw empty (
      earlier e es h (sem_take es (handle e h)) a
        (take-Takes es (handle e h) (handle-added e h ∙ a)))
  | inr given ↦ rw given (a, refl)
]

down_after-append :
    (down : Bool) (early during : List Event)
    → down_after (down_after down early) during ≡ down_after down (early ++ during)
down_after-append down [] during = refl
down_after-append down (net net_event_l4_connected ∷ es) during = down_after-append false es during
down_after-append down (net net_event_l4_disconnected ∷ es) during =
    down_after-append true es during
down_after-append down (net net_event_conn_if_fatal_error ∷ es) during =
    down_after-append down es during
down_after-append down (net net_event_other ∷ es) during = down_after-append down es during
down_after-append down (rd e ∷ es) during = down_after-append down es during
down_after-append down (observe e ∷ es) during = down_after-append down es during

abbrev served : ClientEnd → Option (Client × List Event)
served (fails e) = none
served waiting = none
served (not_set_up h) = none
served (serves h rest) = some (h, rest)

-- What the start makes of a client that has waited.
start_serves :
    (a : ClientAnswers) (r : Option (Client × List Event)) (h : Client) (rest : List Event)
    → start_client a r ≡ serves h rest
    → (t : Client) × (r ≡ some (t, rest)) × (call rd_client_start t ≡ h)
unfolding start_client
start_serves a none h rest e = absurd (none-ne-some (ap served e))
start_serves a (some (t, later)) h rest e = elim (Bool-cases (is_negative a.setup)) [
  | inl bad ↦ absurd (none-ne-some (ap served (rw bad at e)))
  | inr good ↦
      let same = some-injective _ _ (ap served (rw good at e)) in
      (t, ap (λ p. some (t, p.1)) same, ap (λ p. p.0) same)
]

waited :
    (waits : Bool) (during : List Event) (h : Client)
    → h.callbacks_added ≡ true
    → Takes during h (if waits then sem_take during h else some (h, during))
unfolding Takes
waited true during h a = take-Takes during h a
waited false during h a = (a, refl)

handle_all-added :
    (es : List Event) (h : Client)
    → h.callbacks_added ≡ true
    → (handle_all es h).callbacks_added ≡ true
unfolding handle_all
handle_all-added [] h a = a
handle_all-added (e ∷ es) h a = handle_all-added es (handle e h) (handle-added e h ∙ a)

added_client : Client
added_client = record new_client { callbacks_added = true }

-- The client as `main` starts it.
main_starts :
    (a : ClientAnswers) (early during : List Event) (h : Client) (rest : List Event)
    → a.connection_manager ≡ true
    → main a early during ≡ serves h rest
    → (t : Client) × (Takes during (handle_all early added_client) (some (t, rest)))
      × (call rd_client_start t ≡ h)
unfolding main added_client
main_starts a early during h rest manager e =
    let before = handle_all early added_client in
    elim (Bool-cases (if_up_fails a.network.net_if_up)) [
      | inl bad ↦ absurd (none-ne-some (ap served (rw (manager, bad) at e)))
      | inr up ↦
          let (t, took, started) = start_serves a _ h rest (rw (manager, up) at e) in
          (
            t,
            subst (Takes during before) took (
                waited (wait_for_network a.network) during before
                  (handle_all-added early added_client refl)),
            started,
          )
    ]

-- Under the connection manager, once `main` has called `lwm2m_rd_client_start`, the last call that
-- pauses or resumes the engine pauses it, after any events, exactly if the last event of the network
-- in the whole run says that IP is down, also one before the start. The last call that starts or
-- stops the client starts it exactly if no network error came since: after one, no event makes
-- another call of `lwm2m_rd_client_start`.
pub client_follows_network :
    (a : ClientAnswers) (early during : List Event) (h : Client) (rest : List Event)
    → a.connection_manager ≡ true
    → main a early during ≡ serves h rest
    → (pause_is_last (handle_all rest h).calls ≡ down_after false (early ++ during))
      × (start_is_last (handle_all rest h).calls ≡ not (error_in rest))
unfolding call Takes added_client
client_follows_network a early during h rest manager e =
    let (t, (added, down), started) = main_starts a early during h rest manager e in
    let before = handle_all-paused early added_client refl in
    rw (← started) (
      handle_all-paused rest (call rd_client_start t) added
          ∙ down
          ∙ ap (λ b. down_after b during) before
          ∙ down_after-append false early during,
      handle_all-started rest (call rd_client_start t),
    )
