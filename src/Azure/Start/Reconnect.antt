-- ===== src/Azure/Start/Reconnect.antt =====
-- A device that was assigned to a hub once connects to it again without a registration.
use winegrid_internship.Base.{
  ℕ, ◌≤◌, ◌≡◌, refl, sym, ap, ap₂, ◌∙◌, arith, Bool, true, false, Option, none, some, Bytes, length,
  take, length-take, lt→ltb, Bool-cases, Option-cases, none-ne-some, inl, inr, codes, ◌++◌,
  snprintf,
}
use mathlib.Core.Option.{some-injective}
use winegrid_internship.Nvs.{Nvs, assigned_hub, device_id, fit, load_nvs_str, save_nvs_str}
use winegrid_internship.Nvs.Laws.{load-stored, load-save}
use winegrid_internship.EspIdf.{network_up, marks_valid}
use winegrid_internship.Json.{CJson}
use winegrid_internship.Azure.{Hub}
use winegrid_internship.Azure.SasToken.{Crypto, build_sas_token}
use winegrid_internship.Azure.Dps.{Dps}
use winegrid_internship.Azure.Connect.{MqttConfig, connect_to_hub}
use winegrid_internship.Azure.Boot.{reconcile_pending_ota}
use winegrid_internship.Azure.Boot.Kept.{reconcile_kept}
use winegrid_internship.Azure.Start.{
  DpsSettings, StartAnswers, Started, aborts, registering, unregistered, connects, both,
  effective_key, save_and_connect, load_assignment, find_hub, app_main,
}

-- The hub and the device that a start ended with, and the flash then.
abbrev assignment : {S : Type 0} → Started S → Option (Bytes × Bytes × S)
assignment (aborts h m) = none
assignment (registering h m) = none
assignment (unregistered h m) = none
assignment (connects m hub dev connection) = some (hub, dev, connection.1.store)

saved_assignment :
    (nvs : Nvs) (s t u : nvs.Store) (hub dev : Bytes)
    → length hub ≤ 127
    → length dev ≤ 127
    → save_nvs_str nvs s assigned_hub hub ≡ some t
    → save_nvs_str nvs t device_id dev ≡ some u
    → load_assignment nvs u ≡ some (hub, dev)
unfolding load_assignment
saved_assignment nvs s t u hub dev l m first second =
    let hub_loads : load_nvs_str nvs u assigned_hub 128 ≡ some hub =
      (load-save nvs t u device_id assigned_hub dev 128 second).0
      ∙ ((load-save nvs s t assigned_hub assigned_hub hub 128 first).0
          ∙ rw (lt→ltb (length hub) 128 (omega arith)) refl) in
    let dev_loads : load_nvs_str nvs u device_id 128 ≡ some dev =
      (load-save nvs t u device_id device_id dev 128 second).0
      ∙ rw (lt→ltb (length dev) 128 (omega arith)) refl in
    ap₂ both hub_loads dev_loads

module _ (crypto : Crypto) (nvs : Nvs) (json : CJson) (c : DpsSettings) (current : Bytes) where
  open nvs use {Store, stored}

  connect_store :
      (key : Bytes) (now : ℕ) (hub dev : Bytes) (h : Hub Store)
      → (connect_to_hub crypto key now hub dev h).1.store ≡ h.store
  unfolding connect_to_hub
  connect_store key now hub dev h =
      elim (Option-cases (
        build_sas_token crypto key now (snprintf 160 (hub ++ (codes "/devices/" ++ dev))) none
          256)) [
            | inl no_token ↦ rw (no_token, connect_to_hub) refl
            | inr (token, built) ↦ rw (built, connect_to_hub) refl
          ]

  -- What a start that connects leaves: the flash holds the assignment.
  abbrev Keeps : Bytes × Bytes × Store → Type 0
  Keeps p = load_assignment nvs p.2 ≡ some (p.0, p.1)

  save-Keeps :
      (a : StartAnswers) (m : Bool) (h : Hub Store) (r : Option (Bool × Dps))
      (p : Bytes × Bytes × Store)
      → assignment (save_and_connect crypto nvs json c current a m h r) ≡ some p
      → Keeps p
  unfolding save_and_connect
  save-Keeps a m h none p e = absurd (none-ne-some e)
  save-Keeps a m h (some (false, d)) p e = absurd (none-ne-some e)
  save-Keeps a m h (some (true, d)) p e =
      let hub = take 127 d.assigned_hub in
      let dev = take 127 d.device_id in
      elim (Option-cases (save_nvs_str nvs h.store assigned_hub hub)) [
        | inl lost ↦ absurd (none-ne-some (rw (lost, save_and_connect) at e))
        | inr (t, first) ↦ elim (Option-cases (save_nvs_str nvs t device_id dev)) [
          | inl lost ↦ absurd (none-ne-some (rw (first, save_and_connect, lost) at e))
          | inr (u, second) ↦
              let same = some-injective _ _ (rw (first, save_and_connect, second) at e) in
              rw (← same) (
                ap (load_assignment nvs) (connect_store _ _ hub dev (record h { store = u }))
                ∙ saved_assignment nvs h.store t u hub dev
                    (omega (arith, length-take 127 d.assigned_hub))
                    (omega (arith, length-take 127 d.device_id)) first second)
        ]
      ]

  find-Keeps :
      (a : StartAnswers) (m : Bool) (h : Hub Store) (p : Bytes × Bytes × Store)
      → assignment (find_hub crypto nvs json c current a m h) ≡ some p
      → Keeps p
  unfolding find_hub
  find-Keeps a m h p e = elim (Option-cases (load_assignment nvs h.store)) [
    | inl missing ↦ save-Keeps a m h _ p (rw (missing, find_hub) at e)
    | inr ((hub, dev), loaded) ↦
        let same = some-injective _ _ (rw (loaded, find_hub) at e) in
        rw (← same) (ap (load_assignment nvs) (connect_store _ _ hub dev h) ∙ loaded)
  ]

  main-Keeps :
      (a : StartAnswers) (h : Hub Store) (p : Bytes × Bytes × Store)
      → assignment (app_main crypto nvs json c current a h) ≡ some p
      → Keeps p
  unfolding app_main
  main-Keeps a h p e = elim (Bool-cases a.checked.nvs_flash_init) [
    | inr bad ↦ absurd (none-ne-some (simp bad at e))
    | inl good ↦ elim (Option-cases (reconcile_pending_ota nvs current h.store)) [
      | inl lost ↦ absurd (none-ne-some (simp (good, lost) at e))
      | inr (t, reconciled) ↦ elim (Bool-cases (network_up a.checked)) [
        | inr down ↦ absurd (none-ne-some (simp (good, reconciled, down) at e))
        | inl up ↦
            find-Keeps a (marks_valid a.state_partition) (record h { store = t }) p
              (simp (good, reconciled, up) at e)
      ]
    ]
  ]

  find_found :
      (a : StartAnswers) (m : Bool) (h : Hub Store) (hub dev : Bytes)
      → load_assignment nvs h.store ≡ some (hub, dev)
      → find_hub crypto nvs json c current a m h
        ≡ connects m hub dev (
            connect_to_hub crypto
              (effective_key crypto nvs json c current)
              a.connection_time
              hub
              dev
              h)
  unfolding find_hub
  find_found a m h hub dev found = rw (found, find_hub) refl

same_assignment :
    (nvs : Nvs) (s t : nvs.Store)
    → nvs.stored s assigned_hub ≡ nvs.stored t assigned_hub
    → nvs.stored s device_id ≡ nvs.stored t device_id
    → load_assignment nvs s ≡ load_assignment nvs t
unfolding load_assignment
same_assignment nvs s t hubs devs =
    let hub_loads : load_nvs_str nvs s assigned_hub 128 ≡ load_nvs_str nvs t assigned_hub 128 =
      load-stored nvs s assigned_hub 128
      ∙ ap (fit 128) hubs
      ∙ sym (load-stored nvs t assigned_hub 128) in
    let dev_loads : load_nvs_str nvs s device_id 128 ≡ load_nvs_str nvs t device_id 128 =
      load-stored nvs s device_id 128 ∙ ap (fit 128) devs ∙ sym (load-stored nvs t device_id 128) in
    ap₂ both hub_loads dev_loads

-- A start that connects leaves its hub and its device in the flash. Every later start whose guarded
-- calls succeed, of whatever image and from a flash that still holds both, connects to the same hub
-- as the same device, with a token for its own time and whatever a registration would have given.
pub hub_start_again :
    (crypto : Crypto) (nvs : Nvs) (json : CJson) (c : DpsSettings) (current next_version : Bytes)
    (a b : StartAnswers) (h u : Hub nvs.Store) (v : nvs.Store) (marked : Bool) (hub dev : Bytes)
    (connection : Option MqttConfig × Hub nvs.Store)
    → app_main crypto nvs json c current a h ≡ connects marked hub dev connection
    → b.checked.nvs_flash_init ≡ true
    → network_up b.checked ≡ true
    → nvs.stored u.store assigned_hub ≡ nvs.stored connection.1.store assigned_hub
    → nvs.stored u.store device_id ≡ nvs.stored connection.1.store device_id
    → reconcile_pending_ota nvs next_version u.store ≡ some v
    → app_main crypto nvs json c next_version b u
      ≡ connects (marks_valid b.state_partition) hub dev (
          connect_to_hub crypto
            (effective_key crypto nvs json c next_version)
            b.connection_time
            hub
            dev
            (record u { store = v }))
unfolding app_main
hub_start_again crypto nvs json c current next_version a b h u v marked hub dev connection first
      flash up hubs devs reconciled =
    let kept =
      main-Keeps crypto nvs json c current a h (hub, dev, connection.1.store)
        (ap assignment first) in
    let found : load_assignment nvs v ≡ some (hub, dev) =
      same_assignment nvs v connection.1.store
        (reconcile_kept nvs next_version u.store v assigned_hub refl refl reconciled ∙ hubs)
        (reconcile_kept nvs next_version u.store v device_id refl refl reconciled ∙ devs)
      ∙ kept in
    simp (flash, reconciled, up)
      (find_found crypto nvs json c next_version b (marks_valid b.state_partition)
        (record u { store = v }) hub dev found)
