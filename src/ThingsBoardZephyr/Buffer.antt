-- ===== src/ThingsBoardZephyr/Buffer.antt =====
-- What a handler reads from the payload buffer: the payload that has arrived, or what was there.
use winegrid_internship.Base.{
  ℕ, zero, suc, ◌≤◌, ◌≡◌, refl, sym, ap, ◌∙◌, arith, [], ◌∷◌, ◌++◌, Bytes, length, take, drop, set,
  take_all, take-append,
}
use winegrid_internship.ThingsBoardZephyr.{
  Client, PublishParam, payload_len, fill_payload_buf, payload_text, mqtt_publish,
  handle_rpc_request,
}

take-set : (n : ℕ) (xs : Bytes) (v : ℕ) → take n (set xs n v) ≡ take n xs
take-set zero xs v = refl
take-set (suc n) [] v = refl
take-set (suc n) (x ∷ xs) v = ap (λ t. x ∷ t) (take-set n xs v)

-- The whole payload has arrived, and fits the buffer.
pub record IsComplete (p : PublishParam) : Type 0 where
  pub arrives : length p.payload ≤ p.arrived
  pub fits : length p.payload ≤ 511

payload_len-fits : (p : PublishParam) → length p.payload ≤ 511 → payload_len p ≡ length p.payload
unfolding payload_len
payload_len-fits p fits = ground arith

-- A payload that has arrived is read as it is, whatever the buffer held.
pub payload_text_complete :
    (p : PublishParam) (buf : Bytes) → IsComplete p → payload_text p buf ≡ p.payload
unfolding payload_text fill_payload_buf
payload_text_complete p buf c =
    let n = length p.payload in
    rw
      (
        payload_len-fits p c.fits,
        take_all n p.payload (omega arith),
        take_all p.arrived p.payload c.arrives,
        take-set n (p.payload ++ drop n buf) 0,
      )
      (take-append p.payload (drop n buf))

-- Where nothing has arrived, the buffer is read as it is.
pub payload_text_late :
    (p : PublishParam) (buf : Bytes)
    → p.arrived ≡ 0
    → length p.payload ≤ 511
    → payload_text p buf ≡ take (length p.payload) buf
unfolding payload_text fill_payload_buf
payload_text_late p buf late fits =
    rw (payload_len-fits p fits, late) (take-set (length p.payload) buf 0)

-- What a payload that had arrived is read as by a handler that comes after.
pub payload_text_stale :
    (q p : PublishParam) (buf : Bytes)
    → IsComplete q
    → p.arrived ≡ 0
    → length p.payload ≡ length q.payload
    → payload_text p (fill_payload_buf q buf) ≡ q.payload
unfolding payload_text
payload_text_stale q p buf c late same =
    payload_text_late p (fill_payload_buf q buf) late (omega (arith, same, c.fits))
    ∙ (ap (λ n. take n (fill_payload_buf q buf)) (same ∙ sym (payload_len-fits q c.fits))
        ∙ payload_text_complete q buf c)

pub rpc_payload_buf :
    (uptime : ℕ) (topic payload : Bytes) (h : Client)
    → (handle_rpc_request uptime topic payload h).payload_buf ≡ h.payload_buf
unfolding handle_rpc_request mqtt_publish
rpc_payload_buf uptime topic payload h = ground arith
