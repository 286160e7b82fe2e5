-- ===== src/Azure/DirectMethod/Answer.antt =====
-- Every well-formed request is answered once, under its own id.
use winegrid_internship.Base.{
  ℕ, zero, suc, ◌≤◌, ◌<◌, ◌≡◌, ◌≢◌, refl, ap, arith, Bool, true, false, ◌||◌, if◌then◌else◌, [],
  ◌∷◌, ◌++◌, some, Bytes, codes, length, drop, drop-append, take_all, starts_with, str_eq,
  str_eq-eq, lt→ltb, ne→==, Bool-cases, inl, inr,
}
use winegrid_internship.Azure.{Hub, Platform}
use winegrid_internship.Azure.DirectMethod.{
  direct_method_prefix, before_slash, find_rid, status_payload, call_method,
  handle_direct_method_request,
}

abbrev pub NoSlash : Bytes → Type 0
NoSlash [] = Unit
NoSlash (c ∷ cs) = (c ≢ b'/') × NoSlash cs

before_slash_lem :
    (limit : ℕ) (name rest : Bytes)
    → length name ≤ limit
    → NoSlash name
    → before_slash limit (name ++ b'/' ∷ rest) ≡ name
unfolding before_slash
before_slash_lem zero [] rest l n = refl
before_slash_lem zero (c ∷ cs) rest l n = absurd (omega arith)
before_slash_lem (suc limit) [] rest l n = refl
before_slash_lem (suc limit) (c ∷ cs) rest l n =
    rw (ne→== c b'/' n.0) (ap (λ t. c ∷ t) (before_slash_lem limit cs rest (omega arith) n.1))

find_rid_lem : (rid : Bytes) → 0 < length rid → find_rid (codes "/?$rid=" ++ rid) ≡ some rid
unfolding find_rid starts_with
find_rid_lem rid h = rw (
  lt→ltb 5 (suc (suc (suc (suc (suc (suc (suc (length rid)))))))) (omega arith),
  lt→ltb 5 (suc (suc (suc (suc (suc (suc (length rid))))))) (omega arith),
  lt→ltb 5 (suc (suc (suc (suc (suc (length rid)))))) (omega arith),
)

-- What the request leaves: one message more, on the response topic of the given status and id.
abbrev pub AnsweredWith : {S : Type 0} → Bytes → Bytes → Hub S → Hub S → Type 0
AnsweredWith status rid h h' =
    (payload : Bytes) × (h'.outbox
      ≡ h.outbox
        ++ (record {
          topic = codes "$iothub/methods/res/" ++ (status ++ (codes "/?$rid=" ++ rid));
          payload = payload;
        }
            ∷ []))

-- A method that the device has.
unfoldable pub is_known : Bytes → Bool
is_known name = str_eq name (codes "getStatus") || str_eq name (codes "reboot")

handle_at :
    {S : Type 0} (platform : Platform) (name rid : Bytes) (h : Hub S)
    → length name ≤ 31
    → NoSlash name
    → 0 < length rid
    → handle_direct_method_request platform
        (direct_method_prefix ++ (name ++ (codes "/?$rid=" ++ rid)))
        h
      ≡ call_method platform name rid h
unfolding handle_direct_method_request
handle_at platform name rid h l n p =
    let after = name ++ (codes "/?$rid=" ++ rid) in
    let named : before_slash 31 after ≡ name =
      before_slash_lem 31 name (codes "?$rid=" ++ rid) l n in
    let found : find_rid (drop (length (before_slash 31 after)) after) ≡ some rid =
      rw named (rw (drop-append name (codes "/?$rid=" ++ rid)) (find_rid_lem rid p)) in
    rw (found, handle_direct_method_request, named)

status-not-reboot :
    (name : Bytes) → str_eq name (codes "getStatus") ≡ true → str_eq name (codes "reboot") ≡ false
unfolding str_eq
status-not-reboot name h = rw (str_eq-eq name (codes "getStatus") h)

-- A request for a method of at most 31 characters without `/`, with an id that is not empty and
-- fits the response topic, is answered with exactly one message, on the response topic with that
-- id: status 200 if the method is `getStatus` or `reboot`, and 404 otherwise. The device restarts
-- exactly if the method is `reboot` (or a restart was already under way).
pub direct_method_answered :
    {S : Type 0} (platform : Platform) (name rid : Bytes) (h : Hub S)
    → length name ≤ 31
    → NoSlash name
    → 0 < length rid
    → length rid ≤ 97
    → let h' =
        handle_direct_method_request platform
          (direct_method_prefix ++ (name ++ (codes "/?$rid=" ++ rid)))
          h in
      AnsweredWith (if is_known name then codes "200" else codes "404") rid h h'
      × (h'.restarting ≡ (if str_eq name (codes "reboot") then true else h.restarting))
unfolding call_method is_known
direct_method_answered platform name rid h l n p q =
    rw (handle_at platform name rid h l n p) (elim (Bool-cases (str_eq name (codes "getStatus"))) [
      | inl status ↦
          rw (status, status-not-reboot name status)
            ((status_payload h.fake_temperature platform.free_heap, rw (take_all 97 rid q)), refl)
      | inr other ↦ elim (Bool-cases (str_eq name (codes "reboot"))) [
        | inl reboot ↦
            rw (other, reboot) ((codes "{\"result\":\"rebooting\"}", rw (take_all 97 rid q)), refl)
        | inr unknown ↦
            rw (other, unknown)
              ((codes "{\"error\":\"unknown method\"}", rw (take_all 97 rid q)), refl)
      ]
    ])
