-- ===== src/Termux/Pairing.antt =====
-- Registration and pairing of devices (services/termux/pairing.py, models.py). `digest` stands for
-- the hexadecimal SHA-256 of a text; identifiers and the drawn secrets are arguments.
pub mod Tokens
use cyber_tracker_ai.Base.{
  ℕ, zero, suc, ◌+◌, ◌-◌, ◌*◌, ◌^◌, ◌≤◌, ◌<◌, min, max, String, ◌≡◌, refl, sym, ap, ◌∙◌, ◌≢◌, ◌↔◌,
  ◌⊎◌, inl, inr, Bool, true, false, not, ◌&&◌, ◌||◌, Option, none, some, List, [], ◌∷◌, ◌++◌, map,
  arith, ltb, leb, Comparable, ◌==◌, nat_eq, string_eq, if◌then◌else◌, Bool-cases, Option-cases,
  length, any, all, find, filter, count, last?, All, length-append, count-append, count-le-length,
  All-append,
}
use cyber_tracker_ai.Base.Dict.{Dict, get, put, remove, is_some}
use cyber_tracker_ai.Base.Text.{Text, codes, text_eq}
use cyber_tracker_ai.Base.Result.{Result, ok, err}

pub data DeviceState : Type 0 where
  unregistered pairing_required pairing authorized connected disconnected : DeviceState
  reconnecting revoked : DeviceState

abbrev pub is_revoked : DeviceState → Bool
is_revoked revoked = true
is_revoked _ = false

abbrev pub is_connected : DeviceState → Bool
is_connected connected = true
is_connected _ = false

pub record TermuxDevice : Type 0 where
  pub id : ℕ
  pub name : Text
  pub connector_version : Option Text
  pub state : DeviceState
  pub registered_at : ℕ
  pub last_seen_at : Option ℕ
  pub revoked_at : Option ℕ

pub record PendingPairing : Type 0 where
  pub code_hash : Text
  pub expires_at : ℕ

pub data DeviceEvent : Type 0 where
  device_registered device_paired device_revoked device_auth_failed : DeviceEvent

pub record PairingService : Type 0 where
  pub devices : Dict ℕ TermuxDevice
  pub pending : Dict ℕ PendingPairing
  pub token_hashes : Dict ℕ Text
  pub audit : List (DeviceEvent × ℕ)

pub data PairingError : Type 0 where
  device_not_registered pairing_code_invalid pairing_code_expired : PairingError
  revoked_device authentication_failed : PairingError

abbrev emit : DeviceEvent → ℕ → PairingService → PairingService
emit event_type id s = record s { audit = s.audit ++ (event_type, id) ∷ [] }

-- A change of the device object that the dictionary holds.
abbrev store : TermuxDevice → ℕ → PairingService → PairingService
store device id s = record s { devices = put s.devices id device }

-- `pairing_code_ttl_seconds`.
abbrev Seconds : Type 0
Seconds = ℕ

module _ (digest : Text → Text) where
  unfoldable pub register_device :
      Seconds
      → Text
      → Option Text
      → ℕ
      → Text
      → ℕ
      → PairingService
      → (TermuxDevice × Text) × PairingService
  register_device ttl name version fresh raw_code now s =
      let device : TermuxDevice = record {
        id = fresh;
        name = name;
        connector_version = version;
        state = pairing_required;
        registered_at = now;
        last_seen_at = none;
        revoked_at = none;
      } in
      let pending : PendingPairing = record {
        code_hash = digest raw_code;
        expires_at = now + ttl;
      } in
      (
        (device, raw_code),
        emit device_registered fresh
            (record (store device fresh s) { pending = put s.pending fresh pending }),
      )

  -- `confirm_pairing` on a registered device with a pending pairing.
  unfoldable pub confirm_pending :
      ℕ
      → Text
      → Text
      → ℕ
      → TermuxDevice
      → PendingPairing
      → PairingService
      → Result PairingError (TermuxDevice × Text) × PairingService
  confirm_pending id code raw_token now device pending s =
      let forgotten : PairingService = record s { pending = remove s.pending id } in
      let paired : TermuxDevice = record device { state = authorized; last_seen_at = some now } in
      if ltb pending.expires_at now
      then (err pairing_code_expired, forgotten)
      else if not (pending.code_hash == digest code)
      then (err pairing_code_invalid, s)
      else (
        ok (paired, raw_token),
        emit device_paired id (record (store paired id forgotten) {
          token_hashes = put s.token_hashes id (digest raw_token);
        }),
      )

  unfoldable pub confirm_pairing :
      ℕ
      → Text
      → Text
      → ℕ
      → PairingService
      → Result PairingError (TermuxDevice × Text) × PairingService
  confirm_pairing id code raw_token now s = elim (get s.devices id) [
    | none ↦ (err device_not_registered, s)
    | some device ↦ elim (get s.pending id) [
      | none ↦ (err pairing_code_invalid, s)
      | some pending ↦ confirm_pending id code raw_token now device pending s
    ]
  ]

  -- The presented token against the stored hash.
  abbrev pub is_token : Option Text → Text → Bool
  is_token none token = false
  is_token (some stored) token = stored == digest token

  unfoldable pub authenticate :
      ℕ → Text → PairingService → Result PairingError TermuxDevice × PairingService
  authenticate id token s = elim (get s.devices id) [
    | none ↦ (err device_not_registered, s)
    | some device ↦
        if is_revoked device.state
        then (err revoked_device, s)
        else if not (is_token (get s.token_hashes id) token)
        then (err authentication_failed, emit device_auth_failed id s)
        else (ok device, s)
  ]

unfoldable pub revoke_device :
    ℕ → ℕ → PairingService → Result PairingError TermuxDevice × PairingService
revoke_device id now s = elim (get s.devices id) [
  | none ↦ (err device_not_registered, s)
  | some device ↦
      let closed : TermuxDevice = record device { state = revoked; revoked_at = some now } in
      (
        ok closed,
        emit device_revoked id (record (store closed id s) {
          token_hashes = remove s.token_hashes id;
          pending = remove s.pending id;
        }),
      )
]

unfoldable pub mark_connected :
    ℕ → ℕ → PairingService → Result PairingError TermuxDevice × PairingService
mark_connected id now s = elim (get s.devices id) [
  | none ↦ (err device_not_registered, s)
  | some device ↦
      let seen : TermuxDevice = record device { state = connected; last_seen_at = some now } in
      (ok seen, store seen id s)
]

unfoldable pub mark_disconnected :
    ℕ → ℕ → PairingService → Result PairingError TermuxDevice × PairingService
mark_disconnected id now s = elim (get s.devices id) [
  | none ↦ (err device_not_registered, s)
  | some device ↦
      let seen : TermuxDevice = record device {
        state = if is_connected device.state then disconnected else device.state;
        last_seen_at = some now;
      } in
      (ok seen, store seen id s)
]

abbrev pub unused : PairingService
unused = record { devices = []; pending = []; token_hashes = []; audit = [] }
