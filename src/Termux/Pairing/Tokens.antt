-- ===== src/Termux/Pairing/Tokens.antt =====
-- Which token a device authenticates with (services/termux/pairing.py): the service against the list
-- of what it issued and revoked.
use cyber_tracker_ai.Base.{
  ℕ, ◌≡◌, refl, ap, ◌∙◌, ◌↔◌, inl, inr, Bool, true, Option, none, some, List, [], ◌∷◌, arith, ◌==◌,
  nat_eq, string_eq, if◌then◌else◌, Option-cases,
}
use cyber_tracker_ai.Base.Dict.{get, get-put, get-remove}
use cyber_tracker_ai.Base.Text.{Text, text_eq}
use cyber_tracker_ai.Base.Result.{ok, err, is_ok}
use cyber_tracker_ai.Termux.Pairing.{
  DeviceState, is_revoked, is_connected, TermuxDevice, PairingService, PairingError,
  register_device, confirm_pending, confirm_pairing, is_token, authenticate, revoke_device,
  mark_connected, mark_disconnected, unused,
}

-- A call of the service, with the secrets it draws and the time.
pub data Call : Type 0 where
  register : Text → Option Text → ℕ → Text → ℕ → Call
  confirm : ℕ → Text → Text → ℕ → Call
  log_in : ℕ → Text → Call
  revoke connect disconnect : ℕ → ℕ → Call

-- What the service told a device: a new token, or that it is revoked.
pub data Issue : Type 0 where
  token : ℕ → Text → Issue
  withdrawn : ℕ → Issue

-- The token that the device was last given and that was not withdrawn since; the newest issue
-- stands first.
unfoldable pub issued : ℕ → List Issue → Option Text
issued id [] = none
issued id (token i raw ∷ issues) = let rest = issued id issues in if i == id then some raw else rest
issued id (withdrawn i ∷ issues) = let rest = issued id issues in if i == id then none else rest

module _ (digest : Text → Text) (ttl : ℕ) where
  -- A call changes the service, and the issues when it answers a token or a revocation.
  unfoldable pub step : Call → PairingService × List Issue → PairingService × List Issue
  step (register name version fresh raw_code now) (s, issues) =
      ((register_device digest ttl name version fresh raw_code now s).1, issues)
  step (confirm id code raw_token now) (s, issues) =
      let r = confirm_pairing digest id code raw_token now s in
      (r.1, elim r.0 [ ok answer ↦ token id answer.1 ∷ issues | err e ↦ issues ])
  step (log_in id presented) (s, issues) = ((authenticate digest id presented s).1, issues)
  step (revoke id now) (s, issues) =
      let r = revoke_device id now s in
      (r.1, elim r.0 [ ok answer ↦ withdrawn id ∷ issues | err e ↦ issues ])
  step (connect id now) (s, issues) = ((mark_connected id now s).1, issues)
  step (disconnect id now) (s, issues) = ((mark_disconnected id now s).1, issues)

  unfoldable pub run : List Call → PairingService × List Issue → PairingService × List Issue
  run [] w = w
  run (call ∷ calls) w = run calls (step call w)

module _ (digest : Text → Text) where
  abbrev hashed : Option Text → Option Text
  hashed none = none
  hashed (some raw) = some (digest raw)

  abbrev is_closed : Option TermuxDevice → Bool
  is_closed none = true
  is_closed (some device) = is_revoked device.state

  -- The stored hashes are those of the issued tokens, and a device that has one is registered and
  -- not revoked.
  record IsKept (w : PairingService × List Issue) : Type 0 where
    hashes : (id : ℕ) → get w.0.token_hashes id ≡ hashed (issued id w.1)
    active : (id : ℕ) → is_closed (get w.0.devices id) ≡ true → get w.0.token_hashes id ≡ none

module _ (digest : Text → Text) (ttl : ℕ) where
  step-IsKept :
      (call : Call) (w : PairingService × List Issue)
      → IsKept digest w
      → IsKept digest (step digest ttl call w)
  unfolding step register_device confirm_pairing confirm_pending authenticate revoke_device
      mark_connected mark_disconnected issued
  step-IsKept (register name version fresh raw_code now) (s, issues) kept = record {
    hashes = λ j. kept.hashes j;
    active = λ j h.
        let device : TermuxDevice = record {
          id = fresh;
          name = name;
          connector_version = version;
          state = DeviceState.pairing_required;
          registered_at = now;
          last_seen_at = none;
          revoked_at = none;
        } in
        ground (arith, kept.active j, get-put s.devices fresh j device, h);
  }
  step-IsKept (confirm id code raw_token now) (s, issues) kept = record {
    hashes = λ j. ground (arith, kept.hashes j, get-put s.token_hashes id j (digest raw_token));
    active = λ j h. elim (Option-cases (get s.devices id)) [
      | inl nothing ↦ ground (arith, kept.active j, h, nothing)
      | inr (d, known) ↦ ground (
        arith,
        kept.active j,
        h,
        known,
        get-put s.token_hashes id j (digest raw_token),
        get-put s.devices id j
            (record d { state = DeviceState.authorized; last_seen_at = some now }),
      )
    ];
  }
  step-IsKept (log_in id presented) (s, issues) kept = record {
    hashes = λ j. ground (arith, kept.hashes j);
    active = λ j h. ground (arith, kept.active j, h);
  }
  step-IsKept (revoke id now) (s, issues) kept = record {
    hashes = λ j. ground (arith, kept.hashes j, get-remove s.token_hashes id j);
    active = λ j h. elim (Option-cases (get s.devices id)) [
      | inl nothing ↦ ground (arith, kept.active j, h, nothing)
      | inr (d, known) ↦ ground (
        arith,
        kept.active j,
        h,
        known,
        get-remove s.token_hashes id j,
        get-put s.devices id j (record d { state = DeviceState.revoked; revoked_at = some now }),
      )
    ];
  }
  step-IsKept (connect id now) (s, issues) kept = record {
    hashes = λ j. ground (arith, kept.hashes j);
    active = λ j h. elim (Option-cases (get s.devices id)) [
      | inl nothing ↦ ground (arith, kept.active j, h, nothing)
      | inr (d, known) ↦ ground (
        arith,
        kept.active j,
        h,
        known,
        kept.active id,
        nat_eq.equals_iff id j,
        get-put s.devices id j
            (record d { state = DeviceState.connected; last_seen_at = some now }),
      )
    ];
  }
  step-IsKept (disconnect id now) (s, issues) kept = record {
    hashes = λ j. ground (arith, kept.hashes j);
    active = λ j h. elim (Option-cases (get s.devices id)) [
      | inl nothing ↦ ground (arith, kept.active j, h, nothing)
      | inr (d, known) ↦ ground (
        arith,
        kept.active j,
        h,
        known,
        kept.active id,
        nat_eq.equals_iff id j,
        get-put s.devices id j (record d {
          state = if is_connected d.state then DeviceState.disconnected else d.state;
          last_seen_at = some now;
        }),
      )
    ];
  }

  run-IsKept :
      (calls : List Call) (w : PairingService × List Issue)
      → IsKept digest w
      → IsKept digest (run digest ttl calls w)
  unfolding run
  run-IsKept [] w kept = kept
  run-IsKept (call ∷ calls) w kept =
      run-IsKept calls (step digest ttl call w) (step-IsKept call w kept)

  unused-IsKept : IsKept digest (unused, [])
  unfolding get issued
  unused-IsKept = record { hashes = λ id. refl; active = λ id h. refl }

  authenticate-IsKept :
      (id : ℕ) (presented : Text) (w : PairingService × List Issue)
      → IsKept digest w
      → (is_ok (authenticate digest id presented w.0).0 ≡ true)
        ↔ (is_token digest (hashed digest (issued id w.1)) presented ≡ true)
  unfolding authenticate
  authenticate-IsKept id presented w kept = ground (arith, kept.hashes id, kept.active id)

  is_token_iff :
      (last : Option Text) (presented : Text)
      → (is_token digest (hashed digest last) presented ≡ true)
        ↔ ((raw : Text) × (last ≡ some raw) × (digest raw ≡ digest presented))
  is_token_iff none presented = ((λ h. ground (arith, h)), (λ e. ground (arith, e.1)))
  is_token_iff (some raw) presented = (
    (λ h. (raw, refl, (text_eq.equals_iff (digest raw) (digest presented)).0 h)),
    (λ e.
        let same : raw ≡ e.0 = ground (arith, e.1) in
        (text_eq.equals_iff (digest raw) (digest presented)).1 (ap digest same ∙ e.2)),
  )

  -- Whatever the calls before, a device authenticates exactly with the token that the last successful
  -- pairing answered for it and that no revocation has withdrawn since (or one of the same digest).
  pub authenticate_iff :
      (calls : List Call) (id : ℕ) (presented : Text)
      → let w = run digest ttl calls (unused, []) in
        (is_ok (authenticate digest id presented w.0).0 ≡ true)
        ↔ ((raw : Text) × (issued id w.1 ≡ some raw) × (digest raw ≡ digest presented))
  authenticate_iff calls id presented =
      let w = run digest ttl calls (unused, []) in
      let a = authenticate-IsKept id presented w (run-IsKept calls (unused, []) unused-IsKept) in
      let t = is_token_iff (issued id w.1) presented in ((λ h. t.0 (a.0 h)), (λ e. a.1 (t.1 e)))

module _ (digest : Text → Text) where
  -- A pairing code is used once: after a successful pairing, the next confirmation of that device is
  -- refused, whatever the code.
  confirm_pairing_once :
      (id : ℕ) (code raw : Text) (now : ℕ) (s : PairingService) (answer : TermuxDevice × Text)
      (code' raw' : Text) (later : ℕ)
      → (confirm_pairing digest id code raw now s).0 ≡ ok answer
      → (confirm_pairing digest id code' raw' later (confirm_pairing digest id code raw now s).1).0
        ≡ err PairingError.pairing_code_invalid
  unfolding confirm_pairing confirm_pending
  confirm_pairing_once id code raw now s answer code' raw' later paired =
      elim (Option-cases (get s.devices id)) [
        | inl nothing ↦ ground (arith, paired, nothing)
        | inr (d, known) ↦ ground (
          arith,
          paired,
          known,
          get-remove s.pending id id,
          nat_eq.equals_iff id id,
          get-put s.devices id id
              (record d { state = DeviceState.authorized; last_seen_at = some now }),
        )
      ]
