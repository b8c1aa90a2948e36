-- ===== src/Termux/Manager/Disconnect.antt =====
-- What the end of a connection does to the commands (services/termux/connection_manager.py).
use cyber_tracker_ai.Base.{
  ℕ, ◌≡◌, refl, ◌∙◌, Bool, true, false, not, ◌&&◌, Option, none, some, List, [], ◌∷◌, arith, ◌==◌,
  nat_eq, if◌then◌else◌, filter, any, Option-cases, Bool-cases, inl, inr,
}
use cyber_tracker_ai.Base.Dict.{get, remove, get-put, get-remove}
use cyber_tracker_ai.Base.Result.{is_ok}
use cyber_tracker_ai.Termux.Pairing.{mark_disconnected}
use cyber_tracker_ai.Termux.Pending.{PendingCommand}
use cyber_tracker_ai.Termux.Manager.{
  TermuxConnectionManager, notify, device_disconnected, is_listed, is_of, set_result, lost_result,
  lose, lose_all, lost, handle_disconnect,
}

-- A command whose connection is lost.
abbrev pub lose_command : ℕ → Option PendingCommand → Option PendingCommand
lose_command now none = none
lose_command now (some p) = some (set_result (lost_result p.started_at now) p)

lose_command-lose_command :
    (now : ℕ) (o : Option PendingCommand)
    → lose_command now (lose_command now o) ≡ lose_command now o
lose_command-lose_command now none = refl
lose_command-lose_command now (some p) = ground arith

any-filter :
    (q : ℕ → Bool) (c : ℕ) (xs : List ℕ)
    → any (λ x. x == c) (filter q xs) ≡ (any (λ x. x == c) xs && q c)
any-filter q c [] = refl
any-filter q c (x ∷ xs) = elim (Bool-cases (x == c)) [
  | inl same ↦ let e : x ≡ c = ground (arith, same) in rw e (ground (arith, any-filter q c xs))
  | inr other ↦ ground (arith, other, any-filter q c xs)
]

lose-get :
    (device now d : ℕ) (s : TermuxConnectionManager) (c : ℕ)
    → get (lose device now d s).commands c
      ≡ (if d == c then lose_command now (get s.commands c) else get s.commands c)
unfolding lose
lose-get device now d s c = elim (Option-cases (get s.commands d)) [
  | inl missing ↦ ground (arith, missing)
  | inr (p, found) ↦
      ground (arith, found, get-put s.commands d c (set_result (lost_result p.started_at now) p))
]

lose-listed :
    (device now d : ℕ) (s : TermuxConnectionManager) (c : ℕ)
    → is_listed c (lose device now d s) ≡ (is_listed c s && not (d == c))
unfolding lose
lose-listed device now d s c = elim (Option-cases (get s.commands d)) [
  | inl missing ↦ ground (arith, missing, any-filter (λ x. not (x == d)) c s.pending)
  | inr (p, found) ↦ ground (arith, found, any-filter (λ x. not (x == d)) c s.pending)
]

lose-transports :
    (device now d : ℕ) (s : TermuxConnectionManager)
    → (lose device now d s).transports ≡ s.transports
unfolding lose
lose-transports device now d s = elim (Option-cases (get s.commands d)) [
  | inl missing ↦ ground (arith, missing)
  | inr (p, found) ↦ ground (arith, found)
]

lose_all-get :
    (device now : ℕ) (ds : List ℕ) (s : TermuxConnectionManager) (c : ℕ)
    → get (lose_all device now ds s).commands c
      ≡ (if any (λ d. d == c) ds then lose_command now (get s.commands c) else get s.commands c)
unfolding lose_all
lose_all-get device now [] s c = refl
lose_all-get device now (d ∷ ds) s c = ground (
  arith,
  lose_all-get device now ds (lose device now d s) c,
  lose-get device now d s c,
  lose_command-lose_command now (get s.commands c),
)

lose_all-listed :
    (device now : ℕ) (ds : List ℕ) (s : TermuxConnectionManager) (c : ℕ)
    → is_listed c (lose_all device now ds s) ≡ (is_listed c s && not (any (λ d. d == c) ds))
unfolding lose_all
lose_all-listed device now [] s c = ground arith
lose_all-listed device now (d ∷ ds) s c =
    ground
      (arith, lose_all-listed device now ds (lose device now d s) c, lose-listed device now d s c)

lose_all-transports :
    (device now : ℕ) (ds : List ℕ) (s : TermuxConnectionManager)
    → (lose_all device now ds s).transports ≡ s.transports
unfolding lose_all
lose_all-transports device now [] s = refl
lose_all-transports device now (d ∷ ds) s =
    lose_all-transports device now ds (lose device now d s) ∙ lose-transports device now d s

-- The manager when the loop of `handle_disconnect` begins.
abbrev pub gone : ℕ → ℕ → TermuxConnectionManager → TermuxConnectionManager
gone device now s = notify device_disconnected device none (record s {
  transports = remove s.transports device;
  pairing = (mark_disconnected device now s.pairing).1;
})

-- A command that the manager lists for the device.
abbrev pub is_lost : ℕ → ℕ → TermuxConnectionManager → Bool
is_lost device c s = is_listed c s && is_of device (get s.commands c)

handle_disconnect-ok :
    (device now : ℕ) (s : TermuxConnectionManager)
    → is_ok (handle_disconnect device now s).0 ≡ true
    → (handle_disconnect device now s).1 ≡ lose_all device now (lost device s) (gone device now s)
unfolding handle_disconnect
handle_disconnect-ok device now s h = ground (arith, h)

pub handle_disconnect-err :
    (device now : ℕ) (s : TermuxConnectionManager)
    → is_ok (handle_disconnect device now s).0 ≡ false
    → (handle_disconnect device now s).1 ≡ record s { transports = remove s.transports device }
unfolding handle_disconnect
handle_disconnect-err device now s h = ground (arith, h)

-- Whether the device is registered or not, its connection is dropped, and every other device's is
-- kept.
pub handle_disconnect-transports :
    (device now d : ℕ) (s : TermuxConnectionManager)
    → get (handle_disconnect device now s).1.transports d
      ≡ (if device == d then none else get s.transports d)
unfolding handle_disconnect
handle_disconnect-transports device now d s = ground (
  arith,
  lose_all-transports device now (lost device s) (gone device now s),
  get-remove s.transports device d,
)

-- The end of the connection of a registered device, for every command: one that is listed for the
-- device leaves the list, and fails with the message that the connection was lost if it has no
-- result yet, and keeps its result otherwise; every other command stays listed and unchanged.
pub handle_disconnect-commands :
    (device now : ℕ) (s : TermuxConnectionManager) (c : ℕ)
    → is_ok (handle_disconnect device now s).0 ≡ true
    → (get (handle_disconnect device now s).1.commands c
        ≡ (if is_lost device c s then lose_command now (get s.commands c) else get s.commands c))
      × (is_listed c (handle_disconnect device now s).1
          ≡ (is_listed c s && not (is_of device (get s.commands c))))
handle_disconnect-commands device now s c h =
    let named = any-filter (λ x. is_of device (get s.commands x)) c s.pending in
    let e = handle_disconnect-ok device now s h in
    (
      ground (arith, e, named, lose_all-get device now (lost device s) (gone device now s) c),
      ground (arith, e, named, lose_all-listed device now (lost device s) (gone device now s) c),
    )
