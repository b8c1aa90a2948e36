-- ===== src/Examples/Termux.antt =====
-- A phone that is paired (services/termux/pairing.py), with a digest that marks what it hashes.
use cyber_tracker_ai.Base.{◌≡◌, refl, ◌↔◌, true, none, some, List, [], ◌∷◌}
use cyber_tracker_ai.Base.Text.{Text, codes, text_beq}
use cyber_tracker_ai.Base.Dict.{get, put, remove}
use cyber_tracker_ai.Base.Result.{ok, is_ok}
use cyber_tracker_ai.Termux.Pairing.{
  TermuxDevice, DeviceState, PairingService, authenticate, confirm_pairing, confirm_pending,
  register_device, unused,
}
use cyber_tracker_ai.Termux.Pairing.Tokens.{
  Call, register, confirm, issued, run, step, authenticate_iff,
}

abbrev marked : Text → Text
marked t = b'#' ∷ t

abbrev calls : List Call
calls =
    register (codes "phone") none 5 (codes "abc") 100
    ∷ confirm 5 (codes "abc") (codes "secret") 150
    ∷ []

paired_issue : issued 5 (run marked 300 calls (unused, [])).1 ≡ some (codes "secret")
unfolding run step register_device confirm_pairing confirm_pending issued get put remove codes
    text_beq
paired_issue = refl

authenticate_iff_example :
    (is_ok (authenticate marked 5 (codes "secret") (run marked 300 calls (unused, [])).0).0 ≡ true)
    ↔ ((raw : Text) × (issued 5 (run marked 300 calls (unused, [])).1 ≡ some raw)
        × (marked raw ≡ marked (codes "secret")))
authenticate_iff_example = authenticate_iff marked 300 calls 5 (codes "secret")

abbrev waiting : PairingService
waiting = (run marked 300 (register (codes "phone") none 5 (codes "abc") 100 ∷ []) (unused, [])).0

abbrev phone : TermuxDevice
phone = record {
  id = 5;
  name = codes "phone";
  connector_version = none;
  state = DeviceState.authorized;
  registered_at = 100;
  last_seen_at = some 150;
  revoked_at = none;
}

paired :
    (confirm_pairing marked 5 (codes "abc") (codes "secret") 150 waiting).0
    ≡ ok (phone, codes "secret")
unfolding run step register_device confirm_pairing confirm_pending get put remove codes text_beq
paired = refl
