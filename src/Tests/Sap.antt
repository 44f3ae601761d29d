-- ===== src/Tests/Sap.antt =====
-- The SIM access profile socket with two requests.
use mathlib.Core.Option
use platform_hardware_ril.Base.{ℕ, ◌≡◌, refl, true, none, some, [], ◌∷◌, codes, ◌==◌, if◌then◌else◌}
use platform_hardware_ril.Base.Int.{pos}
use platform_hardware_ril.SapSocket.Queue.{Memory, Request, Header, matches}
use platform_hardware_ril.SapSocket.{Socket, Sap, on_request_complete}
use platform_hardware_ril.SapSocket.Complete.{
  Pends, completed, on_request_complete_first, twin_requests,
}

-- The request at 10 has the header at 20 and the one at 11 that at 21.
abbrev sap_request : ℕ → ℕ → Request
sap_request token hdr = record { token = pos token; curr = some hdr; socket_id = 0 }

abbrev header : ℕ → ℕ → Header
header token id = record { token = pos token; id = id; payload = codes "x" }

abbrev memory_of : ℕ → ℕ → Memory
memory_of first second = record {
  requests = λ p.
      if p == 10
      then some (sap_request first 20)
      else if p == 11
      then some (sap_request second 21)
      else none;
  headers = λ p.
      if p == 20 then some (header first 3) else if p == 21 then some (header second 3) else none;
}

abbrev socket : Socket
socket = record { name = codes "slot1"; id = 0; has_funcs = true; queue = 10 ∷ 11 ∷ [] }

abbrev sap_of : ℕ → ℕ → Sap
sap_of first second = record {
  memory = memory_of first second;
  sockets = socket ∷ [];
  asked = [];
  responses = [];
  indications = [];
}

second-Pends : Pends (memory_of 1 2) 11 (pos 2) 3
second-Pends = record {
  request = sap_request 2 21;
  at = 21;
  header = header 2 3;
  stored = refl;
  current = refl;
  read = refl;
  request_token = refl;
  header_token = refl;
  header_id = refl;
}

on_request_complete_first_example :
    on_request_complete socket true (some 11) 0 (some (codes "ok")) (sap_of 1 2)
    ≡ some (
        completed socket 11 second-Pends.at
          (10 ∷ [])
          second-Pends.header
          0
          (some (codes "ok"))
          (sap_of 1 2))
unfolding matches Option.bind
on_request_complete_first_example =
    on_request_complete_first socket 11 0 3 (pos 2) (10 ∷ []) [] (some (codes "ok")) (sap_of 1 2)
      second-Pends refl (refl, tt)

twin-Pends :
    (p hdr : ℕ)
    → (memory_of 1 1).requests p ≡ some (sap_request 1 hdr)
    → (memory_of 1 1).headers hdr ≡ some (header 1 3)
    → Pends (memory_of 1 1) p (pos 1) 3
twin-Pends p hdr stored read = record {
  request = sap_request 1 hdr;
  at = hdr;
  header = header 1 3;
  stored = stored;
  current = refl;
  read = read;
  request_token = refl;
  header_token = refl;
  header_id = refl;
}

twin_requests_example :
    (s' : Sap) × (on_request_complete socket true (some 11) 0 none (sap_of 1 1) ≡ some s')
    × (on_request_complete socket true (some 10) 0 none s' ≡ none)
twin_requests_example =
    twin_requests socket socket 10 11 0 0 3 (pos 1) [] none none (sap_of 1 1) true
      (twin-Pends 10 20 refl refl) (twin-Pends 11 21 refl refl) refl
