-- ===== src/Tests/Runs.antt =====
-- Runs of calls on cards and of the DNS server's sockets, and the theorems on them.
use captive_portal_esp.Base.{◌+◌, ◌≡◌, refl, true, false, some, List, [], ◌∷◌}
use captive_portal_esp.Rfid.Requests.{Request, serve_all}
use captive_portal_esp.Rfid.ReadOnly.{lookups_keep_files}
use captive_portal_esp.Dns.Sockets.{Heard, Round, dns_server_task, closes, opens, receive_fails}
use captive_portal_esp.Dns.Closed.{count, open_after_all, alive_count, sockets_closed}
use captive_portal_esp.Tests.Device.{calm, fresh}

abbrev lookups : List Request
lookups =
    Request.check 7 ∷ Request.count ∷ Request.valid ∷ Request.list 2 ∷ Request.list_json 64 ∷ []

lookups_keep_files_example : (serve_all calm lookups fresh).1.files ≡ fresh.files
lookups_keep_files_example =
    lookups_keep_files calm lookups fresh (refl, (refl, (refl, (refl, (refl, tt)))))

abbrev failing : List Round
failing =
    Round.with_socket (Heard.datagram [] true ∷ Heard.recv_failed ∷ []) ∷ Round.with_socket [] ∷ []

sockets_closed_example :
    (let out = dns_server_task (192 ∷ 168 ∷ 4 ∷ 1 ∷ []) failing in
      (open_after_all (some false) out.0 ≡ some out.1)
      × (count closes out.0 + alive_count out.1 ≡ count opens out.0 + count receive_fails out.0))
sockets_closed_example = sockets_closed (192 ∷ 168 ∷ 4 ∷ 1 ∷ []) failing
