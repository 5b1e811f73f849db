-- ===== src/Tests/Phone.antt =====
-- The theorems on the ADNL client and on the Android bridge in a small world.
use ton_tunnel.Base.{
  ◌≡◌, ◌⊎◌, refl, List, [], ◌∷◌, ◌++◌, true, none, some, codes, bytes_beq, if◌then◌else◌, arith,
}
use ton_tunnel.AdnlClient.{Network, Client, new_client, announce, not_advertised}
use ton_tunnel.AdnlClient.Advertise.{InOneLan, in_lan, announce-lan}
use ton_tunnel.Egress.Policy.Addresses.{address}
use ton_tunnel.Android.{new_bridge}
use ton_tunnel.Android.Lifetime.{
  Call, init, configure, receive, thread, message, perform_all, IsOwned, new_bridge-IsOwned,
  perform_all-IsOwned,
}
use ton_tunnel.Android.Queue.{all_outgoing, all_incoming, perform_all-queue}

abbrev network : Network
network = record {
  from_hex = λ key. 256;
  pk_id = 1 ∷ [];
  import_key = λ key. true;
  init_host_port = λ host. some (codes "192.168.0.9");
  init_ipv4_port = λ host. some host;
  inet_pton =
      λ host. if bytes_beq host (codes "192.168.0.9") then some 0xC0A80009 else some 0xC0A80007;
}

announce-lan_example :
    (InOneLan 192 168 0 7 192 168 0 9
      × (announce (some (address 192 168 0 7)) (some (address 192 168 0 9)) (codes "192.168.0.7") []
          ≡ in_lan (codes "192.168.0.7")))
    ⊎ ((¬ InOneLan 192 168 0 7 192 168 0 9)
        × (announce
              (some (address 192 168 0 7))
              (some (address 192 168 0 9))
              (codes "192.168.0.7")
              []
            ≡ not_advertised))
announce-lan_example =
    announce-lan 192 168 0 7 192 168 0 9 (omega arith) (omega arith) (omega arith) (omega arith)
      (omega arith) (omega arith) (omega arith) (omega arith) (codes "192.168.0.7") []

abbrev linked : Client
linked = record (new_client (codes "key") (codes "pk@10.0.0.1:1") []) {
  ready = true;
  attached = true;
}

-- A session: two messages come in, one packet is taken, and the context is made anew.
abbrev calls : List Call
calls =
    configure (some (codes "pk@10.0.0.1:1")) (some (codes "key")) none none
    ∷ init true
    ∷ thread network 1
    ∷ message 1 (codes "ab")
    ∷ message 1 []
    ∷ message 1 (codes "cd")
    ∷ receive true
    ∷ init true
    ∷ receive true
    ∷ []

perform_all-IsOwned_example : IsOwned (perform_all calls new_bridge)
perform_all-IsOwned_example = perform_all-IsOwned calls new_bridge new_bridge-IsOwned

perform_all-queue_example :
    all_outgoing calls new_bridge ++ (perform_all calls new_bridge).inbound_queue
    ≡ new_bridge.inbound_queue ++ all_incoming calls new_bridge
perform_all-queue_example =
    perform_all-queue calls new_bridge (tt, (tt, (tt, (tt, (tt, (tt, (refl, (tt, (refl, tt)))))))))
      new_bridge-IsOwned tt
