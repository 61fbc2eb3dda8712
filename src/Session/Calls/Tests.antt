-- ===== src/Session/Calls/Tests.antt =====
-- The theorems on the socket calls and the slow timer, at concrete sockets.
use raspbian_decnet.Base.{◌≡◌, refl, true, false, ◌==◌, [], ◌∷◌, replicate, arith}
use raspbian_decnet.Nsp.Socket.{Sock, DnScp, SockaddrDn, State}
use raspbian_decnet.Nsp.Samples.{sample_kernel, sample_scp, sample_sock, no_name}
use raspbian_decnet.Session.Username.RoundTrip.{IsName, received}
use raspbian_decnet.Session.Conninit.{peer_type, own_name}
use raspbian_decnet.Session.Listener.RoundTrip.{IsCaller, conninit_body}
use raspbian_decnet.Session.Table.{Table, check_port, port_alloc, dn_hash_sock}
use raspbian_decnet.Session.Timer.{dn_slow_timer}
use raspbian_decnet.Session.Timer.States.{Passes, slow_timer-Passes}
use raspbian_decnet.Session.Timer.Closing.{IsClosing, ticks}
use raspbian_decnet.Session.Calls.Open.{Host, Uaddr, dn_auto_bind}
use raspbian_decnet.Session.Calls.Close.{destroy_sock}
use raspbian_decnet.Session.Calls.Close.Silence.{destroy_sock-silence}
use raspbian_decnet.Session.Calls.Accept.{read_link}
use raspbian_decnet.Session.Calls.Accept.RoundTrip.{
  access_received, optional_received, proxied, read_link-conninit_body,
}

-- A link that has asked for a connection.
abbrev delivered_sock : Sock
delivered_sock = record sample_sock {
  scp = record sample_scp { state = State.connect_delivery; conntimer = 500 };
}

slow_timer-Passes_example :
    Passes delivered_sock.scp.state (dn_slow_timer sample_kernel false delivered_sock).0.scp.state
slow_timer-Passes_example = slow_timer-Passes sample_kernel false delivered_sock

destroy_sock-silence_example :
    let closing = destroy_sock sample_kernel sample_sock in
    IsClosing 0 (ticks (sample_kernel ∷ sample_kernel ∷ []) closing.0).0
    × (closing.1 ≡ false)
    × ((ticks (sample_kernel ∷ sample_kernel ∷ []) closing.0).1 ≡ false)
destroy_sock-silence_example =
    destroy_sock-silence sample_kernel (sample_kernel ∷ sample_kernel ∷ []) sample_sock refl
      (omega arith, (omega arith, tt))

-- A node 1.1 with a socket that has just been opened.
abbrev sample_host : Host
sample_host = record {
  capable = false;
  islocal = λ addr. addr == 1025;
  bind_error = 0;
  bind_default = 1025;
  decnet_address = 1025;
  advmss = λ dst. 1459;
}

abbrev opened_table : Table
opened_table = record {
  sk_hash = λ h. [];
  wild_sk = [];
  socks = λ sk. record sample_sock {
    scp = record sample_scp { addrloc = 0; state = State.opened };
    sk_zapped = true;
  };
  port = 0x2000;
}

-- The address 3.0.
abbrev area_three : Uaddr
area_three = record {
  addr_len = 26;
  sdn_family = 12;
  sdn_nodeaddrl = 2;
  name = record no_name { sdn_nodeaddr = 3072 };
}

binds : (dn_auto_bind sample_host opened_table 1).0 ≡ 0
unfolding dn_auto_bind dn_hash_sock port_alloc check_port
binds = refl

-- A caller from "FAL" to "FAL".
abbrev name_fal : SockaddrDn
name_fal = record {
  sdn_flags = 0;
  sdn_objnum = 0;
  sdn_objnamel = 3;
  sdn_objname = 0x46 ∷ 0x41 ∷ 0x4c ∷ replicate 13 0;
  sdn_nodeaddr = 1025;
}

name_fal-IsName : IsName name_fal
name_fal-IsName = record { size = refl; short = omega arith; padded = refl }

abbrev calling : DnScp
calling = record sample_scp { peer = name_fal; addr = name_fal }

calling-IsCaller : IsCaller calling
calling-IsCaller = record {
  peer = name_fal-IsName;
  addr = name_fal-IsName;
  addr_short = omega arith;
  user = (omega arith, omega arith);
  password = (omega arith, omega arith);
  account = (omega arith, omega arith);
  optional = (omega arith, omega arith);
}

read_link-conninit_body_example :
    let link = read_link (conninit_body calling) sample_scp in
    (link.addr ≡ received (peer_type name_fal) name_fal sample_scp.addr)
    × (link.peer ≡ proxied 0 (received 2 (own_name name_fal) sample_scp.peer))
    × (link.accessdata ≡ access_received calling.accessdata sample_scp.accessdata)
    × (link.conndata_in ≡ optional_received calling.conndata_out sample_scp.conndata_in)
read_link-conninit_body_example = read_link-conninit_body calling sample_scp calling-IsCaller
