-- ===== src/Route/Tests.antt =====
-- The theorems on routing, at concrete packets.
use raspbian_decnet.Base.{
  ℕ, ◌==◌, if◌then◌else◌, List, ◌≡◌, refl, true, false, none, some, [], ◌∷◌, ◌++◌, take, arith,
}
use mathlib.Core.Option
use raspbian_decnet.Nsp.Socket.{Skb}
use raspbian_decnet.Nsp.Samples.{packet}
use raspbian_decnet.Route.Header.{dn_long_output, long_packet, short_packet}
use raspbian_decnet.Route.Receive.{Arrival, Inbound, Disposal, dn_route_rcv}
use raspbian_decnet.Route.Receive.RoundTrip.{
  Accepts, IsSendable, arrives, read_back, long_flags, rcv-long_output,
}
use raspbian_decnet.Route.Receive.Hellos.{is_router_hello, rcv-router_hello}
use raspbian_decnet.Route.Forward.{dn_route_rx_packet}
use raspbian_decnet.Route.Forward.Hops.{Leg, passes, Carries, Arrived, passes-none, passes-Arrived}
use raspbian_decnet.Route.Forward.Returned.{IfReturned, rx_packet-front}
use raspbian_decnet.Route.Fib.{DnFibInfo, Flowidn}
use raspbian_decnet.Route.Table.{DnHash, dn_fib_table_lookup}
use raspbian_decnet.Route.Table.Update.{RouteRequest, dn_fib_table_insert}
use raspbian_decnet.Route.Table.Lookup.{best_answer, lookup-best_answer}
use raspbian_decnet.Route.Table.Zones.{IsTable}
use raspbian_decnet.Route.Table.Runs.{Reachable, empty, operated, inserts, Reachable-IsTable}
use raspbian_decnet.Route.Table.Longest.{Longest, lookup-Longest}
use raspbian_decnet.Route.Source.{Ifaddr, dnet_select_source}
use raspbian_decnet.Route.Source.Choice.{locals, first_of, last_of, select_source-last}

-- From 1.2 to 1.3, to be returned where it is not delivered, after 29 hops.
abbrev travelling : Skb
travelling =
    let blank = packet 0 (0x60 ∷ 1 ∷ 0x20 ∷ []) in
    record blank { cb = record (blank.cb) { dst = 1027; src = 1026; rt_flags = 8; hops = 29 } }

travelling-IsSendable : IsSendable travelling
travelling-IsSendable = record {
  dst = omega arith;
  src = omega arith;
  rt_flags = omega arith;
  some_byte = omega arith;
  fits = omega arith;
}

abbrev arrival : Arrival
arrival = record {
  skb = travelling;
  init_net = true;
  has_dn_dev = true;
  running = true;
  shares = true;
  linearizes = true;
  valid_mcast = true;
  unknown_mcast = false;
  jiffies = 1000;
  ifindex = 2;
  dn_ivprime = false;
  decnet_address = 1028;
}

arrival-Accepts : Accepts arrival 1027
arrival-Accepts = record {
  init_net = refl;
  has_dn_dev = refl;
  running = refl;
  shares = refl;
  for_us = refl;
}

rcv-long_output_example :
    Option.map (λ wire. dn_route_rcv (arrives arrival wire)) (dn_long_output true travelling)
    ≡ some (
        Disposal.to_rx_packet record {
          skb = read_back arrival (long_flags 8) travelling;
          network = long_packet travelling.cb ++ travelling.bytes;
        })
rcv-long_output_example = rcv-long_output arrival travelling arrival-Accepts travelling-IsSendable

-- The node is set to Phase IV Prime and gets a router hello.
abbrev prime_arrival : Arrival
prime_arrival = record arrival { skb = packet 0 (2 ∷ 0 ∷ 0x0b ∷ 0 ∷ []); dn_ivprime = true }

rcv-router_hello_example : is_router_hello (dn_route_rcv prime_arrival) ≡ false
rcv-router_hello_example = rcv-router_hello prime_arrival refl

abbrev leg : Leg
leg = record {
  hop = record { host = true; redirect = false; room = true };
  use_long = true;
  room = true;
  other_end = arrival;
}

passes-none_example : passes (leg ∷ leg ∷ []) (some travelling) ≡ none
passes-none_example =
    passes-none (leg ∷ leg ∷ []) travelling (arrival-Accepts, (arrival-Accepts, tt))
      travelling-IsSendable (omega arith) (omega arith) (omega arith)

leg-Carries : Carries 1027 leg
leg-Carries = record { accepts = arrival-Accepts; host = refl; makes_room = refl; room = refl }

passes-Arrived_example :
    (skb' : Skb) × (passes (leg ∷ []) (some travelling) ≡ some skb') × Arrived 1 travelling skb'
passes-Arrived_example =
    passes-Arrived (leg ∷ []) travelling (leg-Carries, tt) travelling-IsSendable (omega arith)

-- A short packet as it has been read, that nobody here takes.
abbrev unroutable : Inbound
unroutable = record {
  skb = record travelling { cb = record (travelling.cb) { rt_flags = 0x0a } };
  network = short_packet 1027 1026 travelling.cb ++ travelling.bytes;
}

rx_packet-front_example :
    IfReturned
      (λ bytes. take 2 bytes ≡ take 2 unroutable.network)
      (dn_route_rx_packet false true unroutable)
rx_packet-front_example = rx_packet-front false true unroutable

-- Two addresses, 1.2 and 2.2, of which the first is in the area of the destination 1.3.
abbrev two_addresses : List Ifaddr
two_addresses =
    record { ifa_local = 1026; ifa_scope = 0 } ∷ record { ifa_local = 2050; ifa_scope = 0 } ∷ []

select_source-last_example : dnet_select_source two_addresses 1027 0 ≡ (
    if 1027 == 0 then first_of 0 (locals 0 two_addresses) else last_of 0 (locals 0 two_addresses))
select_source-last_example = select_source-last two_addresses 1027 0

-- Routes to area 1 and to node 1.3 of it, through one neighbour each.
abbrev to_area : RouteRequest
to_area = record {
  rtm_dst_len = 6;
  rtm_type = 1;
  rtm_scope = 0;
  rtm_protocol = 3;
  rta_dst = some 1024;
  rta_priority = none;
  rta_oif = none;
  rta_gateway = none;
  excl = false;
  replace = false;
  append = false;
  create = true;
}

abbrev to_node : RouteRequest
to_node = record to_area { rtm_dst_len = 16; rta_dst = some 1027 }

abbrev through : ℕ → DnFibInfo
through gw = record {
  fib_id = gw;
  fib_flags = 0;
  fib_protocol = 3;
  fib_priority = 0;
  fib_nh = record { nh_flags = 0; nh_oif = 2; nh_gw = gw } ∷ [];
}

abbrev area_only : DnHash
area_only = (dn_fib_table_insert [] to_area true true (some (through 1030)) 0).1

abbrev both : DnHash
both = (dn_fib_table_insert area_only to_node true true (some (through 1031)) 0).1

both-Reachable : Reachable both
both-Reachable =
    operated area_only both
      (operated [] area_only empty (inserts [] to_area true true (some (through 1030)) 0))
      (inserts area_only to_node true true (some (through 1031)) 0)

Reachable-IsTable_example : IsTable both
Reachable-IsTable_example = Reachable-IsTable both both-Reachable

abbrev flow : Flowidn
flow = record { daddr = 1027; flowidn_oif = 0; flowidn_scope = 0 }

lookup-best_answer_example : (dn_fib_table_lookup both flow).1 ≡ best_answer both flow
lookup-best_answer_example =
    lookup-best_answer both flow (Reachable-IsTable both both-Reachable).zones

lookup-Longest_example : Longest both flow (dn_fib_table_lookup both flow).1
lookup-Longest_example = lookup-Longest both flow (Reachable-IsTable both both-Reachable)
