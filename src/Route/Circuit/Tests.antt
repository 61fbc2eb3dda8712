-- ===== src/Route/Circuit/Tests.antt =====
-- The results for the routers of a circuit, at two of them.
use raspbian_decnet.Base.{ℕ, not, ◌<◌, ◌≡◌, refl, true, false, none, some, [], ◌∷◌, arith}
use raspbian_decnet.Route.Circuit.{
  DnNeigh, DnDev, RouterHello, dn_am_i_a_router, dn_neigh_router_hello,
}
use raspbian_decnet.Route.Circuit.Election.{am_i_a_router-Knows, ticks, router_hello-ticks}

-- Two routers of area 1 on a circuit.
abbrev router_at : ℕ → DnNeigh
router_at addr = record {
  addr = addr;
  ndflag_r1 = true;
  ndflag_r2 = false;
  ndflag_p3 = false;
  blksize = 1498;
  priority = 64;
  macaddr = [];
  permanent = false;
  connected = true;
}

abbrev circuit : DnDev
circuit = record {
  neighbours = [];
  router = none;
  forwarding = 1;
  parms_t2 = 1;
  parms_t3 = 10;
  parms_priority = 64;
  dev_t3 = 10;
  dev_t4 = 30;
  listen = 30;
  multiplier = 3;
  uptime = 0;
}

am_i_a_router-Knows_example :
    dn_am_i_a_router 100 1000 (some (router_at 1026)) circuit 1025
    ≡ not (dn_am_i_a_router 100 1000 (some (router_at 1025)) circuit 1026)
am_i_a_router-Knows_example =
    am_i_a_router-Knows 100 1000 1000 1025 1026 circuit circuit (router_at 1025) (router_at 1026)
      (omega arith) (record { addr = refl; priority = refl })
      (record { addr = refl; priority = refl }) refl refl

abbrev hello : RouterHello
hello = record {
  id = 0xaa ∷ 0 ∷ 4 ∷ 0 ∷ 2 ∷ 4 ∷ [];
  iinfo = 2;
  hello_blksize = 1498;
  hello_priority = 64;
  timer = 10;
  h_source = [];
}

router_hello-ticks_example :
    (29 < 30
      → (ticks 29 (dn_neigh_router_hello 1025 hello (router_at 1026) circuit)).router ≡ some 1026)
    × ((ticks 30 (dn_neigh_router_hello 1025 hello (router_at 1026) circuit)).router ≡ none)
router_hello-ticks_example =
    router_hello-ticks 1025 29 hello (router_at 1026) circuit (omega arith) refl refl (omega arith)
      (omega arith)
