-- ===== src/Route/Circuit/Sent.antt =====
-- The hello that a router sends is what the other nodes of the circuit hear, kernel/net/decnet.
use raspbian_decnet.Base.{
  ℕ, ◌+◌, ◌*◌, ◌/◌, ◌%◌, ◌^◌, ◌<◌, ◌≡◌, refl, ◌==◌, if◌then◌else◌, List, arith,
}
use raspbian_decnet.Route.Header.{dn_dn2eth}
use raspbian_decnet.Route.Circuit.{DnDev, RouterHello, dn_rt_info_l1rt, dn_rt_info_l2rt}
use raspbian_decnet.Route.Circuit.Hello.{router_hello, read_hello}

word : (n : ℕ) → n < 2 ^ 16 → n % 256 + n / 256 % 256 * 256 ≡ n
word n h = omega (arith, h)

-- What a hello says of its sender.
abbrev pub said : List ℕ → ℕ → ℕ → DnDev → RouterHello
said h_source blksize local dev = record {
  id = dn_dn2eth local;
  iinfo = if dev.forwarding == 1 then dn_rt_info_l1rt else dn_rt_info_l2rt;
  hello_blksize = blksize;
  hello_priority = dev.parms_priority;
  timer = dev.parms_t3;
  h_source = h_source;
}

-- What is read in a hello: the sender's address and level, its block size, priority and timer.
pub read_hello-router_hello :
    (h_source : List ℕ) (blksize local : ℕ) (dev : DnDev) (slots : List (List ℕ))
    → blksize < 2 ^ 16
    → dev.parms_t3 < 2 ^ 16
    → read_hello h_source (router_hello blksize dev local slots) ≡ said h_source blksize local dev
unfolding read_hello router_hello
read_hello-router_hello h_source blksize local dev slots fits short =
    rw (word blksize fits, word dev.parms_t3 short) refl
