-- ===== src/Route/Circuit.antt =====
-- The routers of a broadcast circuit: the hello messages that arrive (kernel/net/decnet/dn_neigh.c)
-- and the timers and the election of the designated router (kernel/net/decnet/dn_dev.c). A
-- neighbour is named by its address; the state is that of one device, so that its neighbours are
-- those of the device. Times are 32-bit jiffies, HZ of them a second; a `char` is unsigned, as on
-- the ARM. Memory for a new neighbour is given.
pub mod Hello
pub mod Election
pub mod Sent
mod Tests
use raspbian_decnet.Base.{
  ℕ, zero, suc, ◌+◌, ◌-◌, ◌*◌, ◌/◌, ◌%◌, ◌^◌, Bool, true, false, not, ◌&&◌, ◌||◌, ltb, leb, ◌==◌,
  ◌!=◌, if◌then◌else◌, Option, none, some, List, [], ◌∷◌, ◌++◌, take, drop, get_or, length, bit_and,
  bit_or,
}
use raspbian_decnet.Nsp.Header.{le16, read_le16}
use raspbian_decnet.Route.Header.{dn_dn2eth, dn_eth2dn}

pub record DnNeigh : Type 0 where
  pub addr : ℕ
  pub ndflag_r1 : Bool
  pub ndflag_r2 : Bool
  pub ndflag_p3 : Bool
  pub blksize : ℕ
  pub priority : ℕ
  pub macaddr : List ℕ
  pub permanent : Bool
  pub connected : Bool

-- `struct dn_dev` with the parameters of it that matter here, and the table of neighbours.
pub record DnDev : Type 0 where
  pub neighbours : List DnNeigh
  pub router : Option ℕ
  pub forwarding : ℕ
  pub parms_t2 : ℕ
  pub parms_t3 : ℕ
  pub parms_priority : ℕ
  pub dev_t3 : ℕ
  pub dev_t4 : ℕ
  pub listen : ℕ
  pub multiplier : ℕ
  pub uptime : ℕ

-- A neighbour changed, or made by `__neigh_lookup` where there is none; `made` is what it makes.
unfoldable pub on_neigh : ℕ → DnNeigh → (DnNeigh → DnNeigh) → List DnNeigh → List DnNeigh
on_neigh addr made f [] = f made ∷ []
on_neigh addr made f (d ∷ ds) =
    let rest = on_neigh addr made f ds in if d.addr == addr then f d ∷ ds else d ∷ rest

abbrev pub not_router : DnNeigh → DnNeigh
not_router d = record d { ndflag_r1 = false; ndflag_r2 = false }

-- The neighbour that was the router is one no more.
unfoldable pub forget_router : Option ℕ → List DnNeigh → List DnNeigh
forget_router none ds = ds
forget_router (some addr) [] = []
forget_router (some addr) (d ∷ ds) =
    let rest = forget_router (some addr) ds in
    if d.addr == addr then not_router d ∷ ds else d ∷ rest

abbrev pub is_router : Option ℕ → ℕ → Bool
is_router none addr = false
is_router (some a) addr = a == addr

-- A router hello: the fields of the message, and the hardware address it came from.
pub record RouterHello : Type 0 where
  pub id : List ℕ
  pub iinfo : ℕ
  pub hello_blksize : ℕ
  pub hello_priority : ℕ
  pub timer : ℕ
  pub h_source : List ℕ

abbrev pub dn_rt_info_l1rt : ℕ
dn_rt_info_l1rt = 2

abbrev pub dn_rt_info_l2rt : ℕ
dn_rt_info_l2rt = 1

-- What the message says of its sender.
unfoldable pub heard_router : RouterHello → DnNeigh → DnNeigh
heard_router msg d =
    let level = bit_and msg.iinfo 3 in
    if d.permanent then d else record d {
      blksize = msg.hello_blksize;
      priority = msg.hello_priority;
      macaddr = msg.h_source;
      ndflag_p3 = false;
      ndflag_r1 = (level == dn_rt_info_l1rt || d.ndflag_r1);
      ndflag_r2 =
          if level == dn_rt_info_l1rt then false else (level == dn_rt_info_l2rt || d.ndflag_r2);
    }

unfoldable pub set_router : RouterHello → ℕ → DnDev → DnDev
unfolding forget_router
set_router msg src dev = record dev {
  neighbours = forget_router dev.router dev.neighbours;
  router = some src;
  listen = dev.multiplier * msg.timer % 2 ^ 32;
}

abbrev pub restart_t4 : DnDev → DnDev
restart_t4 dev = record dev { dev_t4 = dev.listen }

-- `made` is what the neighbour table makes for a sender that it does not know.
unfoldable pub dn_neigh_router_hello : ℕ → RouterHello → DnNeigh → DnDev → DnDev
unfolding on_neigh heard_router set_router
dn_neigh_router_hello decnet_address msg made dev =
    let src = dn_eth2dn msg.id in
    let heard = record dev { neighbours = on_neigh src made (heard_router msg) dev.neighbours } in
    if decnet_address == 0 || bit_and src 0xfc00 != bit_and decnet_address 0xfc00
    then dev
    else restart_t4 (if is_router dev.router src then heard else set_router msg src heard)

unfoldable pub heard_endnode : ℕ → DnNeigh → DnNeigh
heard_endnode blksize d =
    if d.permanent then d else record (not_router d) { blksize = blksize; priority = 0 }

unfoldable pub dn_neigh_endnode_hello : List ℕ → ℕ → DnNeigh → DnDev → DnDev
unfolding on_neigh heard_endnode
dn_neigh_endnode_hello id blksize made dev =
    let src = dn_eth2dn id in
    if src == 0
    then dev
    else record dev { neighbours = on_neigh src made (heard_endnode blksize) dev.neighbours }

-- Timer 4, each second: a router that is not heard is given up.
unfoldable pub dn_dev_timer4_func : DnDev → DnDev
unfolding forget_router
dn_dev_timer4_func dev =
    let listen = dev.multiplier * dev.parms_t3 % 2 ^ 32 in
    if leb dev.dev_t4 1
    then record dev {
      neighbours = forget_router dev.router dev.neighbours;
      router = none;
      listen = listen;
      dev_t4 = listen;
    }
    else record dev { dev_t4 = dev.dev_t4 - 1 }

-- Timer 3, each T2: whether a hello is sent, and the device after it with T2 as it is set again.
unfoldable pub dn_dev_set_timer3 : DnDev → DnDev
dn_dev_set_timer3 dev = record dev {
  parms_t2 = if ltb dev.parms_t3 dev.parms_t2 then dev.parms_t3 else dev.parms_t2;
}

unfoldable pub dn_dev_timer3_func : DnDev → Bool × DnDev
unfolding dn_dev_set_timer3
dn_dev_timer3_func dev =
    if leb dev.dev_t3 dev.parms_t2
    then (true, dn_dev_set_timer3 (record dev { dev_t3 = dev.parms_t3 }))
    else (false, dn_dev_set_timer3 (record dev { dev_t3 = dev.dev_t3 - dev.parms_t2 }))

-- `time_before` on 32 bits.
abbrev pub time_before : ℕ → ℕ → Bool
time_before a b = leb (2 ^ 31) ((a + (2 ^ 32 - b)) % 2 ^ 32)

-- Whether this node is the designated router; `other` is the router of the device, where it has one.
unfoldable pub dn_am_i_a_router : ℕ → ℕ → Option DnNeigh → DnDev → ℕ → Bool
dn_am_i_a_router hz jiffies none dev ifa_local =
    not (time_before jiffies ((dev.uptime + 5 * hz) % 2 ^ 32))
dn_am_i_a_router hz jiffies (some other) dev ifa_local =
    not (time_before jiffies ((dev.uptime + 5 * hz) % 2 ^ 32))
    && (ltb other.priority dev.parms_priority
        || (other.priority == dev.parms_priority && ltb other.addr ifa_local))

-- A slot of the router list: an id of six bytes, and the state with the priority.
unfoldable pub slot_of : DnNeigh → List ℕ
slot_of d = dn_dn2eth d.addr ++ (bit_or (if d.connected then 0x80 else 0) d.priority ∷ [])

-- The first least slot of a full list, by its last byte, with its index.
unfoldable pub least_slot : ℕ → List (List ℕ) → Option (ℕ × ℕ) → Option (ℕ × ℕ)
least_slot i [] least = least
least_slot i (s ∷ slots) least =
    let here = some (i, get_or s 6 0) in
    least_slot (suc i) slots
      (elim least [ none ↦ here | some old ↦ if ltb (get_or s 6 0) old.1 then here else some old ])

unfoldable pub dn_find_slot : List (List ℕ) → ℕ → Option ℕ
unfolding least_slot
dn_find_slot slots priority = elim (least_slot 0 slots none) [
  | none ↦ none
  | some least ↦ if ltb least.1 priority then some least.0 else none
]

abbrev pub put_slot : ℕ → List ℕ → List (List ℕ) → List (List ℕ)
put_slot i s [] = []
put_slot zero s (t ∷ slots) = s ∷ slots
put_slot (suc i) s (t ∷ slots) = t ∷ put_slot i s slots

abbrev pub in_slot : Option ℕ → DnNeigh → List (List ℕ) → List (List ℕ)
in_slot none d slots = slots
in_slot (some i) d slots = put_slot i (slot_of d) slots

-- The list so far holds `t` slots; `n` is what there is room for.
unfoldable pub neigh_elist_cb : ℕ → DnNeigh → List (List ℕ) → List (List ℕ)
unfolding slot_of dn_find_slot
neigh_elist_cb n d slots =
    if not (d.ndflag_r1 || d.ndflag_r2)
    then slots
    else if length slots == n
    then in_slot (dn_find_slot slots d.priority) d slots
    else slots ++ (slot_of d ∷ [])

unfoldable pub dn_neigh_elist : ℕ → List DnNeigh → List (List ℕ) → List (List ℕ)
unfolding neigh_elist_cb
dn_neigh_elist n [] slots = slots
dn_neigh_elist n (d ∷ ds) slots = dn_neigh_elist n ds (neigh_elist_cb n d slots)
