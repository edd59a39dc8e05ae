-- ===== src/Tests/Manor.antt =====
-- A server with two rooms, both of the same owner: `ann` and `bob` are in the attic.
use lso_server.Base.{
  ℕ, zero, suc, ◌<◌, ◌≡◌, refl, ap, sym, subst, ◌⊎◌, inl, inr, [], ◌∷◌, ◌++◌, some, pos, arith,
  get_elem?, replicate,
}
use lso_server.Memory.Laws.{init}
use lso_server.World.{Pointer, null, addr, Client, Room, World, object, codes}
use lso_server.ClientPool.Lookup.{Slots}
use lso_server.Invariant.{Inv, IsRoom}
use lso_server.Invariant.Steps.{nowhere}
use lso_server.Tests.Data.{ann, bob, den, town}

abbrev pub ann_upstairs : Client
ann_upstairs = record ann { room = addr 1 }

abbrev pub bob_upstairs : Client
bob_upstairs = record bob { room = addr 1 }

abbrev pub attic : Room
attic = record {
  clients = addr 0 ∷ addr 1 ∷ replicate 28 null;
  id = 1;
  clients_count = pos 2;
  name = init (codes "attic") ++ some 0 ∷ [];
  owner = addr 0;
}

abbrev pub manor : World
manor = record town {
  clients = some ann_upstairs ∷ some bob_upstairs ∷ [];
  rooms = some den ∷ some attic ∷ [];
  g_rooms = addr 0 ∷ addr 1 ∷ replicate 998 null;
  counter_room = 2;
}

some_pointer : {p q : Pointer} → some p ≡ some q → q ≡ p
some_pointer e = cc

pub attic-Slots : Slots manor attic.clients
attic-Slots zero q e = inr (ann_upstairs, ap (object manor.clients) (some_pointer e))
attic-Slots (suc zero) q e = inr (bob_upstairs, ap (object manor.clients) (some_pointer e))
attic-Slots (suc (suc i)) q e = inl (nowhere i 28 q e)

pub manor-Inv : Inv manor
manor-Inv = record {
  pool = record { slots = refl; counted = refl; member = member; distinct = distinct };
  uids = record { below = below; distinct = apart };
  table = record { size = refl; room = room; registered = registered; listed = listed };
}
  where
    member :
        (i : ℕ) (q : Pointer)
        → get_elem? manor.pool.clients i ≡ some q
        → (q ≡ null)
          ⊎ ((a : ℕ) × (c : Client) × (q ≡ addr a) × (object manor.clients (addr a) ≡ some c))
    member zero q e = inr (0, ann_upstairs, some_pointer e, refl)
    member (suc zero) q e = inl (some_pointer e)
    member (suc (suc zero)) q e = inr (1, bob_upstairs, some_pointer e, refl)
    member (suc (suc (suc i))) q e = inl (nowhere i 7 q e)

    null_addr : {a : ℕ} → addr a ≡ null → ⊥
    null_addr e = cc

    distinct :
        (i j a : ℕ)
        → get_elem? manor.pool.clients i ≡ some (addr a)
        → get_elem? manor.pool.clients j ≡ some (addr a)
        → i ≡ j
    distinct zero zero a e f = refl
    distinct zero (suc zero) a e f = cc
    distinct zero (suc (suc zero)) a e f = ground (arith, e, f)
    distinct zero (suc (suc (suc j))) a e f = absurd (null_addr (nowhere j 7 (addr a) f))
    distinct (suc zero) j a e f = cc
    distinct (suc (suc zero)) zero a e f = ground (arith, e, f)
    distinct (suc (suc zero)) (suc zero) a e f = cc
    distinct (suc (suc zero)) (suc (suc zero)) a e f = refl
    distinct (suc (suc zero)) (suc (suc (suc j))) a e f =
        absurd (null_addr (nowhere j 7 (addr a) f))
    distinct (suc (suc (suc i))) j a e f = absurd (null_addr (nowhere i 7 (addr a) e))

    below : (a : ℕ) (c : Client) → object manor.clients (addr a) ≡ some c → c.uid < 2
    below zero c e = omega (arith, uid e)
      where
        uid : some ann_upstairs ≡ some c → c.uid ≡ 0
        uid e = cc
    below (suc zero) c e = omega (arith, uid e)
      where
        uid : some bob_upstairs ≡ some c → c.uid ≡ 1
        uid e = cc
    below (suc (suc a)) c e = cc

    apart :
        (a b : ℕ) (c d : Client)
        → object manor.clients (addr a) ≡ some c
        → object manor.clients (addr b) ≡ some d
        → c.uid ≡ d.uid
        → a ≡ b
    apart zero zero c d e f u = refl
    apart zero (suc zero) c d e f u = absurd (omega (arith, first e, second f))
      where
        first : some ann_upstairs ≡ some c → c.uid ≡ 0
        first e = cc

        second : some bob_upstairs ≡ some d → d.uid ≡ 1
        second e = cc
    apart zero (suc (suc b)) c d e f u = cc
    apart (suc zero) zero c d e f u = absurd (omega (arith, first e, second f))
      where
        first : some bob_upstairs ≡ some c → c.uid ≡ 1
        first e = cc

        second : some ann_upstairs ≡ some d → d.uid ≡ 0
        second e = cc
    apart (suc zero) (suc zero) c d e f u = refl
    apart (suc zero) (suc (suc b)) c d e f u = cc
    apart (suc (suc a)) b c d e f u = cc

    some_room : {r s : Room} → some r ≡ some s → r ≡ s
    some_room e = cc

    den-IsRoom : IsRoom den 2
    den-IsRoom = record { slots = refl; counted = refl; below = omega arith }

    attic-IsRoom : IsRoom attic 2
    attic-IsRoom = record { slots = refl; counted = refl; below = omega arith }

    room : (a : ℕ) (r : Room) → object manor.rooms (addr a) ≡ some r → IsRoom r 2
    room zero r e = subst (λ (s : Room). IsRoom s 2) (some_room e) den-IsRoom
    room (suc zero) r e = subst (λ (s : Room). IsRoom s 2) (some_room e) attic-IsRoom
    room (suc (suc a)) r e = cc

    registered :
        (a : ℕ) (r : Room)
        → object manor.rooms (addr a) ≡ some r
        → get_elem? manor.g_rooms r.id ≡ some (addr a)
    registered zero r e = ap (λ (s : Room). get_elem? manor.g_rooms s.id) (sym (some_room e))
    registered (suc zero) r e = ap (λ (s : Room). get_elem? manor.g_rooms s.id) (sym (some_room e))
    registered (suc (suc a)) r e = cc

    listed :
        (i : ℕ) (p : Pointer)
        → get_elem? manor.g_rooms i ≡ some p
        → (p ≡ null)
          ⊎ ((a : ℕ) × (r : Room) × (p ≡ addr a)
              × (object manor.rooms (addr a) ≡ some r)
              × (r.id ≡ i))
    listed zero p e = inr (0, den, some_pointer e, refl, refl)
    listed (suc zero) p e = inr (1, attic, some_pointer e, refl, refl)
    listed (suc (suc i)) p e = inl (nowhere i 998 p e)
