-- ===== src/Soundness/Outcomes.antt =====
-- Handlers that return and leave everything fitting together.
use lso_server.Base.{
  ℕ, ◌≡◌, refl, ap, sym, subst, ◌∙◌, ◌⊎◌, inl, inr, List, [], ◌∷◌, ◌++◌, some, ok, get_elem?,
}
use lso_server.Memory.{Block}
use lso_server.Memory.Laws.{init, NonZero}
use lso_server.Writer.Strings.{IsBytes}
use lso_server.World.{
  null, addr, CString, no_string, wild_string, string, Client, Room, Pool, Packet, World, Cmd,
  object, ◌>>◌, pure,
}
use lso_server.World.Laws.{Ends}
use lso_server.Client.{transmit}
use lso_server.Client.Posted.{posted, transmit-posted}
use lso_server.ClientPool.Lookup.{Slots}
use lso_server.Invariant.Keeps.{Kept, Kept-self, Stable}
use lso_server.Soundness.{IsSigned, IsMember, IsServed, Housed, Sound}
use lso_server.Soundness.Guests.{Stays, Does}

-- The clients were there before.
abbrev pub Older : World → World → Type 0
Older w w' =
    (k : ℕ) (x : Client)
    → object w'.clients (addr k) ≡ some x
    → (y : Client) × (object w.clients (addr k) ≡ some y)

pub Stable-Sound :
    (m : Cmd (Unit {0})) (w w' : World)
    → Stable m
    → Sound w
    → m w ≡ ok (tt, w')
    → Housed w'.clients w'.rooms
    → Older w w'
    → Sound w'
Stable-Sound m w w' stable v runs housed older = record {
  inv = kept.inv;
  served = subst IsServed (sym kept.outside) v.served;
  housed = housed;
  pooled = λ k x e.
      let (y, live) = older k x e in
      let (j, at) = v.pooled k y live in
      (j, ap (λ (p : Pool). get_elem? p.clients j) kept.pool ∙ at);
}
  where
    kept : Kept w w'
    kept = subst (Ends (λ _. Kept w)) runs (stable.runs w w (Kept-self w v.inv))

-- Nothing has changed but what has gone out.
pub Stable-Stays :
    (m : Cmd (Unit {0})) (w : World) (sent : List Packet)
    → Stable m
    → Sound w
    → m w ≡ ok (tt, record w { sent = sent })
    → Does Stays m w
Stable-Stays m w sent stable v runs = (
  _,
  runs,
  Stable-Sound m w (record w { sent = sent }) stable v runs v.housed (λ k x e. (x, e)),
  λ k. refl,
)

-- A reply, at the end of a handler.
pub replied :
    (w : World) (p : Packet)
    → (transmit p >> pure tt) w ≡ ok (tt, record w { sent = posted w.outside w.sent (p ∷ []) })
replied w p = rw (transmit-posted w p)

pub reply-Stays :
    (m : Cmd (Unit {0})) (w : World) (p : Packet)
    → Stable m
    → Sound w
    → m w ≡ (transmit p >> pure tt) w
    → Does Stays m w
reply-Stays m w p stable v runs = Stable-Stays m w _ stable v (runs ∙ replied w p)

-- The name of a user that is signed in.
pub signed_name :
    (s : CString)
    → IsSigned s
    → (cs : List ℕ) × (rest : Block) × (s ≡ string (init cs ++ some 0 ∷ rest))
      × NonZero cs
      × IsBytes cs
signed_name no_string h = absurd h
signed_name wild_string h = absurd h
signed_name (string m) h = (h.chars, h.rest, ap string h.split, h.text, h.bytes)

module _ (w : World) (v : Sound w) where
  -- The slots of a room lead to clients.
  pub room-Slots : (b : ℕ) (r : Room) → object w.rooms (addr b) ≡ some r → Slots w r.clients
  room-Slots b r there i q at = client (v.housed.member b r i q there at)
    where
      client :
          (q ≡ null) ⊎ ((a : ℕ) × (q ≡ addr a) × IsMember w.clients b a)
          → (q ≡ null) ⊎ ((c : Client) × (object w.clients q ≡ some c))
      client (inl e) = inl e
      client (inr (a, e, m)) = inr (m.client, ap (object w.clients) e ∙ m.live)

  -- Who stands in a slot of a room is a member.
  pub slot-IsMember :
      (b : ℕ) (r : Room) (i a : ℕ)
      → object w.rooms (addr b) ≡ some r
      → get_elem? r.clients i ≡ some (addr a)
      → IsMember w.clients b a
  slot-IsMember b r i a there at = member (v.housed.member b r i (addr a) there at)
    where
      same : (d : ℕ) → addr a ≡ addr d → d ≡ a
      same d e = cc

      member :
          (addr a ≡ null) ⊎ ((d : ℕ) × (addr a ≡ addr d) × IsMember w.clients b d)
          → IsMember w.clients b a
      member (inl e) = cc
      member (inr (d, e, m)) = subst (IsMember w.clients b) (same d e) m

  -- The owner of a room is a member.
  pub owner-IsMember :
      (b : ℕ) (r : Room)
      → object w.rooms (addr b) ≡ some r
      → (o : ℕ) × (r.owner ≡ addr o) × IsMember w.clients b o
  owner-IsMember b r there =
      let h = v.housed.house b r there in
      (h.owner, h.owned, slot-IsMember b r h.seat h.owner there h.seated)
