-- ===== src/Client/Posted.antt =====
-- The packets that go out, whether or not each `send` succeeds (server/client.c, `client_send`).
use lso_server.Base.{
  ◌≡◌, refl, List, [], ◌∷◌, ◌++◌, some, ℕ, ℤ, Bool-cases, inl, inr, ok, if◌then◌else◌,
}
use lso_server.Message.{Message}
use lso_server.Message.Wire.{Carries, wire}
use lso_server.World.{Pointer, Client, Outside, Packet, World, object}
use lso_server.Client.{transmit, client_send}
use lso_server.Client.Sends.{client_send-wire}

-- What has gone out after `packets` were sent, one after the other: those whose `send` succeeds.
abbrev pub posted : Outside → List Packet → List Packet → List Packet
posted outside sent [] = sent
posted outside sent (p ∷ packets) =
    posted outside (if outside.sends sent p then sent ++ p ∷ [] else sent) packets

pub posted-append :
    (outside : Outside) (sent xs ys : List Packet)
    → posted outside sent (xs ++ ys) ≡ posted outside (posted outside sent xs) ys
posted-append outside sent [] ys = refl
posted-append outside sent (x ∷ xs) ys =
    posted-append outside (if outside.sends sent x then sent ++ x ∷ [] else sent) xs ys

pub transmit-posted :
    (w : World) (p : Packet)
    → transmit p w
      ≡ ok (w.outside.sends w.sent p, record w { sent = posted w.outside w.sent (p ∷ []) })
unfolding transmit
transmit-posted w p = elim (Bool-cases (w.outside.sends w.sent p)) [
  | inl e ↦ rw e refl
  | inr e ↦ rw e refl
]

pub client_send-posted :
    (w : World) (p : Pointer) (c : Client) (m : Message) (tag : ℤ) (bs : List ℕ)
    → object w.clients p ≡ some c
    → Carries m tag bs
    → client_send p m w
      ≡ ok (
        w.outside.sends w.sent (record { sockfd = c.sockfd; bytes = wire tag bs }),
        record w {
          sent = posted w.outside w.sent (record { sockfd = c.sockfd; bytes = wire tag bs } ∷ []);
        },
      )
client_send-posted w p c m tag bs live carries =
    rw (client_send-wire w p c m tag bs live carries) (transmit-posted w _)
