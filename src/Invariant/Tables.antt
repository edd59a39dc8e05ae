-- ===== src/Invariant/Tables.antt =====
-- The table of rooms over an assignment to a room, `room_create` and `room_delete`.
use lso_server.Base.{
  ℕ, ◌+◌, ◌<◌, ◌≡◌, ◌≢◌, ap, sym, subst, ◌∙◌, ◌⊎◌, inl, inr, List, [], ◌∷◌, ◌++◌, Option, none,
  some, arith, ℕ_discrete, length, get_elem?, set, get_elem?-lt, length-set, get_elem?-set_self,
  get_elem?-set_ne,
}
use lso_server.World.{Pointer, null, addr, Room, object, put_object}
use lso_server.World.Heap.{
  object-put_self, object-put_ne, object-malloc_self, object-malloc_forth, object-malloc_back,
}
use lso_server.Invariant.{IsRoom, IsTable}
use lso_server.Invariant.Slots.{set-slot-cases}

-- What the table holds at the index `i`.
abbrev Listed : List (Option Room) → ℕ → Pointer → Type 0
Listed rooms i p =
    (p ≡ null)
    ⊎ ((a : ℕ) × (r : Room) × (p ≡ addr a) × (object rooms (addr a) ≡ some r) × (r.id ≡ i))

same_room : {x y : Room} → some x ≡ some y → x ≡ y
same_room e = cc

same_addr : {a b : ℕ} → some (addr a) ≡ some (addr b) → a ≡ b
same_addr e = cc

-- Only the room at `a` is another one than before.
module _ (rooms : List (Option Room)) (a : ℕ) (r : Room)
    (live : object rooms (addr a) ≡ some r) where
  object-Put :
      (o : Option Room) (b : ℕ) (x : Room)
      → object (put_object rooms (addr a) o) (addr b) ≡ some x
      → ((b ≡ a) × (o ≡ some x)) ⊎ ((b ≢ a) × (object rooms (addr b) ≡ some x))
  object-Put o b x e = elim (ℕ_discrete b a) [
    | yes same ↦ inl (
      same,
      sym (object-put_self rooms a r o live)
          ∙ ap (λ (k : ℕ). object (put_object rooms (addr a) o) (addr k)) (sym same)
          ∙ e,
    )
    | no ne ↦ inr (ne, sym (object-put_ne rooms a b o (λ s. ne (sym s))) ∙ e)
  ]

  module _ (g : List Pointer) (n : ℕ) (v : IsTable rooms g n) (r' : Room) (right : IsRoom r' n)
      (id : r'.id ≡ r.id) where
    put_room :
        (b : ℕ) (x : Room)
        → ((b ≡ a) × (some r' ≡ some x)) ⊎ ((b ≢ a) × (object rooms (addr b) ≡ some x))
        → IsRoom x n × (get_elem? g x.id ≡ some (addr b))
    put_room b x (inl (same, e)) =
        subst (λ (y : Room). IsRoom y n × (get_elem? g y.id ≡ some (addr b))) (same_room e)
          (
            right,
            ap (get_elem? g) id ∙ v.registered a r live ∙ ap (λ (k : ℕ). some (addr k)) (sym same),
          )
    put_room b x (inr (ne, e)) = (v.room b x e, v.registered b x e)

    put-Listed :
        (i : ℕ) (p : Pointer) → Listed rooms i p → Listed (put_object rooms (addr a) (some r')) i p
    put-Listed i p (inl e) = inl e
    put-Listed i p (inr (b, x, e, f, at)) = elim (ℕ_discrete b a) [
      | yes same ↦ inr (
        a,
        r',
        e ∙ ap addr same,
        object-put_self rooms a r (some r') live,
        id
            ∙ ap (λ (y : Room). y.id)
                (same_room (sym live ∙ ap (λ (k : ℕ). object rooms (addr k)) (sym same) ∙ f))
            ∙ at,
      )
      | no ne ↦ inr (b, x, e, object-put_ne rooms a b (some r') (λ s. ne (sym s)) ∙ f, at)
    ]

    pub IsTable-put : IsTable (put_object rooms (addr a) (some r')) g n
    IsTable-put = record {
      size = v.size;
      room = λ b x e. (put_room b x (object-Put (some r') b x e)).0;
      registered = λ b x e. (put_room b x (object-Put (some r') b x e)).1;
      listed = λ i p e. put-Listed i p (v.listed i p e);
    }

  module _ (g : List Pointer) (n : ℕ) (v : IsTable rooms g n) where
    inside : r.id < length g
    inside = get_elem?-lt g r.id (addr a) (v.registered a r live)

    -- No other room has the id of the one that is deleted.
    kept_id : (b : ℕ) (x : Room) → b ≢ a → object rooms (addr b) ≡ some x → r.id ≢ x.id
    kept_id b x ne e same =
        ne (
          same_addr
            (sym (v.registered b x e) ∙ ap (get_elem? g) (sym same) ∙ v.registered a r live))

    kept_room :
        (b : ℕ) (x : Room)
        → ((b ≡ a) × (none ≡ some x)) ⊎ ((b ≢ a) × (object rooms (addr b) ≡ some x))
        → IsRoom x n × (get_elem? (set g r.id null) x.id ≡ some (addr b))
    kept_room b x (inl (same, e)) = cc
    kept_room b x (inr (ne, e)) =
        (v.room b x e, get_elem?-set_ne g r.id x.id null (kept_id b x ne e) ∙ v.registered b x e)

    kept-Listed :
        (i : ℕ) (p : Pointer)
        → ((i ≡ r.id) × (p ≡ null)) ⊎ ((i ≢ r.id) × (get_elem? g i ≡ some p))
        → Listed (put_object rooms (addr a) none) i p
    kept-Listed i p (inl (e, f)) = inl f
    kept-Listed i p (inr (ne, e)) = carried (v.listed i p e)
      where
        carried : Listed rooms i p → Listed (put_object rooms (addr a) none) i p
        carried (inl f) = inl f
        carried (inr (b, x, f, there, at)) = inr (
          b,
          x,
          f,
          object-put_ne rooms a b none (λ same. ne (
                sym at
                ∙ ap (λ (y : Room). y.id)
                    (same_room
                      (sym there ∙ ap (λ (k : ℕ). object rooms (addr k)) (sym same) ∙ live))))
              ∙ there,
          at,
        )

    pub IsTable-delete : IsTable (put_object rooms (addr a) none) (set g r.id null) n
    IsTable-delete = record {
      size = length-set g r.id null ∙ v.size;
      room = λ b x e. (kept_room b x (object-Put none b x e)).0;
      registered = λ b x e. (kept_room b x (object-Put none b x e)).1;
      listed = λ i p e. kept-Listed i p (set-slot-cases g r.id i null p inside e);
    }

IsRoom-later : (r : Room) (n : ℕ) → IsRoom r n → IsRoom r (n + 1)
IsRoom-later r n v = record { slots = v.slots; counted = v.counted; below = omega (arith, v.below) }

module _ (rooms : List (Option Room)) (g : List Pointer) (n : ℕ) (v : IsTable rooms g n) (r : Room)
    (id : r.id ≡ n) (right : IsRoom r (n + 1)) (room : n < length g) where
  made_room :
      (b : ℕ) (x : Room)
      → ((b ≡ length rooms) × (r ≡ x)) ⊎ (object rooms (addr b) ≡ some x)
      → IsRoom x (n + 1) × (get_elem? (set g n (addr (length rooms))) x.id ≡ some (addr b))
  made_room b x (inl (at, e)) =
      subst
        (λ (y : Room).
          IsRoom y (n + 1) × (get_elem? (set g n (addr (length rooms))) y.id ≡ some (addr b)))
        e
        (
          right,
          ap (get_elem? (set g n (addr (length rooms)))) id
              ∙ get_elem?-set_self g n (addr (length rooms)) room
              ∙ ap (λ (k : ℕ). some (addr k)) (sym at),
        )
  made_room b x (inr e) = (
    IsRoom-later x n (v.room b x e),
    get_elem?-set_ne g n x.id (addr (length rooms))
          (λ same. omega (arith, (v.room b x e).below, same))
        ∙ v.registered b x e,
  )

  made-Listed :
      (i : ℕ) (p : Pointer)
      → ((i ≡ n) × (p ≡ addr (length rooms))) ⊎ ((i ≢ n) × (get_elem? g i ≡ some p))
      → Listed (rooms ++ some r ∷ []) i p
  made-Listed i p (inl (e, f)) = inr (length rooms, r, f, object-malloc_self rooms r, id ∙ sym e)
  made-Listed i p (inr (ne, e)) = carried (v.listed i p e)
    where
      carried : Listed rooms i p → Listed (rooms ++ some r ∷ []) i p
      carried (inl f) = inl f
      carried (inr (b, x, f, there, at)) = inr (b, x, f, object-malloc_forth rooms r x b there, at)

  pub IsTable-create : IsTable (rooms ++ some r ∷ []) (set g n (addr (length rooms))) (n + 1)
  IsTable-create = record {
    size = length-set g n (addr (length rooms)) ∙ v.size;
    room = λ b x e. (made_room b x (object-malloc_back rooms r x b e)).0;
    registered = λ b x e. (made_room b x (object-malloc_back rooms r x b e)).1;
    listed = λ i p e. made-Listed i p (set-slot-cases g n i (addr (length rooms)) p room e);
  }
