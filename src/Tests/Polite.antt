-- ===== src/Tests/Polite.antt =====
-- Polite runs of the server, in concrete states.
use lso_server.Base.{
  ℕ, fault, ◌≡◌, refl, sym, subst, ◌∙◌, List, [], ◌∷◌, ◌++◌, some, pos, ok, Result, arith,
}
use lso_server.Memory.{c_text}
use lso_server.Memory.Laws.{init}
use lso_server.World.{addr, Client, Row, Query, World, Cmd, codes}
use lso_server.Database.{select_query, atoi, skip_spaces, digits_value}
use lso_server.Server.{start, accept_connection, disconnect, receive, client_handler}
use lso_server.Invariant.Removal.{departed, disconnect-departed}
use lso_server.Soundness.{IsRow, HasRow, IsServed, Sound}
use lso_server.Soundness.Guests.{hotel, Hotel, Stays, Leaves, Change, Does}
use lso_server.Soundness.Accepting.{accept_connection-Does}
use lso_server.Soundness.Disconnecting.{Vanished, disconnect-Does}
use lso_server.Soundness.Threads.{
  Converses, reads, ends, client_handler-vanishes, client_handler-one_byte,
}
use lso_server.Soundness.Polite.{IsPolite, signs_in}
use lso_server.Soundness.Serving.{receive-Does}
use lso_server.Soundness.Runs.{
  Event, arrives, writes, hangs_up, perform_all, AreWelcome, done, next, start-Sound,
  perform_all-start-Does, Course,
}
use lso_server.Tests.Run.{answer, willing, blank}
use lso_server.Tests.SignIn.{typed, name, password, row}
use lso_server.Tests.Data.{
  newcomer, is_bytes-IsBytes, are_positive-NonZero, one, two, one-accepted, two-accepted, two-Inv,
}

abbrev bob_row : Row
bob_row = record {
  id_text = init (codes "8") ++ some 0 ∷ [];
  username = init (codes "bob") ++ some 0 ∷ [];
}

row-IsRow : IsRow row
unfolding c_text atoi skip_spaces digits_value
row-IsRow = record {
  digits = codes "7";
  id = pos 7;
  spelled = refl;
  number = refl;
  username = record {
    chars = codes "ann";
    rest = [];
    split = refl;
    text = are_positive-NonZero (codes "ann") refl;
    bytes = is_bytes-IsBytes (codes "ann") refl;
  };
}

bob_row-IsRow : IsRow bob_row
unfolding c_text atoi skip_spaces digits_value
bob_row-IsRow = record {
  digits = codes "8";
  id = pos 8;
  spelled = refl;
  number = refl;
  username = record {
    chars = codes "bob";
    rest = [];
    split = refl;
    text = are_positive-NonZero (codes "bob") refl;
    bytes = is_bytes-IsBytes (codes "bob") refl;
  };
}

only_row : (r s : Row) (others : List Row) → r ∷ [] ≡ s ∷ others → r ≡ s
only_row r s others e = cc

willing-IsServed : IsServed willing
willing-IsServed = record { connects = λ before. refl; answers = answered }
  where
    answered :
        (before : List Query) (user pass : List ℕ) → HasRow (answer before (select_query user pass))
    answered [] user pass = λ r others e. subst IsRow (only_row row r others e) row-IsRow
    answered (_ ∷ _) user pass =
        λ r others e. subst IsRow (only_row bob_row r others e) bob_row-IsRow

same_end : {x y : World} → Path (Result (Unit {0} × World)) (ok (tt, x)) (ok (tt, y)) → x ≡ y
same_end e = cc

-- Where a run is known to end.
landed :
    (C : Hotel → Hotel → Type 0) (m : Cmd (Unit {0})) (w w' : World)
    → m w ≡ ok (tt, w')
    → Does C m w
    → Sound w'
landed C m w w' known (x, runs, v, change) = subst Sound (same_end (sym runs ∙ known)) v

one-Sound : Sound one
one-Sound =
    landed Stays (accept_connection (pos 4) blank) (start willing) one one-accepted (
      accept_connection-Does (start willing) (pos 4) blank (start-Sound willing willing-IsServed)
        tt)

two-Sound : Sound two
two-Sound =
    landed Stays (accept_connection (pos 5) blank) one two two-accepted
      (accept_connection-Does one (pos 5) blank one-Sound tt)

signs_in-IsPolite : (w : World) (c : Client) → IsPolite w c (pos 30) typed
signs_in-IsPolite w c = signs_in (codes "ann") (codes "pw") _ [] refl name password (omega arith)

receive-Does_example :
    Does (Change 0 (pos 30)) (receive (addr 0) (init (0 ∷ 30 ∷ typed) ++ []) 17) two
receive-Does_example =
    receive-Does two two-Sound 0 (newcomer 4 0) refl 0 30 typed []
      (is_bytes-IsBytes (0 ∷ 30 ∷ typed) refl) (signs_in-IsPolite two (newcomer 4 0))

disconnect-Does_example :
    (w : World) × (disconnect (addr 1) two ≡ ok (tt, w))
    × Sound w
    × Leaves 1 (hotel two) (hotel w)
    × Vanished 1 two w
disconnect-Does_example = disconnect-Does two 1 (newcomer 5 1) two-Sound refl

-- The first client signs in, in one read.
signing_in : Converses 0 two ((0 ∷ 30 ∷ typed) ∷ [])
signing_in =
    reads two 0 30 typed [] (is_bytes-IsBytes (0 ∷ 30 ∷ typed) refl)
      (λ c live. signs_in-IsPolite two c) (λ rest w e. ends w)

client_handler-vanishes_example :
    (w : World) × (client_handler (addr 0) ((0 ∷ 30 ∷ typed) ∷ [] ∷ []) two ≡ ok (tt, w))
    × Sound w
    × Vanished 0 two w
client_handler-vanishes_example =
    client_handler-vanishes two 0 (newcomer 4 0) ((0 ∷ 30 ∷ typed) ∷ []) [] two-Sound refl
      signing_in

client_handler-one_byte_example :
    client_handler (addr 0) ((0 ∷ 30 ∷ typed) ∷ (0 ∷ []) ∷ []) two ≡ fault
client_handler-one_byte_example =
    client_handler-one_byte two 0 (newcomer 4 0) ((0 ∷ 30 ∷ typed) ∷ []) [] two-Sound refl
      signing_in 0

-- Two clients connect, one of them hangs up, and the other one signs in.
abbrev visit : List Event
visit = arrives (pos 4) blank ∷ arrives (pos 5) blank ∷ hangs_up 1 ∷ writes 0 0 30 typed [] ∷ []

visit-AreWelcome : AreWelcome (start willing) visit
visit-AreWelcome = next _ _ _ tt λ w1 e1.
    subst (λ x. AreWelcome x (arrives (pos 5) blank ∷ hangs_up 1 ∷ writes 0 0 30 typed [] ∷ []))
      (same_end (sym one-accepted ∙ e1))
      (next _ _ _ tt λ w2 e2.
        subst (λ x. AreWelcome x (hangs_up 1 ∷ writes 0 0 30 typed [] ∷ []))
          (same_end (sym two-accepted ∙ e2))
          (next _ _ _ (newcomer 5 1, refl)
            λ w3 e3.
              subst (λ x. AreWelcome x (writes 0 0 30 typed [] ∷ [])) (same_end (sym gone ∙ e3))
                (next _ _ _
                  (
                    newcomer 4 0,
                    refl,
                    is_bytes-IsBytes (0 ∷ 30 ∷ typed) refl,
                    signs_in-IsPolite (departed two 1 1) (newcomer 4 0),
                  )
                  (λ w4 e4. done w4))))
  where
    gone : disconnect (addr 1) two ≡ ok (tt, departed two 1 1)
    gone = (disconnect-departed two 1 1 two-Inv refl (newcomer 5 1) refl refl tt).0

perform_all-start-Does_example : Does (Course visit) (perform_all visit) (start willing)
perform_all-start-Does_example =
    perform_all-start-Does willing visit willing-IsServed visit-AreWelcome
