-- ===== src/Reader/Spelled.antt =====
-- Texts on the wire, as server/lso_reader.c reads them: a length, the characters, a terminator, and
-- what else the length counts.
use lso_server.Base.{
  ℕ, ◌+◌, ◌≡◌, ap, subst, ◌∙◌, List, [], ◌∷◌, ◌++◌, some, pos, ok, length, signed, map-append,
  append_assoc,
}
use lso_server.Memory.{Block}
use lso_server.Memory.Laws.{init, NonZero}
use lso_server.Utils.Decode.{pattern32}
use lso_server.Writer.Strings.{IsBytes}
use lso_server.Reader.{Reader, skip, lso_reader_read_string}
use lso_server.Reader.Remains.{Remains, lso_reader_read_string-Remains}

-- `xs` starts with the text `cs`, and `ys` stands behind it.
pub record Spells (xs cs ys : List ℕ) : Type 0 where
  pub b0 : ℕ
  pub b1 : ℕ
  pub b2 : ℕ
  pub b3 : ℕ
  pub more : List ℕ
  pub split : xs ≡ b0 ∷ b1 ∷ b2 ∷ b3 ∷ ((cs ++ 0 ∷ more) ++ ys)
  pub size : signed 32 (pattern32 b0 b1 b2 b3) ≡ pos (length (cs ++ 0 ∷ more))
  pub chars : IsBytes (cs ++ 0 ∷ more)
  pub others : IsBytes ys
  pub text : NonZero cs

init-terminated :
    (cs more : List ℕ)
    → init (cs ++ 0 ∷ more) ++ some 0 ∷ [] ≡ init cs ++ some 0 ∷ (init more ++ some 0 ∷ [])
init-terminated cs more =
    ap (λ (m : Block). m ++ some 0 ∷ []) (map-append some cs (0 ∷ more))
    ∙ append_assoc (init cs) (some 0 ∷ init more) (some 0 ∷ [])

-- Reading it returns a string that is `cs` up to its first zero, and a reader behind it.
pub lso_reader_read_string-Spells :
    (r : Reader) (xs cs ys : List ℕ) (s : Spells xs cs ys)
    → Remains r xs
    → (lso_reader_read_string r
        ≡ ok (record {
          length = pos (length (cs ++ 0 ∷ s.more));
          string = some (init cs ++ some 0 ∷ (init s.more ++ some 0 ∷ []));
          reader = skip r (4 + length (cs ++ 0 ∷ s.more));
        }))
      × Remains (skip r (4 + length (cs ++ 0 ∷ s.more))) ys
lso_reader_read_string-Spells r xs cs ys s rem =
    let (e, rem') =
      lso_reader_read_string-Remains r s.b0 s.b1 s.b2 s.b3 (cs ++ 0 ∷ s.more) ys
        (subst (Remains r) s.split rem) s.size s.chars s.others in
    (
      e
          ∙ ap
              (λ (m : Block). ok (record {
                length = pos (length (cs ++ 0 ∷ s.more));
                string = some m;
                reader = skip r (4 + length (cs ++ 0 ∷ s.more));
              }))
              (init-terminated cs s.more),
      rem',
    )
